-- ===== src/Cfxidl/Files.antt =====
-- tools/cfxidl/Iface.cpp: the files of an interface in the order in which they are created. Whether a
-- file can be opened, and whether all that is written on it arrives, are the system's to answer.
use ctrlr_fx.Cfxidl.{Iface, Piece, iface_name}
use ctrlr_fx.Cfxidl.Sources.{iface_hdr, impl_hdr, impl_src}
use ctrlr_fx.Cfxidl.Sources.Stub.{stub_hdr, stub_src}
use ctrlr_fx.Cfxidl.Sources.Skel.{skel_hdr, skel_src}
use ctrlr_fx.Prelude.{Bool, true, false, if◌then◌else◌, List, [], ◌∷◌, ◌++◌, ◌≡◌, arith}
use Prim.Native.Char.{Char}
use Prim.Native.String.{String, ◌++◌ as join}

pub record File : Type 0 where
  pub filename : String
  pub text : List Piece

-- What a function of `Iface` ends with, and the files by then: its answer, or a `cfx_exception`.
pub data Outcome : Type 0 where
  returned : Bool → List File → Outcome
  thrown : String → List File → Outcome

-- `a && b`, and `a; b`.
and_also : Outcome → (List File → Outcome) → Outcome
and_also (returned true files) next = next files
and_also (returned false files) next = returned false files
and_also (thrown msg files) next = thrown msg files

followed_by : Outcome → (List File → Outcome) → Outcome
followed_by (returned answer files) next = next files
followed_by (thrown msg files) next = thrown msg files

module _ (toupper : Char → Char) (opens : String → Bool) (arrives : String → Bool) where
  create : String → String → List Piece → List File → Outcome
  create name msg text files =
      if opens name
      then returned (arrives name) (files ++ record { filename = name; text = text } ∷ [])
      else thrown msg files

  create_iface : Iface → List File → Outcome
  unfolding create
  create_iface i =
      let filename = join (iface_name i) ".h" in
      create filename "Unable to open interface header." (iface_hdr toupper filename i)

  create_stub_hdr : Iface → List File → Outcome
  unfolding create
  create_stub_hdr i =
      let stub_name = join i.name "_stub" in
      let filename = join stub_name ".h" in
      create filename "Unable to open stub header" (stub_hdr toupper stub_name filename i)

  create_stub_src : Iface → List File → Outcome
  unfolding create
  create_stub_src i =
      let stub_name = join i.name "_stub" in
      let filename = join stub_name ".cpp" in
      create filename "Unable to open stub source"
        (stub_src toupper stub_name filename (join stub_name ".h") i)

  create_stub : Iface → List File → Outcome
  unfolding create_stub_hdr create_stub_src and_also
  create_stub i files = and_also (create_stub_hdr i files) (create_stub_src i)

  create_skel_hdr : Iface → List File → Outcome
  unfolding create
  create_skel_hdr i =
      let skel_name = join i.name "_skel" in
      let filename = join skel_name ".h" in
      create filename "Unable to open skel header" (skel_hdr toupper skel_name filename i)

  create_skel_src : Iface → List File → Outcome
  unfolding create
  create_skel_src i =
      let skel_name = join i.name "_skel" in
      let filename = join skel_name ".cpp" in
      create filename "Unable to open skel source"
        (skel_src toupper skel_name filename (join skel_name ".h") i)

  create_skel : Iface → List File → Outcome
  unfolding create_skel_hdr create_skel_src and_also
  create_skel i files = and_also (create_skel_hdr i files) (create_skel_src i)

  create_impl_hdr : Iface → List File → Outcome
  unfolding create
  create_impl_hdr i =
      let filename = join i.name ".h" in
      create filename "Unable to open implementation header" (impl_hdr toupper filename i)

  create_impl_src : Iface → List File → Outcome
  unfolding create
  create_impl_src i =
      let filename = join i.name ".cpp" in
      create filename "Unable to open implementation source" (impl_src toupper filename i)

  create_impl : Iface → List File → Outcome
  unfolding create_impl_hdr create_impl_src and_also
  create_impl i files = and_also (create_impl_hdr i files) (create_impl_src i)

  unfoldable pub create_files : Iface → List File → Outcome
  unfolding create_iface create_stub create_skel create_impl followed_by
  create_files i files =
      followed_by (create_iface i files)
        (λ a. followed_by (create_stub i a) (λ b. followed_by (create_skel i b) (create_impl i)))

  -- What a run is to do: the files in their order, each with the message of the exception that says
  -- that it cannot be opened.
  pub record Planned : Type 0 where
    pub msg : String
    pub file : File

  abbrev pub plan : String → String → List Piece → Planned
  plan msg filename text = record { msg = msg; file = record { filename = filename; text = text } }

  abbrev pub planned : Iface → List Planned
  planned i =
      let stub_name = join i.name "_stub" in
      let skel_name = join i.name "_skel" in
      let iface_h = join (iface_name i) ".h" in
      let stub_h = join stub_name ".h" in
      let stub_cpp = join stub_name ".cpp" in
      let skel_h = join skel_name ".h" in
      let skel_cpp = join skel_name ".cpp" in
      plan "Unable to open interface header." iface_h (iface_hdr toupper iface_h i)
      ∷ plan "Unable to open stub header" stub_h (stub_hdr toupper stub_name stub_h i)
      ∷ plan "Unable to open stub source" stub_cpp (stub_src toupper stub_name stub_cpp stub_h i)
      ∷ plan "Unable to open skel header" skel_h (skel_hdr toupper skel_name skel_h i)
      ∷ plan "Unable to open skel source" skel_cpp (skel_src toupper skel_name skel_cpp skel_h i)
      ∷ plan "Unable to open implementation header" (join i.name ".h")
          (impl_hdr toupper (join i.name ".h") i)
      ∷ plan "Unable to open implementation source" (join i.name ".cpp")
          (impl_src toupper (join i.name ".cpp") i)
      ∷ []

  unfoldable pub open_all : List Planned → List File → Outcome
  open_all [] files = returned true files
  open_all (p ∷ ps) files =
      let rest = open_all ps (files ++ p.file ∷ []) in
      if opens p.file.filename then rest else thrown p.msg files

  -- Where all that is written arrives, a run for an interface creates its seven files in order,
  -- and the first that cannot be opened ends it: its exception is raised, the files before it are
  -- there with their whole texts, and none of those after it is created.
  pub create_files_lem :
      (all : (name : String) → arrives name ≡ true) (i : Iface) (files : List File)
      → create_files i files ≡ open_all (planned i) files
  unfolding create_files create_iface create_stub create_skel create_impl create_stub_hdr
      create_stub_src create_skel_hdr create_skel_src create_impl_hdr create_impl_src create
      followed_by and_also open_all
  create_files_lem all i files = ground (
    arith,
    all (join (iface_name i) ".h"),
    all (join (join i.name "_stub") ".h"),
    all (join (join i.name "_stub") ".cpp"),
    all (join (join i.name "_skel") ".h"),
    all (join (join i.name "_skel") ".cpp"),
    all (join i.name ".h"),
    all (join i.name ".cpp"),
  )
