-- ===== src/Cfxidl/Sources.antt =====
-- tools/cfxidl/Iface.cpp: what the interface compiler writes into each of its files.
pub mod Stub
pub mod Skel
use ctrlr_fx.Cfxidl.{
  dir_in, dir_out, dir_inout, is_dir, Param, Func, Iface, Piece, lit, word, err_val, write_func,
  write_decl, cmd_const_name, cmd_func_name, iface_name, guard_name,
}
use ctrlr_fx.Prelude.{ℕ, zero, suc, ltb, Bool, not, if◌then◌else◌, List, [], ◌∷◌, ◌++◌, ◌&&◌, ◌||◌}
use Prim.Native.Char.{Char}
use Prim.Native.String.{String, ◌++◌ as join}
use text.Mathlib.Text.{◌==◌}

repeat : ℕ → String → String
repeat zero s = ""
repeat (suc n) s = join s (repeat n s)

unfoldable pub write_func_sep : List Piece
unfolding repeat
write_func_sep = lit "// " ∷ lit (repeat 74 "-") ∷ lit "\n\n" ∷ []

unfoldable pub write_class_sep : List Piece
unfolding repeat
write_class_sep = lit (repeat 77 "/") ∷ lit "\n\n" ∷ []

-- What a loop over the functions writes.
unfoldable pub each : (Func → List Piece) → List Func → List Piece
each write [] = []
each write (f ∷ fs) = write f ++ each write fs

-- The lines that open a file, and the macro of a header.
unfoldable pub write_top : String → String → Iface → List Piece
write_top filename what i =
    lit "// "
    ∷ word filename
    ∷ lit "\n"
    ∷ lit what
    ∷ word i.name
    ∷ lit "\n"
    ∷ lit "// Generated by cfxidl compiler.\n\n"
    ∷ []

unfoldable pub write_guard : String → List Piece
unfolding guard_name
write_guard filename =
    lit "#ifndef "
    ∷ word (guard_name filename)
    ∷ lit "\n"
    ∷ lit "#define "
    ∷ word (guard_name filename)
    ∷ lit "\n\n"
    ∷ []

unfoldable pub write_end : String → List Piece
unfolding guard_name
write_end filename = lit "\n#endif\t\t// " ∷ word (guard_name filename) ∷ lit "\n" ∷ []

-- The parameters that go in, and those that come out: the tests of the loops that count them.
abbrev pub goes_in : Param → Bool
goes_in p = is_dir p.dir dir_in || is_dir p.dir dir_inout

abbrev pub comes_out : Param → Bool
comes_out p = is_dir p.dir dir_out || is_dir p.dir dir_inout

unfoldable pub n_where : (Param → Bool) → List Param → ℕ
n_where test [] = 0
n_where test (p ∷ ps) = let n = n_where test ps in if test p then suc n else n

abbrev pub write_virtual : String → Func → List Piece
write_virtual tail f = lit "\t" ∷ write_func f ++ lit tail ∷ []

module _ (toupper : Char → Char) where
  -- `create_iface`: the class of the interface, with the numbers of its commands.
  abbrev pub write_const : Func → List Piece
  write_const f = word (cmd_const_name toupper f) ∷ lit ", " ∷ []

  unfoldable pub iface_enum : List Func → List Piece
  unfolding each cmd_const_name write_func
  iface_enum [] = []
  iface_enum (f ∷ fs) =
      lit "\tenum { " ∷ each write_const (f ∷ fs)
      ++ lit "N_CMD };\n" ∷ lit "\npublic:\n" ∷ each (write_virtual " =0;\n") (f ∷ fs)

  unfoldable pub iface_hdr : String → Iface → List Piece
  unfolding write_top write_guard write_end iface_enum
  iface_hdr filename i =
      write_top filename "// Implementation for interface " i
      ++ write_guard filename
      ++ lit "class "
        ∷ word (iface_name i)
        ∷ lit "\n{\n"
        ∷ lit "protected:\n"
        ∷ lit "\t// TODO: Assign a class number\n"
        ∷ lit "\tstatic const uint16_t OBJ_CLASS = 0;\n\n"
        ∷ iface_enum i.funcs
      ++ lit "\n\tvirtual ~" ∷ word (iface_name i) ∷ lit "() {}\n" ∷ lit "};\n" ∷ write_end filename

  -- `create_impl_hdr` with `write_impl_hdr`, and `create_impl_src`.
  unfoldable pub impl_hdr : String → Iface → List Piece
  unfolding write_top write_guard write_end each write_func
  impl_hdr filename i =
      write_top filename "// Implementation for interface " i
      ++ write_guard filename
      ++ lit "class " ∷ word i.name ∷ lit "\n{\npublic:\n" ∷ each (write_virtual ";\n") i.funcs
      ++ lit "};" ∷ lit "\n" ∷ write_end filename

  impl_func : String → Func → List Piece
  unfolding write_func_sep write_decl
  impl_func name f =
      write_func_sep
      ++ write_decl f name
      ++ lit "\n{\n\t// TODO: Implement this"
        ∷ lit "\n"
        ∷ (if f.type == "void" then [] else lit "\treturn 0" ∷ lit "\n" ∷ [])
      ++ lit "}\n" ∷ lit "\n" ∷ []

  unfoldable pub impl_src : String → Iface → List Piece
  unfolding write_top each impl_func
  impl_src filename i =
      write_top filename "// Implementation for interface " i
      ++ lit "#include \"CtrlrFx/CtrlrFx.h\""
        ∷ lit "\n"
        ∷ lit "#include \""
        ∷ word i.name
        ∷ lit ".h\"\n"
        ∷ lit "\n"
        ∷ each (impl_func i.name) i.funcs
