-- ===== src/Cfxidl/Wire/Params.antt =====
-- tools/cfxidl/Iface.cpp: the operands in the loops over the parameters.
use ctrlr_fx.Cfxidl.{dir_in, dir_inout, is_dir, Param, Piece}
use ctrlr_fx.Cfxidl.Sources.{n_where, goes_in, comes_out}
use ctrlr_fx.Cfxidl.Sources.Stub.{stub_sends, stub_reads}
use ctrlr_fx.Cfxidl.Sources.Skel.{skel_reads, skel_writes}
use ctrlr_fx.Prelude.{
  suc, ltb, Bool, false, Bool-cases, inl, inr, if◌then◌else◌, List, [], ◌∷◌, ◌++◌, ◌≡◌, refl, ap,
  subst, arith,
}
use ctrlr_fx.Cfxidl.Wire.Operands.{
  operands, stub_sent, stub_read, skel_read, skel_sent, names_where, Skips,
}

-- The operands of a list of parameters, and that the other mark of the same text passes them by.
pub operands-stub_sends :
    (ps : List Param) (rest : List Piece)
    → operands stub_sent (stub_sends ps ++ rest) ≡ names_where goes_in ps ++ operands stub_sent rest
unfolding stub_sends operands names_where
operands-stub_sends [] rest = refl
operands-stub_sends (p ∷ ps) rest = elim (Bool-cases (is_dir p.dir dir_in)) [
  | inl h ↦ rw h (ap (λ names. p.name ∷ names) (operands-stub_sends ps rest))
  | inr h ↦ elim (Bool-cases (is_dir p.dir dir_inout)) [
    | inl k ↦ rw (h, k) (ap (λ names. p.name ∷ names) (operands-stub_sends ps rest))
    | inr k ↦ rw (h, k) (operands-stub_sends ps rest)
  ]
]

pub stub_sends-Skips : (ps : List Param) → Skips stub_read (stub_sends ps)
unfolding stub_sends operands
stub_sends-Skips [] rest = refl
stub_sends-Skips (p ∷ ps) rest = elim (Bool-cases (is_dir p.dir dir_in)) [
  | inl h ↦ rw h (stub_sends-Skips ps rest)
  | inr h ↦ elim (Bool-cases (is_dir p.dir dir_inout)) [
    | inl k ↦ rw (h, k) (stub_sends-Skips ps rest)
    | inr k ↦ rw (h, k) (stub_sends-Skips ps rest)
  ]
]

pub operands-stub_reads :
    (ps : List Param) (rest : List Piece)
    → operands stub_read (stub_reads ps ++ rest)
      ≡ names_where comes_out ps ++ operands stub_read rest
unfolding stub_reads operands names_where
operands-stub_reads [] rest = refl
operands-stub_reads (p ∷ ps) rest = elim (Bool-cases (comes_out p)) [
  | inl h ↦ rw h (ap (λ names. p.name ∷ names) (operands-stub_reads ps rest))
  | inr h ↦ rw h (operands-stub_reads ps rest)
]

pub stub_reads-Skips : (ps : List Param) → Skips stub_sent (stub_reads ps)
unfolding stub_reads operands
stub_reads-Skips [] rest = refl
stub_reads-Skips (p ∷ ps) rest = elim (Bool-cases (comes_out p)) [
  | inl h ↦ rw h (stub_reads-Skips ps rest)
  | inr h ↦ rw h (stub_reads-Skips ps rest)
]

pub operands-skel_reads :
    (ps : List Param) (rest : List Piece)
    → operands skel_read (skel_reads ps ++ rest) ≡ names_where goes_in ps ++ operands skel_read rest
unfolding skel_reads operands names_where
operands-skel_reads [] rest = refl
operands-skel_reads (p ∷ ps) rest = elim (Bool-cases (goes_in p)) [
  | inl h ↦ rw h (ap (λ names. p.name ∷ names) (operands-skel_reads ps rest))
  | inr h ↦ rw h (operands-skel_reads ps rest)
]

pub skel_reads-Skips : (ps : List Param) → Skips skel_sent (skel_reads ps)
unfolding skel_reads operands
skel_reads-Skips [] rest = refl
skel_reads-Skips (p ∷ ps) rest = elim (Bool-cases (goes_in p)) [
  | inl h ↦ rw h (skel_reads-Skips ps rest)
  | inr h ↦ rw h (skel_reads-Skips ps rest)
]

pub operands-skel_writes :
    (ps : List Param) (rest : List Piece)
    → operands skel_sent (skel_writes ps ++ rest)
      ≡ names_where comes_out ps ++ operands skel_sent rest
unfolding skel_writes operands names_where
operands-skel_writes [] rest = refl
operands-skel_writes (p ∷ ps) rest = elim (Bool-cases (comes_out p)) [
  | inl h ↦ rw h (ap (λ names. p.name ∷ names) (operands-skel_writes ps rest))
  | inr h ↦ rw h (operands-skel_writes ps rest)
]

pub skel_writes-Skips : (ps : List Param) → Skips skel_read (skel_writes ps)
unfolding skel_writes operands
skel_writes-Skips [] rest = refl
skel_writes-Skips (p ∷ ps) rest = elim (Bool-cases (comes_out p)) [
  | inl h ↦ rw h (skel_writes-Skips ps rest)
  | inr h ↦ rw h (skel_writes-Skips ps rest)
]

-- No parameter is counted where none is named.
pub n_where-names_where :
    (test : Param → Bool) (ps : List Param)
    → ltb 0 (n_where test ps) ≡ false
    → names_where test ps ≡ []
unfolding n_where names_where
n_where-names_where test [] none = refl
n_where-names_where test (p ∷ ps) none = elim (Bool-cases (test p)) [
  | inl h ↦ ground (arith, h, none)
  | inr h ↦ rw h (
      n_where-names_where test ps
        (subst (λ b. ltb 0 (let n = n_where test ps in if b then suc n else n) ≡ false) h none))
]
