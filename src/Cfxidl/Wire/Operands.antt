-- ===== src/Cfxidl/Wire/Operands.antt =====
-- tools/cfxidl/Iface.cpp: the operands that a generated text names, and the texts that
-- name none.
use ctrlr_fx.Cfxidl.{
  dir_in, is_dir, Param, Func, Piece, lit, word, is_primitive, write_param, write_params,
  write_func, write_decl,
}
use ctrlr_fx.Cfxidl.Sources.{comes_out}
use ctrlr_fx.Cfxidl.Sources.Skel.{skel_vars, skel_arg, skel_args}
use ctrlr_fx.Prelude.{
  Bool, ◌||◌, Bool-cases, inl, inr, if◌then◌else◌, List, [], ◌∷◌, ◌++◌, ◌≡◌, refl, ◌∙◌,
  append_assoc,
}
use Prim.Native.String.{String}
use text.Mathlib.Text.{◌==◌}

-- What a literal says of the operand: none follows, the next piece is one, or it names `_ret`.
pub data Mark : Type 0 where
  no_operand : Mark
  operand : Mark
  ret : Mark

abbrev pub take_operand : Mark → List Piece → List String → List String
take_operand no_operand ps rest = rest
take_operand operand [] rest = rest
take_operand operand (lit s ∷ ps) rest = rest
take_operand operand (word w ∷ ps) rest = w ∷ rest
take_operand ret ps rest = "_ret" ∷ rest

-- The operands of a text, in their order.
unfoldable pub operands : (String → Mark) → List Piece → List String
operands mark [] = []
operands mark (word w ∷ ps) = operands mark ps
operands mark (lit s ∷ ps) = take_operand (mark s) ps (operands mark ps)

-- The operators of a stub's encoder and decoder, and of a skeleton's.
abbrev pub stub_sent : String → Mark
stub_sent s = if s == " << " || s == " << *" then operand else no_operand

abbrev pub stub_read : String → Mark
stub_read s = if s == " >> *" then operand else if s == " >> _ret;\n" then ret else no_operand

abbrev pub skel_read : String → Mark
skel_read s = if s == " >> " then operand else no_operand

abbrev pub skel_sent : String → Mark
skel_sent s = if s == " << " then operand else if s == " << _ret" then ret else no_operand

-- The names of the parameters of some directions.
unfoldable pub names_where : (Param → Bool) → List Param → List String
names_where test [] = []
names_where test (p ∷ ps) =
    let names = names_where test ps in if test p then p.name ∷ names else names

abbrev pub Skips : (String → Mark) → List Piece → Type 0
Skips mark ps = (rest : List Piece) → operands mark (ps ++ rest) ≡ operands mark rest

-- A mark that none of the literals in a declaration has.
pub record Plain (mark : String → Mark) : Type 0 where
  pub space : mark " " ≡ no_operand
  pub const : mark "const " ≡ no_operand
  pub amp_space : mark "& " ≡ no_operand
  pub star : mark "* " ≡ no_operand
  pub comma : mark ", " ≡ no_operand
  pub virt : mark "virtual " ≡ no_operand
  pub paren : mark "(" ≡ no_operand
  pub close_paren : mark ")" ≡ no_operand
  pub colons : mark "::" ≡ no_operand
  pub amp : mark "&" ≡ no_operand
  pub tab : mark "\t" ≡ no_operand
  pub semicolon : mark ";\n" ≡ no_operand
  pub ret_is : mark " _ret = " ≡ no_operand

module _ (mark : String → Mark) (plain : Plain mark) where
  pub write_param-Skips : (p : Param) → Skips mark (write_param p)
  unfolding write_param operands
  write_param-Skips p rest = elim (Bool-cases (is_dir p.dir dir_in)) [
    | inl h ↦ elim (Bool-cases (is_primitive p.type)) [
      | inl k ↦ rw (h, k, plain.space) refl
      | inr k ↦ rw (h, k, plain.const, plain.amp_space) refl
    ]
    | inr h ↦ rw (h, plain.star) refl
  ]

  pub write_params-Skips : (ps : List Param) → Skips mark (write_params ps)
  unfolding write_params operands
  write_params-Skips [] rest = refl
  write_params-Skips (p ∷ []) rest = write_param-Skips p rest
  write_params-Skips (p ∷ q ∷ ps) rest =
      rw (append_assoc (write_param p) (lit ", " ∷ write_params (q ∷ ps)) rest) (
        write_param-Skips p (lit ", " ∷ write_params (q ∷ ps) ++ rest)
        ∙ rw plain.comma (write_params-Skips (q ∷ ps) rest))

  pub write_decl-Skips : (f : Func) (name : String) → Skips mark (write_decl f name)
  unfolding write_decl write_func operands
  write_decl-Skips f name rest = elim (Bool-cases (name == "")) [
    | inl h ↦
        rw
          (
            h,
            append_assoc (write_params f.params) (lit ")" ∷ []) rest,
            plain.virt,
            plain.space,
            plain.paren,
            write_params-Skips f.params (lit ")" ∷ rest),
            plain.close_paren,
          )
          refl
    | inr h ↦
        rw
          (
            h,
            append_assoc (write_params f.params) (lit ")" ∷ []) rest,
            plain.space,
            plain.colons,
            plain.paren,
            write_params-Skips f.params (lit ")" ∷ rest),
            plain.close_paren,
          )
          refl
  ]

  pub skel_vars-Skips : (ps : List Param) → Skips mark (skel_vars ps)
  unfolding skel_vars operands
  skel_vars-Skips [] rest = refl
  skel_vars-Skips (p ∷ ps) rest =
      rw (plain.tab, plain.space, plain.semicolon) (skel_vars-Skips ps rest)

  pub skel_arg-Skips : (p : Param) → Skips mark (skel_arg p)
  unfolding skel_arg operands
  skel_arg-Skips p rest = elim (Bool-cases (comes_out p)) [
    | inl h ↦ rw (h, plain.amp) refl
    | inr h ↦ rw h refl
  ]

  pub skel_args-Skips : (ps : List Param) → Skips mark (skel_args ps)
  unfolding skel_args operands
  skel_args-Skips [] rest = refl
  skel_args-Skips (p ∷ []) rest = skel_arg-Skips p rest
  skel_args-Skips (p ∷ q ∷ ps) rest =
      rw (append_assoc (skel_arg p) (lit ", " ∷ skel_args (q ∷ ps)) rest) (
        skel_arg-Skips p (lit ", " ∷ skel_args (q ∷ ps) ++ rest)
        ∙ rw plain.comma (skel_args-Skips (q ∷ ps) rest))

pub stub_sent-Plain : Plain stub_sent
stub_sent-Plain = record {
  space = refl;
  const = refl;
  amp_space = refl;
  star = refl;
  comma = refl;
  virt = refl;
  paren = refl;
  close_paren = refl;
  colons = refl;
  amp = refl;
  tab = refl;
  semicolon = refl;
  ret_is = refl;
}

pub stub_read-Plain : Plain stub_read
stub_read-Plain = record {
  space = refl;
  const = refl;
  amp_space = refl;
  star = refl;
  comma = refl;
  virt = refl;
  paren = refl;
  close_paren = refl;
  colons = refl;
  amp = refl;
  tab = refl;
  semicolon = refl;
  ret_is = refl;
}

pub skel_read-Plain : Plain skel_read
skel_read-Plain = record {
  space = refl;
  const = refl;
  amp_space = refl;
  star = refl;
  comma = refl;
  virt = refl;
  paren = refl;
  close_paren = refl;
  colons = refl;
  amp = refl;
  tab = refl;
  semicolon = refl;
  ret_is = refl;
}

pub skel_sent-Plain : Plain skel_sent
skel_sent-Plain = record {
  space = refl;
  const = refl;
  amp_space = refl;
  star = refl;
  comma = refl;
  virt = refl;
  paren = refl;
  close_paren = refl;
  colons = refl;
  amp = refl;
  tab = refl;
  semicolon = refl;
  ret_is = refl;
}
