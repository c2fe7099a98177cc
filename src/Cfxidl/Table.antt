-- ===== src/Cfxidl/Table.antt =====
-- tools/cfxidl/Iface.cpp: the numbers of the commands in a generated interface, and the table of a
-- generated skeleton, read out of their texts.
use ctrlr_fx.Cfxidl.{Func, Iface, iface_name, Piece, lit, word, cmd_const_name, cmd_func_name}
use ctrlr_fx.Cfxidl.Sources.{
  each, write_const, write_virtual, write_func_sep, iface_hdr, iface_enum, write_class_sep,
  write_top, write_guard, write_end,
}
use ctrlr_fx.Cfxidl.Sources.Skel.{skel_func, write_entry, skel_src}
use ctrlr_fx.Cfxidl.Wire.Operands.{Mark, no_operand, operand, operands}
use ctrlr_fx.Prelude.{Bool, if◌then◌else◌, List, [], ◌∷◌, ◌++◌, ◌≡◌, refl, ap, ◌∙◌, append_assoc}
use mathlib.Core.List.{map}
use Prim.Native.Char.{Char}
use Prim.Native.String.{String}
use text.Mathlib.Text.{◌==◌}

abbrev is_lit : String → Piece → Bool
is_lit s (lit t) = t == s
is_lit s (word w) = Bool.false

-- The pieces before a literal, those between the first place of a literal and the next place of
-- another, and the strings among pieces.
unfoldable pub before : String → List Piece → List Piece
before stop [] = []
before stop (p ∷ ps) = if is_lit stop p then [] else p ∷ before stop ps

unfoldable pub between : String → String → List Piece → List Piece
unfolding before
between start stop [] = []
between start stop (p ∷ ps) =
    let rest = between start stop ps in if is_lit start p then before stop ps else rest

unfoldable pub words : List Piece → List String
words [] = []
words (lit s ∷ ps) = words ps
words (word w ∷ ps) = w ∷ words ps

abbrev pub scoped : String → Mark
scoped s = if s == "::" then operand else no_operand

consts_lem :
    (toupper : Char → Char) (fs : List Func) (rest : List Piece)
    → words (before "N_CMD };\n" (each (write_const toupper) fs ++ lit "N_CMD };\n" ∷ rest))
      ≡ map (cmd_const_name toupper) fs
unfolding words before each
consts_lem toupper [] rest = refl
consts_lem toupper (f ∷ fs) rest =
    ap (λ names. cmd_const_name toupper f ∷ names) (consts_lem toupper fs rest)

entries_lem :
    (toupper : Char → Char) (skel_name : String) (fs : List Func) (rest : List Piece)
    → operands scoped
        (before "\t0\n};\n\n" (each (write_entry toupper skel_name) fs ++ lit "\t0\n};\n\n" ∷ rest))
      ≡ map cmd_func_name fs
unfolding operands before each
entries_lem toupper skel_name [] rest = refl
entries_lem toupper skel_name (f ∷ fs) rest =
    ap (λ names. cmd_func_name f ∷ names) (entries_lem toupper skel_name fs rest)

module _ (toupper : Char → Char) (filename : String) (i : Iface) where
  abbrev class_end : List Piece
  class_end =
      lit "\n\tvirtual ~" ∷ word (iface_name i) ∷ lit "() {}\n" ∷ lit "};\n" ∷ write_end filename

  enum_lem :
      (fs : List Func)
      → words (between "\tenum { " "N_CMD };\n" (iface_enum toupper fs ++ class_end))
        ≡ map (cmd_const_name toupper) fs
  unfolding iface_enum write_end between words
  enum_lem [] = refl
  enum_lem (f ∷ fs) =
      ap (λ ps. words (before "N_CMD };\n" ps))
        (append_assoc (each (write_const toupper) (f ∷ fs))
          (lit "N_CMD };\n" ∷ lit "\npublic:\n" ∷ each (write_virtual " =0;\n") (f ∷ fs)) class_end)
      ∙ consts_lem toupper (f ∷ fs)
          (lit "\npublic:\n" ∷ each (write_virtual " =0;\n") (f ∷ fs) ++ class_end)

abbrev invoke_text : String → List Piece
invoke_text skel_name =
    lit "int "
    ∷ word skel_name
    ∷ lit "::invoke(op_t op, Decoder& param, Encoder& rsp)\n{\n"
    ∷ lit "\tif (unsigned(op) > N_CMD)\n\t\treturn -1;\n\n"
    ∷ lit "\tCmdPtr p = cmdTbl_[unsigned(op)];\n"
    ∷ lit "\treturn (p == 0) ? -1 : ((this->*p)(param, rsp));\n}"
    ∷ lit "\n"
    ∷ []

module _ (toupper : Char → Char) (skel_name filename hdrname : String) (i : Iface) where
  abbrev entries : List Piece
  entries = each (write_entry toupper skel_name) i.funcs

  abbrev bodies : List Piece
  bodies = lit "\t0\n};\n\n" ∷ each (skel_func skel_name) i.funcs

  table_lem :
      operands scoped
        (between "::cmdTbl_[] = {\n" "\t0\n};\n\n" (skel_src toupper skel_name filename hdrname i))
      ≡ map cmd_func_name i.funcs
  unfolding skel_src write_top between write_class_sep
  table_lem =
      ap (λ ps. operands scoped (before "\t0\n};\n\n" ps))
        (append_assoc (entries ++ bodies) write_func_sep (invoke_text skel_name)
          ∙ append_assoc entries bodies (write_func_sep ++ invoke_text skel_name))
      ∙ entries_lem toupper skel_name i.funcs
          (each (skel_func skel_name) i.funcs ++ (write_func_sep ++ invoke_text skel_name))

-- In the texts for an interface, the constants that the enumeration of its header numbers from 0
-- are those of its functions, in order; and the table of the skeleton has, before its end, the
-- functions of the skeleton for the same functions in the same order.
pub table_agrees :
    (toupper : Char → Char) (skel_name filename hdrname header : String) (i : Iface)
    → (words (between "\tenum { " "N_CMD };\n" (iface_hdr toupper header i))
        ≡ map (cmd_const_name toupper) i.funcs)
      × (operands scoped (
            between "::cmdTbl_[] = {\n" "\t0\n};\n\n"
              (skel_src toupper skel_name filename hdrname i))
          ≡ map cmd_func_name i.funcs)
unfolding iface_hdr write_top write_guard between
table_agrees toupper skel_name filename hdrname header i =
    (enum_lem toupper header i i.funcs, table_lem toupper skel_name filename hdrname i)
