-- ===== src/Cfxidl/Wire.antt =====
-- tools/cfxidl/Iface.cpp: what a generated stub and a generated skeleton put on the wire and take from
-- it, read out of their texts.
pub mod Operands
pub mod Params
pub mod Replies
use ctrlr_fx.Cfxidl.{
  Dir, dir_in, dir_out, dir_inout, is_dir, Param, Func, Iface, Piece, lit, word, is_primitive,
  write_param, write_params, write_func, write_decl, cmd_const_name, cmd_func_name,
}
use ctrlr_fx.Cfxidl.Sources.{n_where, goes_in, comes_out, write_func_sep}
use ctrlr_fx.Cfxidl.Sources.Stub.{
  stub_sends, stub_reads, stub_command, stub_return, stub_reply, stub_func,
}
use ctrlr_fx.Cfxidl.Sources.Skel.{
  skel_reads, skel_writes, skel_vars, skel_arg, skel_args, skel_params, skel_reply, skel_func,
}
use ctrlr_fx.Prelude.{
  ℕ, zero, suc, ltb, Bool, true, false, not, ◌||◌, Bool-cases, ◌⊎◌, inl, inr, if◌then◌else◌, List,
  [], ◌∷◌, ◌++◌, ◌≡◌, refl, sym, ap, subst, ◌∙◌, arith, append_assoc, append-nil,
}
use Prim.Native.Char.{Char}
use Prim.Native.String.{String, ◌++◌ as join}
use text.Mathlib.Text.{◌==◌}
use ctrlr_fx.Cfxidl.Wire.Operands.{
  Mark, take_operand, operands, stub_sent, stub_read, skel_read, skel_sent, names_where, Skips,
  Plain, write_param-Skips, write_params-Skips, write_decl-Skips, skel_vars-Skips, skel_arg-Skips,
  skel_args-Skips, stub_sent-Plain, stub_read-Plain, skel_read-Plain, skel_sent-Plain, no_operand,
  operand, ret,
}
use ctrlr_fx.Cfxidl.Wire.Params.{
  operands-stub_sends, operands-stub_sends, stub_sends-Skips, stub_sends-Skips, operands-stub_reads,
  operands-stub_reads, stub_reads-Skips, stub_reads-Skips, operands-skel_reads, operands-skel_reads,
  skel_reads-Skips, skel_reads-Skips, operands-skel_writes, operands-skel_writes, skel_writes-Skips,
  skel_writes-Skips, n_where-names_where,
}
use ctrlr_fx.Cfxidl.Wire.Replies.{
  ret_names, operands-stub_command, stub_command_passed, operands-skel_params, skel_params_passed,
  operands-stub_return, stub_return-Skips, ret_names-void, stub_end, skel_end, reply_tail_operands,
  reply_tail_passed, operands-stub_reply, stub_reply_passed, operands-skel_reply, skel_reply_passed,
}

-- Both nest to the left.
flat : (a b c d : List Piece) → ((a ++ b) ++ c) ++ d ≡ a ++ (b ++ (c ++ d))
flat a b c d = append_assoc (a ++ b) c d ∙ append_assoc a b (c ++ d)

flat_more :
    (a b c d e f : List Piece)
    → ((((a ++ b) ++ c) ++ d) ++ e) ++ f ≡ a ++ (b ++ (c ++ (d ++ (e ++ f))))
flat_more a b c d e f =
    append_assoc (((a ++ b) ++ c) ++ d) e f
    ∙ append_assoc ((a ++ b) ++ c) d (e ++ f)
    ∙ flat a b c (d ++ (e ++ f))

module _ (f : Func) where
  -- The call in a skeleton's function has no operands.
  call-Skips :
      (mark : String → Mark)
      → Plain mark
      → mark ");\n" ≡ no_operand
      → (rest : List Piece)
      → operands mark (
          (lit "\t" ∷ (if f.type == "void" then [] else word f.type ∷ lit " _ret = " ∷ []))
          ++ ((word f.name ∷ lit "(" ∷ skel_args f.params) ++ (lit ");\n" ∷ rest)))
        ≡ operands mark rest
  unfolding operands
  call-Skips mark plain h rest = elim (Bool-cases (f.type == "void")) [
    | inl v ↦
        rw (v, plain.tab, plain.paren, skel_args-Skips mark plain f.params (lit ");\n" ∷ rest), h)
          refl
    | inr v ↦
        rw
          (
            v,
            plain.tab,
            plain.ret_is,
            plain.paren,
            skel_args-Skips mark plain f.params (lit ");\n" ∷ rest),
            h,
          )
          refl
  ]

module _ (toupper : Char → Char) (name : String) (f : Func) where
  abbrev start : List Piece
  start =
      lit "\n{\n"
      ∷ lit "\tCmdBuffer cmd, rsp;\n"
      ∷ lit "\tEncoder cmdEnc(cmd);\n"
      ∷ lit "\n"
      ∷ lit "\tput_cmd_hdr(cmdEnc, "
      ∷ word (cmd_const_name toupper f)
      ∷ lit ");\n"
      ∷ lit "\n"
      ∷ stub_command f.params

  stub_func-sent : operands stub_sent (stub_func toupper name f) ≡ names_where goes_in f.params
  unfolding stub_func write_func_sep operands
  stub_func-sent =
      ap (operands stub_sent) (flat (write_decl f name) start (stub_reply f) (stub_end f))
      ∙ write_decl-Skips stub_sent stub_sent-Plain f name (start ++ (stub_reply f ++ stub_end f))
      ∙ operands-stub_command f.params (stub_reply f ++ stub_end f)
      ∙ ap (λ names. names_where goes_in f.params ++ names) (stub_reply_passed f)
      ∙ append-nil (names_where goes_in f.params)

  stub_func-read :
      operands stub_read (stub_func toupper name f)
      ≡ names_where comes_out f.params ++ ret_names f.type
  unfolding stub_func write_func_sep operands
  stub_func-read =
      ap (operands stub_read) (flat (write_decl f name) start (stub_reply f) (stub_end f))
      ∙ write_decl-Skips stub_read stub_read-Plain f name (start ++ (stub_reply f ++ stub_end f))
      ∙ stub_command_passed f.params (stub_reply f ++ stub_end f)
      ∙ operands-stub_reply f

module _ (name : String) (f : Func) where
  abbrev before_call : List Piece
  before_call = lit "\t" ∷ (if f.type == "void" then [] else word f.type ∷ lit " _ret = " ∷ [])

  abbrev call : List Piece
  call = word f.name ∷ lit "(" ∷ skel_args f.params

  abbrev tail : List Piece
  tail = before_call ++ (call ++ (lit ");\n" ∷ skel_reply f ++ skel_end f))

  skel_func-flat :
      (mark : String → Mark)
      → operands mark (
          (((((skel_vars f.params ++ skel_params f.params) ++ before_call) ++ call)
              ++ (lit ");\n" ∷ skel_reply f))
            ++ skel_end f))
        ≡ operands mark (skel_vars f.params ++ (skel_params f.params ++ tail))
  skel_func-flat mark = ap (operands mark) (
      flat_more (skel_vars f.params) (skel_params f.params) before_call call
        (lit ");\n" ∷ skel_reply f) (skel_end f))

  skel_func-read : operands skel_read (skel_func name f) ≡ names_where goes_in f.params
  unfolding skel_func write_func_sep operands
  skel_func-read =
      skel_func-flat skel_read
      ∙ skel_vars-Skips skel_read skel_read-Plain f.params (skel_params f.params ++ tail)
      ∙ operands-skel_params f.params tail
      ∙ ap (λ names. names_where goes_in f.params ++ names)
          (call-Skips f skel_read skel_read-Plain refl (skel_reply f ++ skel_end f)
            ∙ skel_reply_passed f)
      ∙ append-nil (names_where goes_in f.params)

  skel_func-sent :
      operands skel_sent (skel_func name f) ≡ names_where comes_out f.params ++ ret_names f.type
  unfolding skel_func write_func_sep operands
  skel_func-sent =
      skel_func-flat skel_sent
      ∙ skel_vars-Skips skel_sent skel_sent-Plain f.params (skel_params f.params ++ tail)
      ∙ skel_params_passed f.params tail
      ∙ call-Skips f skel_sent skel_sent-Plain refl (skel_reply f ++ skel_end f)
      ∙ operands-skel_reply f

-- For every function of an interface, what the generated stub encodes into a command is what the
-- generated skeleton decodes from it, the same names in the same order, and what the skeleton
-- encodes into the response, _ret last where there is a value, is what the stub decodes from it.
pub wire_agrees :
    (toupper : Char → Char) (stub_name skel_name : String) (f : Func)
    → (operands stub_sent (stub_func toupper stub_name f)
        ≡ operands skel_read (skel_func skel_name f))
      × (operands skel_sent (skel_func skel_name f)
          ≡ operands stub_read (stub_func toupper stub_name f))
wire_agrees toupper stub_name skel_name f = (
  stub_func-sent toupper stub_name f ∙ sym (skel_func-read skel_name f),
  skel_func-sent skel_name f ∙ sym (stub_func-read toupper stub_name f),
)
