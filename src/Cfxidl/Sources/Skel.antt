-- ===== src/Cfxidl/Sources/Skel.antt =====
-- tools/cfxidl/Iface.cpp: the files of a skeleton, `create_skel_hdr` and `create_skel_src`.
use ctrlr_fx.Cfxidl.{Param, Func, Iface, Piece, lit, word, cmd_func_name, iface_name}
use ctrlr_fx.Prelude.{ltb, not, if◌then◌else◌, List, [], ◌∷◌, ◌++◌, ◌||◌}
use Prim.Native.Char.{Char}
use Prim.Native.String.{String}
use text.Mathlib.Text.{◌==◌}
use ctrlr_fx.Cfxidl.Sources.{
  write_func_sep, write_class_sep, each, write_top, write_guard, write_end, goes_in, comes_out,
  n_where,
}

-- Skeleton: the variables, the operands of `param`, the arguments, the operands of `rsp`.
unfoldable pub skel_vars : List Param → List Piece
skel_vars [] = []
skel_vars (p ∷ ps) = lit "\t" ∷ word p.type ∷ lit " " ∷ word p.name ∷ lit ";\n" ∷ skel_vars ps

unfoldable pub skel_reads : List Param → List Piece
skel_reads [] = []
skel_reads (p ∷ ps) = (if goes_in p then lit " >> " ∷ word p.name ∷ [] else []) ++ skel_reads ps

unfoldable pub skel_arg : Param → List Piece
skel_arg p = (if comes_out p then lit "&" ∷ [] else []) ++ word p.name ∷ []

unfoldable pub skel_args : List Param → List Piece
unfolding skel_arg
skel_args [] = []
skel_args (p ∷ []) = skel_arg p
skel_args (p ∷ q ∷ ps) = skel_arg p ++ lit ", " ∷ skel_args (q ∷ ps)

unfoldable pub skel_writes : List Param → List Piece
skel_writes [] = []
skel_writes (p ∷ ps) = (if comes_out p then lit " << " ∷ word p.name ∷ [] else []) ++ skel_writes ps

unfoldable pub skel_params : List Param → List Piece
unfolding n_where skel_reads
skel_params ps =
    if ltb 0 (n_where goes_in ps) then lit "\tparam" ∷ skel_reads ps ++ lit ";\n" ∷ [] else []

unfoldable pub skel_reply : Func → List Piece
unfolding n_where skel_writes
skel_reply f =
    if ltb 0 (n_where comes_out f.params) || not (f.type == "void")
    then lit "\trsp" ∷ skel_writes f.params
      ++ (if f.type == "void" then [] else lit " << _ret" ∷ [])
      ++ lit ";\n" ∷ []
    else []

-- The body of a skeleton's function: one round of the loop in `create_skel_src`.
unfoldable pub skel_func : String → Func → List Piece
unfolding write_func_sep
skel_func skel_name f =
    write_func_sep
    ++ lit "int "
      ∷ word skel_name
      ∷ lit "::"
      ∷ word (cmd_func_name f)
      ∷ lit "(Decoder& param, Encoder& rsp)\n{\n"
      ∷ skel_vars f.params
    ++ skel_params f.params
    ++ lit "\t" ∷ (if f.type == "void" then [] else word f.type ∷ lit " _ret = " ∷ [])
    ++ word f.name ∷ lit "(" ∷ skel_args f.params
    ++ lit ");\n" ∷ skel_reply f
    ++ lit "\treturn 0;\n" ∷ lit "}\n\n" ∷ []

module _ (toupper : Char → Char) where
  -- `create_skel_hdr`.
  abbrev write_callback : Func → List Piece
  write_callback f =
      lit "\tint " ∷ word (cmd_func_name f) ∷ lit "(Decoder& param, Encoder& rsp);\n" ∷ []

  unfoldable pub skel_hdr : String → String → Iface → List Piece
  unfolding write_top write_guard write_end write_class_sep each
  skel_hdr skel_name filename i =
      write_top filename "// Skel for interface " i
      ++ write_guard filename
      ++ lit "#include \""
        ∷ word (iface_name i)
        ∷ word ".h"
        ∷ lit "\"\n"
        ∷ lit "#include \"CtrlrFx/DistObj.h\"\n"
        ∷ lit "\n"
        ∷ write_class_sep
      ++ lit "class "
        ∷ word skel_name
        ∷ lit " : virtual public "
        ∷ word (iface_name i)
        ∷ lit ",\n\t\t\tvirtual public CtrlrFx::IDistObj\n{\n"
        ∷ lit "\ttypedef CtrlrFx::BinNativeEncoder Encoder;\n"
        ∷ lit "\ttypedef CtrlrFx::BinNativeDecoder Decoder;\n"
        ∷ lit "\ttypedef CtrlrFx::IDistObj::op_t op_t;\n"
        ∷ lit "\n"
        ∷ lit "\ttypedef int ("
        ∷ word skel_name
        ∷ lit "::* CmdPtr)(Decoder& param, Encoder& rsp);\n"
        ∷ lit "\n\tstatic const CmdPtr cmdTbl_[];\n"
        ∷ lit "\n"
        ∷ lit "\t// ----- Distributed callback methods -----\n"
        ∷ each write_callback i.funcs
      ++ lit "\npublic:\n"
        ∷ lit "\tvirtual int invoke(op_t op, Decoder& param, Encoder& rsp);\n"
        ∷ lit "};"
        ∷ lit "\n"
        ∷ write_end filename

  -- `create_skel_src`: the table of the commands, the functions, and `invoke`.
  abbrev pub write_entry : String → Func → List Piece
  write_entry skel_name f =
      lit "\t&" ∷ word skel_name ∷ lit "::" ∷ word (cmd_func_name f) ∷ lit ",\n" ∷ []

  unfoldable pub skel_src : String → String → String → Iface → List Piece
  unfolding write_top write_class_sep write_func_sep each skel_func
  skel_src skel_name filename hdrname i =
      write_top filename "// Skel for interface " i
      ++ lit "#include \"CtrlrFx/CtrlrFx.h\"\n"
        ∷ lit "#include \""
        ∷ word hdrname
        ∷ lit "\"\n\n"
        ∷ lit "using namespace CtrlrFx;\n\n"
        ∷ write_class_sep
      ++ lit "const "
        ∷ word skel_name
        ∷ lit "::CmdPtr "
        ∷ word skel_name
        ∷ lit "::cmdTbl_[] = {\n"
        ∷ each (write_entry skel_name) i.funcs
      ++ lit "\t0\n};\n\n" ∷ each (skel_func skel_name) i.funcs
      ++ write_func_sep
      ++ lit "int "
        ∷ word skel_name
        ∷ lit "::invoke(op_t op, Decoder& param, Encoder& rsp)\n{\n"
        ∷ lit "\tif (unsigned(op) > N_CMD)\n\t\treturn -1;\n\n"
        ∷ lit "\tCmdPtr p = cmdTbl_[unsigned(op)];\n"
        ∷ lit "\treturn (p == 0) ? -1 : ((this->*p)(param, rsp));\n}"
        ∷ lit "\n"
        ∷ []
