-- ===== src/Cfxidl/Sources/Stub.antt =====
-- tools/cfxidl/Iface.cpp: the files of a stub, `create_stub_hdr` and `create_stub_src`.
use ctrlr_fx.Cfxidl.{
  dir_in, dir_inout, is_dir, Param, Func, Iface, Piece, lit, word, err_val, write_func, write_decl,
  cmd_const_name, iface_name,
}
use ctrlr_fx.Prelude.{ltb, not, if◌then◌else◌, List, [], ◌∷◌, ◌++◌, ◌&&◌}
use Prim.Native.Char.{Char}
use Prim.Native.String.{String}
use text.Mathlib.Text.{◌==◌}
use ctrlr_fx.Cfxidl.Sources.{
  write_func_sep, each, write_top, write_guard, write_end, goes_in, comes_out, n_where,
  write_virtual,
}

-- Stub: the operands of `cmdEnc` and of `rspDec`.
unfoldable pub stub_sends : List Param → List Piece
stub_sends [] = []
stub_sends (p ∷ ps) =
    (if is_dir p.dir dir_in
      then lit " << " ∷ word p.name ∷ []
      else if is_dir p.dir dir_inout
      then lit " << *" ∷ word p.name ∷ []
      else [])
    ++ stub_sends ps

unfoldable pub stub_reads : List Param → List Piece
stub_reads [] = []
stub_reads (p ∷ ps) = (if comes_out p then lit " >> *" ∷ word p.name ∷ [] else []) ++ stub_reads ps

-- The statements with those operands, where there are any.
unfoldable pub stub_command : List Param → List Piece
unfolding n_where stub_sends
stub_command ps =
    if ltb 0 (n_where goes_in ps) then lit "\tcmdEnc" ∷ stub_sends ps ++ lit ";\n\n" ∷ [] else []

unfoldable pub stub_return : String → List Piece
unfolding err_val
stub_return type =
    if type == "void"
    then []
    else lit " >> _ret;\n" ∷ lit "\treturn (rspDec) ? _ret : " ∷ word (err_val type) ∷ []

unfoldable pub stub_reply : Func → List Piece
unfolding n_where err_val
stub_reply f =
    if f.type == "void" && not (ltb 0 (n_where comes_out f.params))
    then lit "\tobjSrvr_->send(BIN_MSG_TYPE_CMD, cmd.flip(), rsp);\n" ∷ []
    else lit "\tint _n = objSrvr_->send(BIN_MSG_TYPE_CMD, cmd.flip(), rsp);\n"
        ∷ lit "\tif (_n < 0)\n\t\t"
        ∷ lit "return "
        ∷ word (err_val f.type)
        ∷ lit ";\n\n"
        ∷ (if f.type == "void" then [] else lit "\t" ∷ word f.type ∷ lit " _ret;\n" ∷ [])
      ++ lit "\tDecoder rspDec(rsp);\n" ∷ lit "\trspDec" ∷ stub_reads f.params
      ++ stub_return f.type
      ++ lit ";\n" ∷ []

module _ (toupper : Char → Char) where
  -- `create_stub_hdr`.
  unfoldable pub stub_hdr : String → String → Iface → List Piece
  unfolding write_top write_guard write_end each write_func
  stub_hdr stub_name filename i =
      write_top filename "// Stub for interface " i
      ++ write_guard filename
      ++ lit "#include \""
        ∷ word (iface_name i)
        ∷ word ".h"
        ∷ lit "\"\n\n"
        ∷ lit "class "
        ∷ word stub_name
        ∷ lit " : virtual public "
        ∷ word (iface_name i)
        ∷ lit "\n{\n"
        ∷ lit "\ttypedef CtrlrFx::BinNativeEncoder Encoder;\n"
        ∷ lit "\ttypedef CtrlrFx::BinNativeDecoder Decoder;\n"
        ∷ lit
            "\ttypedef CtrlrFx::FixedBuffer<byte, CtrlrFx::DistObjSrvr::DFLT_CMD_RSP_SIZE> CmdBuffer;\n"
        ∷ lit "\ttypedef CtrlrFx::IDistObj::op_t op_t;\n"
        ∷ lit "\n"
        ∷ lit "\tCtrlrFx::DistObjSrvr* objSrvr_;\n"
        ∷ lit "\n"
        ∷ lit "\tvoid put_cmd_hdr(CtrlrFx::BufEncoder& enc, op_t cmd) const;\n"
        ∷ lit "\npublic:\n"
        ∷ lit "\tCtrlrFx::DistObjSrvr* obj_srvr() const { return objSrvr_; }\n"
        ∷ lit "\tvoid obj_srvr(CtrlrFx::DistObjSrvr* srvr) { objSrvr_ = srvr; }\n"
        ∷ lit "\n"
        ∷ each (write_virtual ";\n") i.funcs
      ++ lit "};" ∷ lit "\n" ∷ write_end filename

  -- The body of a stub's function: one round of the loop in `create_stub_src`.
  unfoldable pub stub_func : String → Func → List Piece
  unfolding write_func_sep
  stub_func stub_name f =
      write_func_sep
      ++ write_decl f stub_name
      ++ lit "\n{\n"
        ∷ lit "\tCmdBuffer cmd, rsp;\n"
        ∷ lit "\tEncoder cmdEnc(cmd);\n"
        ∷ lit "\n"
        ∷ lit "\tput_cmd_hdr(cmdEnc, "
        ∷ word (cmd_const_name toupper f)
        ∷ lit ");\n"
        ∷ lit "\n"
        ∷ stub_command f.params
      ++ stub_reply f
      ++ lit "}\n" ∷ lit "\n" ∷ []

  -- `create_stub_src`.
  unfoldable pub stub_src : String → String → String → Iface → List Piece
  unfolding write_top write_func_sep each stub_func
  stub_src stub_name filename hdrname i =
      write_top filename "// Stub for interface " i
      ++ lit "#include \"CtrlrFx/CtrlrFx.h\"\n"
        ∷ lit "#include \"CtrlrFx/DistObjSrvr.h\"\n"
        ∷ lit "#include \"CtrlrFx/BufCodec.h\"\n"
        ∷ lit "#include \"CtrlrFx/FixedBuffer.h\"\n"
        ∷ lit "#include \""
        ∷ word hdrname
        ∷ lit "\"\n\n"
        ∷ lit "using namespace CtrlrFx;\n\n"
        ∷ write_func_sep
      ++ lit "void "
        ∷ word stub_name
        ∷ lit "::put_cmd_hdr(BufEncoder& enc, op_t cmd) const\n{\n"
        ∷ lit "\tenc.put_uint32(objSrvr_->next_msg_id());\n"
        ∷ lit "\tenc.put_uint32(tgt_obj(OBJ_CLASS, uint16_t(0)));\n"
        ∷ lit "\tenc.put_uint32(cmd);\n"
        ∷ lit "}\n\n"
        ∷ each (stub_func stub_name) i.funcs
