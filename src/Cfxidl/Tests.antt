-- ===== src/Cfxidl/Tests.antt =====
-- tools/cfxidl: runs of the interface compiler on a function that changes its argument, and its files
-- where the sources of the stub cannot be opened.
use ctrlr_fx.Cfxidl.{dir_in, dir_inout, cmd_const_name, cmd_func_name, Func, Iface, write_decl}
use ctrlr_fx.Cfxidl.Files.{create_files, open_all, planned, create_files_lem}
use ctrlr_fx.Cfxidl.Sources.{iface_hdr}
use ctrlr_fx.Cfxidl.Sources.Stub.{stub_func, stub_command, stub_reply, stub_reads, stub_return}
use ctrlr_fx.Cfxidl.Sources.Skel.{
  skel_src, skel_func, skel_vars, skel_params, skel_args, skel_reply,
}
use ctrlr_fx.Cfxidl.Table.{words, between, scoped, table_agrees}
use ctrlr_fx.Cfxidl.Wire.{wire_agrees}
use ctrlr_fx.Cfxidl.Wire.Operands.{operands, stub_sent, stub_read, skel_read, skel_sent}
use ctrlr_fx.Prelude.{Bool, true, not, [], ◌∷◌, ◌≡◌, refl}
use mathlib.Core.List.{map}
use Prim.Native.Char.{Char}
use Prim.Native.String.{String}
use text.Mathlib.Text.{◌==◌}

abbrev step : Func
step = record {
  type = "int";
  name = "step";
  params =
      record { dir = dir_in; type = "int"; name = "by" }
      ∷ record { dir = dir_inout; type = "int"; name = "n" }
      ∷ [];
}

abbrev my_iface : Iface
my_iface = record { name = "MyIface"; funcs = step ∷ [] }

abbrev as_is : Char → Char
as_is c = c

stub-step : operands stub_sent (stub_func as_is "MyIface_stub" step) ≡ "by" ∷ "n" ∷ []
unfolding operands stub_func write_decl stub_command stub_reply stub_reads stub_return
stub-step = refl

skel-step : operands skel_sent (skel_func "MyIface_skel" step) ≡ "n" ∷ "_ret" ∷ []
unfolding operands skel_func skel_vars skel_params skel_args skel_reply
skel-step = refl

wire_agrees_example :
    (operands stub_sent (stub_func as_is "MyIface_stub" step)
      ≡ operands skel_read (skel_func "MyIface_skel" step))
    × (operands skel_sent (skel_func "MyIface_skel" step)
        ≡ operands stub_read (stub_func as_is "MyIface_stub" step))
wire_agrees_example = wire_agrees as_is "MyIface_stub" "MyIface_skel" step

abbrev no_stub : String → Bool
no_stub name = not (name == "MyIface_stub.cpp")

abbrev all_arrives : String → Bool
all_arrives name = true

create_files_lem_example :
    create_files as_is no_stub all_arrives my_iface []
    ≡ open_all as_is no_stub all_arrives (planned as_is no_stub all_arrives my_iface) []
create_files_lem_example = create_files_lem as_is no_stub all_arrives (λ name. refl) my_iface []

table_agrees_example :
    (words (between "\tenum { " "N_CMD };\n" (iface_hdr as_is "IMyIface.h" my_iface))
      ≡ map (cmd_const_name as_is) (step ∷ []))
    × (operands scoped (
          between "::cmdTbl_[] = {\n" "\t0\n};\n\n"
            (skel_src as_is "MyIface_skel" "MyIface_skel.cpp" "MyIface_skel.h" my_iface))
        ≡ map cmd_func_name (step ∷ []))
table_agrees_example =
    table_agrees as_is "MyIface_skel" "MyIface_skel.cpp" "MyIface_skel.h" "IMyIface.h" my_iface
