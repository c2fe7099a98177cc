-- ===== src/Cfxidl.antt =====
-- tools/cfxidl: the interface compiler. What the parser collects (cfxidl.h, Func.h, Iface.h), and how
-- Func.cpp prints it. A stream is the list of what is written on it: a piece is a literal of the
-- generator or a string that it computes, and the text of the file is the pieces in their order.
pub mod Sources
pub mod Files
pub mod Wire
pub mod Table
mod Tests
use ctrlr_fx.Prelude.{Bool, true, false, if◌then◌else◌, List, [], ◌∷◌, ◌++◌, ◌||◌}
use Prim.Native.Char.{Char}
use Prim.Native.String.{String, ◌++◌ as join}
use text.Mathlib.Text.{◌==◌}

pub data Dir : Type 0 where
  dir_in : Dir
  dir_out : Dir
  dir_inout : Dir

pub record Param : Type 0 where
  pub dir : Dir
  pub type : String
  pub name : String

pub record Func : Type 0 where
  pub type : String
  pub name : String
  pub params : List Param

pub record Iface : Type 0 where
  pub name : String
  pub funcs : List Func

pub data Piece : Type 0 where
  lit : String → Piece
  word : String → Piece

-- `primList`, less the null pointer at its end.
abbrev prim_list : List String
prim_list =
    "char" ∷ "byte" ∷ "int8" ∷ "int8_t" ∷ "uint8" ∷ "uint8_t" ∷ "short" ∷ "int16" ∷ "int16_t"
    ∷ "uint16" ∷ "uint16_t" ∷ "int" ∷ "int32" ∷ "int32_t" ∷ "uint32" ∷ "uint32_t" ∷ "long" ∷ "int64"
    ∷ "int64_t" ∷ "uint64" ∷ "uint64_t" ∷ "float" ∷ "double" ∷ []

occurs : String → List String → Bool
occurs type [] = false
occurs type (prim ∷ prims) = type == prim || occurs type prims

unfoldable pub is_primitive : String → Bool
unfolding occurs
is_primitive type = occurs type prim_list

-- `Value::err_val`: what a stub returns when its call fails.
unfoldable pub err_val : String → String
unfolding is_primitive
err_val type =
    if type == "void"
    then ""
    else if type == "bool"
    then "false"
    else join type (if is_primitive type then "(0)" else "()")

-- A parameter as a declaration of C++ writes it, and their list.
abbrev pub is_dir : Dir → Dir → Bool
is_dir dir_in dir_in = true
is_dir dir_out dir_out = true
is_dir dir_inout dir_inout = true
is_dir _ _ = false

unfoldable pub write_param : Param → List Piece
unfolding is_primitive
write_param p =
    if is_dir p.dir dir_in
    then (if is_primitive p.type
        then word p.type ∷ lit " " ∷ word p.name ∷ []
        else lit "const " ∷ word p.type ∷ lit "& " ∷ word p.name ∷ [])
    else word p.type ∷ lit "* " ∷ word p.name ∷ []

unfoldable pub write_params : List Param → List Piece
unfolding write_param
write_params [] = []
write_params (p ∷ []) = write_param p
write_params (p ∷ q ∷ ps) = write_param p ++ lit ", " ∷ write_params (q ∷ ps)

-- The printing of a function, and `write_decl` of a method of a class.
unfoldable pub write_func : Func → List Piece
unfolding write_params
write_func f =
    lit "virtual " ∷ word f.type ∷ lit " " ∷ word f.name ∷ lit "(" ∷ write_params f.params
    ++ lit ")" ∷ []

unfoldable pub write_decl : Func → String → List Piece
unfolding write_func
write_decl f class_name =
    if class_name == ""
    then write_func f
    else word f.type
        ∷ lit " "
        ∷ word class_name
        ∷ lit "::"
        ∷ word f.name
        ∷ lit "("
        ∷ write_params f.params
      ++ lit ")" ∷ []

map_chars : (Char → Char) → String → String
map_chars f String.[] = ""
map_chars f (String.◌∷◌ c s) = String.◌∷◌ (f c) (map_chars f s)

-- The names made of a function's name; `toupper` is the C library's.
unfoldable pub cmd_const_name : (Char → Char) → Func → String
unfolding map_chars
cmd_const_name toupper f = join (map_chars toupper f.name) "_CMD"

abbrev pub cmd_func_name : Func → String
cmd_func_name f = join f.name "_cmd"

-- `iface_name`, and the macro that guards a header.
abbrev pub iface_name : Iface → String
iface_name i = join "I" i.name

replace_dots : String → String
replace_dots String.[] = ""
replace_dots (String.◌∷◌ c s) =
    let rest = replace_dots s in if String.◌∷◌ c "" == "." then join "_" rest else String.◌∷◌ c rest

unfoldable pub guard_name : String → String
unfolding replace_dots
guard_name filename = replace_dots (join "__" filename)
