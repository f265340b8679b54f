-- ===== src/InterfaceGen/Types/Parser.antt =====
-- A parser of the .msg references that cyclonedds/src/interface_gen.rs writes; it knows their form only.
use cyclonedds_rs.Common.{
  codes, Text, ℕ, ◌-◌, [], ◌∷◌, Option, none, some, ◌==◌, if◌then◌else◌, bytes_eq,
}
use cyclonedds_rs.InterfaceGen.Types.{
  Primitive, boolean, u8, i8, i16, u16, i32, u32, i64, u64, f32, f64, string, ElemType,
  primitive_elem, struct_elem, RefType, elem, vec_of, array_of,
}
use cyclonedds_rs.InterfaceGen.Types.Decimals.{value_from}

-- The text before a character, and that from it on.
unfoldable pub until : ℕ → Text → Text × Text
until c [] = ([], [])
until c (d ∷ text) =
    let rest = until c text in if c == d then ([], d ∷ text) else (d ∷ rest.0, rest.1)

unfoldable pub primitive_of : Text → Option Primitive
primitive_of text =
    if bytes_eq text (codes "bool")
    then some boolean
    else if bytes_eq text (codes "uint8")
    then some u8
    else if bytes_eq text (codes "int8")
    then some i8
    else if bytes_eq text (codes "int16")
    then some i16
    else if bytes_eq text (codes "uint16")
    then some u16
    else if bytes_eq text (codes "int32")
    then some i32
    else if bytes_eq text (codes "uint32")
    then some u32
    else if bytes_eq text (codes "int64")
    then some i64
    else if bytes_eq text (codes "uint64")
    then some u64
    else if bytes_eq text (codes "float32")
    then some f32
    else if bytes_eq text (codes "float64")
    then some f64
    else if bytes_eq text (codes "string")
    then some string
    else none

unfoldable pub struct_of : Text × Text → Option ElemType
struct_of (pkg, []) = none
struct_of (pkg, c ∷ name) = some (struct_elem pkg name)

abbrev pub elem_or : Option Primitive → Text → Option ElemType
elem_or none text = struct_of (until b'/' text)
elem_or (some p) text = some (primitive_elem p)

unfoldable pub parse_elem : Text → Option ElemType
parse_elem text = elem_or (primitive_of text) text

unfoldable pub parse_suffix : ElemType → Text → RefType
parse_suffix t [] = elem t
parse_suffix t (c ∷ text) =
    if bytes_eq text (codes "]")
    then vec_of t
    else array_of t (value_from 0 (until b']' text).0 - 1)

abbrev pub with_suffix : Option ElemType → Text → Option RefType
with_suffix none text = none
with_suffix (some t) text = some (parse_suffix t text)

unfoldable pub parse_msg_ref : Text → Option RefType
parse_msg_ref text = with_suffix (parse_elem (until b'[' text).0) (until b'[' text).1
