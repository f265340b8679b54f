-- ===== src/InterfaceGen/Types.antt =====
-- cyclonedds/src/interface_gen.rs: how the types of fields are written in IDL and .msg, with the
-- references that dds_derive/src/lib.rs generates for structs.
pub mod Decimals
pub mod Parser
pub mod Parsing
mod Examples
use cyclonedds_rs.Common.{
  codes, Text, ℕ, zero, suc, ◌+◌, ◌/◌, ◌%◌, List, [], ◌∷◌, ◌++◌, ltb, if◌then◌else◌,
}
use cyclonedds_rs.Derive.Names.{escape_idl_identifier}
use cyclonedds_rs.InterfaceGen.Namespaces.{NsMode, idl_type_ref}

pub data Primitive : Type 0 where
  boolean : Primitive
  u8 : Primitive
  i8 : Primitive
  i16 : Primitive
  u16 : Primitive
  i32 : Primitive
  u32 : Primitive
  i64 : Primitive
  u64 : Primitive
  f32 : Primitive
  f64 : Primitive
  string : Primitive

-- `impl_interface_ref_primitive!`.
unfoldable pub primitive_idl : Primitive → Text
primitive_idl boolean = codes "boolean"
primitive_idl u8 = codes "octet"
primitive_idl i8 = codes "int8"
primitive_idl i16 = codes "short"
primitive_idl u16 = codes "unsigned short"
primitive_idl i32 = codes "long"
primitive_idl u32 = codes "unsigned long"
primitive_idl i64 = codes "long long"
primitive_idl u64 = codes "unsigned long long"
primitive_idl f32 = codes "float"
primitive_idl f64 = codes "double"
primitive_idl string = codes "string"

unfoldable pub primitive_msg : Primitive → Text
primitive_msg boolean = codes "bool"
primitive_msg u8 = codes "uint8"
primitive_msg i8 = codes "int8"
primitive_msg i16 = codes "int16"
primitive_msg u16 = codes "uint16"
primitive_msg i32 = codes "int32"
primitive_msg u32 = codes "uint32"
primitive_msg i64 = codes "int64"
primitive_msg u64 = codes "uint64"
primitive_msg f32 = codes "float32"
primitive_msg f64 = codes "float64"
primitive_msg string = codes "string"

-- The types that implement `InterfaceElem`: a struct is its package and its name.
pub data ElemType : Type 0 where
  primitive_elem : Primitive → ElemType
  struct_elem : Text → Text → ElemType

-- The types that implement `InterfaceRef`. The length of an array is one more than the number, since
-- a length of 0 is refused when the code is compiled.
pub data RefType : Type 0 where
  elem : ElemType → RefType
  vec_of : ElemType → RefType
  array_of : ElemType → ℕ → RefType

unfoldable pub elem_idl : NsMode → ElemType → Text
elem_idl mode (primitive_elem p) = primitive_idl p
elem_idl mode (struct_elem pkg name) = idl_type_ref mode (escape_idl_identifier pkg) name

unfoldable pub elem_msg : ElemType → Text
elem_msg (primitive_elem p) = primitive_msg p
elem_msg (struct_elem pkg name) = pkg ++ (codes "/" ++ name)

-- A number as decimal digits, on fuel.
unfoldable pub digits : ℕ → ℕ → Text
digits zero n = []
digits (suc fuel) n =
    let rest = digits fuel (n / 10) in
    if ltb n 10 then (b'0' + n) ∷ [] else rest ++ ((b'0' + n % 10) ∷ [])

-- `Display` of a `usize`.
unfoldable pub decimal : ℕ → Text
decimal n = digits (suc n) n

unfoldable pub idl_ref_of : NsMode → RefType → Text
idl_ref_of mode (elem t) = elem_idl mode t
idl_ref_of mode (vec_of t) = codes "sequence<" ++ (elem_idl mode t ++ codes ">")
idl_ref_of mode (array_of t n) = elem_idl mode t

unfoldable pub msg_ref_of : RefType → Text
msg_ref_of (elem t) = elem_msg t
msg_ref_of (vec_of t) = elem_msg t ++ codes "[]"
msg_ref_of (array_of t n) = elem_msg t ++ (codes "[" ++ (decimal (suc n) ++ codes "]"))

unfoldable pub idl_field_of : NsMode → RefType → Text → Text
idl_field_of mode (elem t) name = elem_idl mode t ++ (codes " " ++ (name ++ codes ";"))
idl_field_of mode (vec_of t) name = idl_ref_of mode (vec_of t) ++ (codes " " ++ (name ++ codes ";"))
idl_field_of mode (array_of t n) name =
    elem_idl mode t ++ (codes " " ++ (name ++ (codes "[" ++ (decimal (suc n) ++ codes "];"))))
