-- ===== src/Derive/Interface.antt =====
-- dds_derive/src/lib.rs: the expansion of `DdsInterface`.
pub mod WireFields
pub mod Laws
pub mod Braces
pub mod Resolved
use cyclonedds_rs.Common.{
  codes, Text, ℕ, List, [], ◌∷◌, ◌++◌, Bool, true, false, Option, none, some, ◌==◌, if◌then◌else◌,
  Checked, accepted, rejected, on_accepted, map,
}
use cyclonedds_rs.Derive.Names.{
  NameError, validate_msg_field_name, validate_ros_type_name, escape_idl_identifier,
}
use cyclonedds_rs.Derive.Syntax.{
  Ident, LengthExpr, int_literal, other_length, SynType, path_type, array_type, other_type, Field,
  Fields, named_fields, other_fields, ItemStruct,
}
use cyclonedds_rs.Derive.Attributes.{
  DeriveError, bad_type_name, bad_field_name, not_named_fields, empty_struct, zero_length_array,
  panicked, unwrap_or, qualified, dds_interface_derive, InterfaceContainer,
  parse_interface_container,
}
use cyclonedds_rs.Derive.Keys.{fine, is_key, validate_key_field_type}
use cyclonedds_rs.Derive.Expansion.{
  dds_interface_reserved_idents, check_no_generics, check_reserved_collision,
}
use cyclonedds_rs.InterfaceGen.Namespaces.{
  NsMode, idl_module_open, idl_module_close, idl_type_name, idl_type_ref,
}

abbrev pub is_explicit : Option Text → Bool
is_explicit none = false
is_explicit (some name) = true

abbrev pub type_name_result :
    Bool → Text → Checked NameError (Unit {0}) → Checked DeriveError (Unit {0})
type_name_result explicit name (accepted checked) = fine
type_name_result explicit name (rejected reason) = rejected (bad_type_name explicit name reason)

unfoldable pub check_type_name : Bool → Text → Checked DeriveError (Unit {0})
check_type_name explicit name = type_name_result explicit name (validate_ros_type_name name)

abbrev pub field_name_result : Text → Checked NameError (Unit {0}) → Checked DeriveError (Unit {0})
field_name_result name (accepted checked) = fine
field_name_result name (rejected reason) = rejected (bad_field_name name reason)

unfoldable pub check_field_name : Field → Checked DeriveError (Unit {0})
check_field_name field = elim field.ident [
  | none ↦ rejected panicked
  | some ident ↦ field_name_result ident.unraw (validate_msg_field_name ident.unraw)
]

abbrev pub is_zero_literal : LengthExpr → Bool
is_zero_literal (int_literal none) = false
is_zero_literal (int_literal (some value)) = value == 0
is_zero_literal other_length = false

-- An array `[T; 0]` whose length is a literal.
unfoldable pub has_no_elements : SynType → Bool
has_no_elements (array_type elem len) = is_zero_literal len
has_no_elements (path_type path) = false
has_no_elements other_type = false

unfoldable pub check_length : Field → Checked DeriveError (Unit {0})
check_length field = if has_no_elements field.ty then rejected zero_length_array else fine

unfoldable pub check_key : Field → Checked DeriveError (Unit {0})
check_key field = if is_key field then validate_key_field_type field else fine

-- A loop over the fields that stops at the first error.
unfoldable pub check_each :
    (Field → Checked DeriveError (Unit {0})) → List Field → Checked DeriveError (Unit {0})
check_each check [] = fine
check_each check (field ∷ fields) = on_accepted (check field) (λ checked. check_each check fields)

abbrev pub non_empty_fields : List Field → Checked DeriveError (List Field)
non_empty_fields [] = rejected empty_struct
non_empty_fields (field ∷ fields) = accepted (field ∷ fields)

-- The named fields of the struct, of which there must be one.
unfoldable pub require_named_fields : Fields → Checked DeriveError (List Field)
require_named_fields (named_fields fields) = non_empty_fields fields
require_named_fields (other_fields fields) = rejected not_named_fields

-- What the generated code says of a field.
pub record FieldCode : Type 0 where
  pub key : Bool
  pub name : Text
  pub ty : SynType

-- The loop over the names has found that no field lacks one.
abbrev pub field_name : Option Ident → Text
field_name none = []
field_name (some ident) = ident.unraw

unfoldable pub field_code : Field → FieldCode
field_code field = record { key = is_key field; name = field_name field.ident; ty = field.ty }

pub record InterfaceCode : Type 0 where
  pub escaped_package : Text
  pub pkg : Text
  pub struct_name : Text
  pub fields : List FieldCode

unfoldable pub interface_code : Text → Text → List Field → InterfaceCode
interface_code pkg struct_name fields = record {
  escaped_package = escape_idl_identifier pkg;
  pkg = pkg;
  struct_name = struct_name;
  fields = map field_code fields;
}

-- The checks of the fields, one loop after the other.
unfoldable pub check_fields : List Field → Checked DeriveError (Unit {0})
check_fields fields =
    on_accepted (check_each check_field_name fields)
      (λ named. on_accepted (check_each check_length fields) (λ sized. check_each check_key fields))

unfoldable pub derive_dds_interface_impl : ItemStruct → Checked DeriveError InterfaceCode
derive_dds_interface_impl item = on_accepted (check_no_generics dds_interface_derive item) (λ plain.
    on_accepted (check_reserved_collision dds_interface_derive item dds_interface_reserved_idents)
      (λ free. on_accepted (parse_interface_container item) (λ container.
        on_accepted (require_named_fields item.fields) (λ fields.
          let struct_name = unwrap_or container.name item.ident.unraw in
          on_accepted (check_type_name (is_explicit container.name) struct_name) (λ typed.
            on_accepted (check_fields fields)
              (λ checked. accepted (interface_code container.pkg struct_name fields)))))))

-- The generated functions. What the types of the fields say of themselves is a parameter.
unfoldable pub idl_ref : InterfaceCode → NsMode → Text
idl_ref code mode = idl_type_ref mode code.escaped_package code.struct_name

unfoldable pub msg_ref : InterfaceCode → Text
msg_ref code = qualified code.pkg code.struct_name

abbrev pub key_prefix : Bool → Text
key_prefix true = codes "@key "
key_prefix false = []

abbrev pub line_end : Text
line_end = 10 ∷ []

unfoldable pub idl_fields : (SynType → Text → Text) → List FieldCode → Text
idl_fields idl_field [] = []
idl_fields idl_field (field ∷ fields) =
    codes "  "
    ++ (key_prefix field.key
        ++ (idl_field field.ty field.name ++ (line_end ++ idl_fields idl_field fields)))

-- What is pushed between the opening and the closing of the modules.
unfoldable pub idl_body : (SynType → Text → Text) → InterfaceCode → NsMode → Text
idl_body idl_field code mode =
    codes "struct "
    ++ (idl_type_name mode code.struct_name
        ++ (codes " {"
            ++ (line_end ++ (idl_fields idl_field code.fields ++ (codes "};" ++ line_end)))))

unfoldable pub idl_def : (NsMode → SynType → Text → Text) → InterfaceCode → NsMode → Text
idl_def idl_field code mode =
    idl_module_open mode code.escaped_package
    ++ (idl_body (idl_field mode) code mode ++ idl_module_close mode)

unfoldable pub msg_def : (SynType → Text) → List FieldCode → Text
msg_def type_ref [] = []
msg_def type_ref (field ∷ fields) =
    type_ref field.ty ++ (codes " " ++ (field.name ++ (line_end ++ msg_def type_ref fields)))
