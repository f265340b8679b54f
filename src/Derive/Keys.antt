-- ===== src/Derive/Keys.antt =====
-- dds_derive/src/lib.rs: which fields are keys, which types a key may have, and the struct that
-- holds the keys.
pub mod Types
pub mod Rounds
pub mod Holders
use cyclonedds_rs.Common.{
  codes, Text, List, [], ◌∷◌, ◌++◌, Bool, true, false, ◌&&◌, ◌||◌, not, Option, none, some,
  if◌then◌else◌, bytes_eq, is_among, Checked, accepted, rejected, on_accepted,
}
use cyclonedds_rs.Derive.Syntax.{
  Ident, PathSegment, SynPath, SynType, path_type, array_type, other_type, Attribute, Field, Fields,
  named_fields, other_fields, ItemStruct,
}
use cyclonedds_rs.Derive.Attributes.{
  DeriveError, tuple_field_key, unportable_int_key, key_enum_not_single_path, generic_key,
  array_of_non_primitives, unsupported_element, unsupported_key, panicked, is_ident,
}

abbrev pub topic_key : Text
topic_key = codes "topic_key"

abbrev pub topic_key_enum : Text
topic_key_enum = codes "topic_key_enum"

unfoldable pub is_key_attr : List Attribute → Bool
is_key_attr [] = false
is_key_attr (attr ∷ attrs) =
    if is_ident attr.path topic_key || is_ident attr.path topic_key_enum
    then true
    else is_key_attr attrs

unfoldable pub is_key : Field → Bool
is_key field = is_key_attr field.attrs

unfoldable pub is_enum_attr : List Attribute → Bool
is_enum_attr [] = false
is_enum_attr (attr ∷ attrs) = if is_ident attr.path topic_key_enum then true else is_enum_attr attrs

unfoldable pub is_key_enum : Field → Bool
is_key_enum field = is_enum_attr field.attrs

-- The name alone, or after `std` or `alloc` and a module.
unfoldable pub std_segments : List PathSegment → PathSegment → Text → Text → Bool
std_segments [] single modul name = bytes_eq single.name name
std_segments (krate ∷ module_segment ∷ []) name_segment modul name =
    (bytes_eq krate.name (codes "std") || bytes_eq krate.name (codes "alloc"))
    && (bytes_eq module_segment.name modul && bytes_eq name_segment.name name)
std_segments segments last modul name = false

unfoldable pub is_std_path : SynPath → Text → Text → Bool
is_std_path path modul name = std_segments path.first_segments path.last_segment modul name

-- `is_ident` of one of several names.
unfoldable pub is_ident_among : SynPath → List Text → Bool
is_ident_among path [] = false
is_ident_among path (name ∷ names) = is_ident path name || is_ident_among path names

unfoldable pub is_string_path : SynPath → Bool
is_string_path path = is_std_path path (codes "string") (codes "String")

abbrev pub primitive_names : List Text
primitive_names =
    codes "bool"
    ∷ codes "i8"
    ∷ codes "i16"
    ∷ codes "i32"
    ∷ codes "i64"
    ∷ codes "i128"
    ∷ codes "isize"
    ∷ codes "u8"
    ∷ codes "u16"
    ∷ codes "u32"
    ∷ codes "u64"
    ∷ codes "u128"
    ∷ codes "usize"
    ∷ codes "f32"
    ∷ codes "f64"
    ∷ []

unfoldable pub is_primitive_type_path : SynPath → Bool
is_primitive_type_path path = is_ident_among path primitive_names || is_string_path path

abbrev pub unportable_names : List Text
unportable_names = codes "usize" ∷ codes "isize" ∷ codes "u128" ∷ codes "i128" ∷ []

unfoldable pub is_unportable_int_path : SynPath → Bool
is_unportable_int_path path = is_ident_among path unportable_names

unfoldable pub is_primitive : SynType → Bool
is_primitive (path_type path) = is_primitive_type_path path
is_primitive (array_type elem len) = false
is_primitive other_type = false

unfoldable pub is_variable_length : SynType → Bool
is_variable_length (path_type path) =
    is_std_path path (codes "vec") (codes "Vec") || is_string_path path
is_variable_length (array_type elem len) = false
is_variable_length other_type = false

-- The checks for an integer whose width depends on the platform, alone and in an array.
unfoldable pub is_unportable : SynType → Bool
is_unportable (path_type path) = is_unportable_int_path path
is_unportable (array_type (path_type path) len) = is_unportable_int_path path
is_unportable (array_type (array_type elem len') len) = false
is_unportable (array_type other_type len) = false
is_unportable other_type = false

abbrev pub fine : Checked DeriveError (Unit {0})
fine = accepted tt

unfoldable pub validate_enum_type : SynType → Checked DeriveError (Unit {0})
validate_enum_type (path_type path) =
    if path.last_segment.has_arguments then rejected key_enum_not_single_path else fine
validate_enum_type (array_type elem len) = rejected key_enum_not_single_path
validate_enum_type other_type = rejected key_enum_not_single_path

unfoldable pub validate_shape : SynType → Checked DeriveError (Unit {0})
validate_shape (path_type path) =
    if path.last_segment.has_arguments then rejected generic_key else fine
validate_shape (array_type (path_type path) len) =
    if is_primitive_type_path path then fine else rejected array_of_non_primitives
validate_shape (array_type (array_type elem len') len) = rejected unsupported_element
validate_shape (array_type other_type len) = rejected unsupported_element
validate_shape other_type = rejected unsupported_key

unfoldable pub validate_key_type : Bool → SynType → Checked DeriveError (Unit {0})
validate_key_type key_enum ty =
    if is_unportable ty
    then rejected unportable_int_key
    else if is_primitive ty
    then fine
    else if key_enum
    then validate_enum_type ty
    else validate_shape ty

unfoldable pub validate_key_field_type : Field → Checked DeriveError (Unit {0})
validate_key_field_type field = elim field.ident [
  | none ↦ rejected tuple_field_key
  | some ident ↦ validate_key_type (is_key_enum field) field.ty
]

-- A field of the key holder: its name and type, and whether the source's value is cloned or
-- converted into the key holder of its type.
pub record HolderField : Type 0 where
  pub ident : Ident
  pub ty : SynType
  pub converted : Bool

pub record KeyHolder : Type 0 where
  pub holder_fields : List HolderField
  pub contained_types : List SynPath
  pub variable_length : Bool

abbrev pub empty_holder : KeyHolder
empty_holder = record { holder_fields = []; contained_types = []; variable_length = false }

unfoldable pub key_holder_name : Text → Text
key_holder_name name = name ++ codes "KeyHolder_"

-- The path of the key holder of a struct. The new name is not the one of a primitive: what
-- `get_ident` returns is a new name too.
unfoldable pub holder_path : SynPath → SynPath
holder_path path = record {
  get_ident = elim path.get_ident [ none ↦ none | some name ↦ some (key_holder_name name) ];
  first_segments = path.first_segments;
  last_segment = record {
    name = key_holder_name path.last_segment.name;
    has_arguments = path.last_segment.has_arguments;
  };
}

unfoldable pub is_string_element : SynType → Bool
is_string_element (path_type path) = is_string_path path
is_string_element (array_type elem len) = false
is_string_element other_type = false

unfoldable pub push_field : KeyHolder → Ident → SynType → Bool → KeyHolder
push_field holder ident ty variable = record {
  holder_fields =
      holder.holder_fields ++ (record { ident = ident; ty = ty; converted = false } ∷ []);
  contained_types = holder.contained_types;
  variable_length = holder.variable_length || variable;
}

unfoldable pub push_struct : KeyHolder → Ident → SynPath → KeyHolder
push_struct holder ident path = record {
  holder_fields =
      holder.holder_fields
      ++ (record { ident = ident; ty = path_type (holder_path path); converted = true } ∷ []);
  contained_types = holder.contained_types ++ (holder_path path ∷ []);
  variable_length = holder.variable_length;
}

-- A key that is neither a primitive nor an enum; the check before refuses all but paths and arrays.
unfoldable pub push_by_type : KeyHolder → Ident → SynType → Checked DeriveError KeyHolder
push_by_type holder ident (path_type path) = accepted (push_struct holder ident path)
push_by_type holder ident (array_type elem len) =
    accepted (push_field holder ident (array_type elem len) (is_string_element elem))
push_by_type holder ident other_type = rejected panicked

unfoldable pub push_key : KeyHolder → Field → Checked DeriveError KeyHolder
push_key holder field = elim field.ident [
  | none ↦ rejected panicked
  | some ident ↦
      if is_primitive field.ty || is_key_enum field
      then accepted (push_field holder ident field.ty (is_variable_length field.ty))
      else push_by_type holder ident field.ty
]

-- One round of the loop over the fields.
unfoldable pub add_field : KeyHolder → Field → Checked DeriveError KeyHolder
add_field holder field =
    if is_key field
    then on_accepted (validate_key_field_type field) (λ checked. push_key holder field)
    else accepted holder

unfoldable pub build_fields : KeyHolder → List Field → Checked DeriveError KeyHolder
build_fields holder [] = accepted holder
build_fields holder (field ∷ fields) =
    on_accepted (add_field holder field) (λ holder'. build_fields holder' fields)

abbrev pub all_fields : Fields → List Field
all_fields (named_fields fields) = fields
all_fields (other_fields fields) = fields

unfoldable pub build_key_holder_struct : ItemStruct → Checked DeriveError KeyHolder
build_key_holder_struct item = build_fields empty_holder (all_fields item.fields)

unfoldable pub any_path : (SynPath → Bool) → List SynPath → Bool
any_path test [] = false
any_path test (path ∷ paths) = test path || any_path test paths

-- The generated `is_variable_length`: the contained key holders are asked in turn.
unfoldable pub holder_is_variable_length : (SynPath → Bool) → KeyHolder → Bool
holder_is_variable_length is_variable holder =
    holder.variable_length || any_path is_variable holder.contained_types
