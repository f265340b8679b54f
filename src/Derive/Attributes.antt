-- ===== src/Derive/Attributes.antt =====
-- dds_derive/src/lib.rs: `parse_cdds_attrs`, and what the two macros make of it.
pub mod Given
pub mod Reading
pub mod Laws
use cyclonedds_rs.Common.{
  codes, Text, List, [], ◌∷◌, ◌++◌, Bool, true, false, Option, none, some, if◌then◌else◌, bytes_eq,
  Checked, accepted, rejected, on_accepted,
}
use cyclonedds_rs.Derive.Names.{NameError, validate_ros_package_name}
use cyclonedds_rs.Derive.Syntax.{
  SynPath, SynExpr, lit_str, other_expr, Meta, path_meta, list_meta, name_value, ArgInput,
  AttributeMeta, meta_list, other_meta, Attribute, ItemStruct,
}

-- The compile errors of the macros, and the panics in them.
pub data DeriveError : Type 0 where
  generics_unsupported : Text → DeriveError
  reserved_struct_name : Text → Text → DeriveError
  tuple_field_key : DeriveError
  unportable_int_key : DeriveError
  key_enum_not_single_path : DeriveError
  generic_key : DeriveError
  array_of_non_primitives : DeriveError
  unsupported_element : DeriveError
  unsupported_key : DeriveError
  syntax_error : DeriveError
  attribute_not_a_list : DeriveError
  duplicate_attribute_key : Text → DeriveError
  unknown_attribute_key : DeriveError
  typename_removed : DeriveError
  not_a_string : Text → DeriveError
  package_missing : DeriveError
  bad_package_name : Text → NameError → DeriveError
  bad_type_name : Bool → Text → NameError → DeriveError
  bad_field_name : Text → NameError → DeriveError
  not_named_fields : DeriveError
  empty_struct : DeriveError
  zero_length_array : DeriveError
  panicked : DeriveError

abbrev pub option_is : Option Text → Text → Bool
option_is none name = false
option_is (some ident) name = bytes_eq ident name

-- `Path::is_ident`, and the test of `get_ident` by `==`.
unfoldable pub is_ident : SynPath → Text → Bool
is_ident path name = option_is path.get_ident name

pub record CddsAttrs : Type 0 where
  pub fixed_size : Bool
  pub pkg : Option Text
  pub name : Option Text

abbrev pub no_attrs : CddsAttrs
no_attrs = record { fixed_size = false; pkg = none; name = none }

abbrev pub fixed_size_key : Text
fixed_size_key = codes "fixed_size"

abbrev pub package_key : Text
package_key = codes "package"

abbrev pub name_key : Text
name_key = codes "name"

abbrev pub typename_key : Text
typename_key = codes "typename"

abbrev pub topic_derive : Text
topic_derive = codes "Topic"

abbrev pub dds_interface_derive : Text
dds_interface_derive = codes "DdsInterface"

-- `CddsArg::parse`.
unfoldable pub parse_arg : ArgInput → Checked DeriveError Meta
parse_arg input =
    if input.starts_with_path
    then elim input.parsed [ none ↦ rejected syntax_error | some meta ↦ accepted meta ]
    else rejected unknown_attribute_key

-- The arguments of one attribute, parsed in order.
unfoldable pub parse_args : List ArgInput → Checked DeriveError (List Meta)
parse_args [] = accepted []
parse_args (input ∷ inputs) =
    on_accepted (parse_arg input)
      (λ meta. on_accepted (parse_args inputs) (λ metas. accepted (meta ∷ metas)))

unfoldable pub expect_cdds_lit_str : SynExpr → Text → Checked DeriveError Text
expect_cdds_lit_str (lit_str text) key = accepted text
expect_cdds_lit_str other_expr key = rejected (not_a_string key)

-- A string under a key that may stand once.
unfoldable pub read_once : Option Text → SynExpr → Text → Checked DeriveError Text
read_once (some text) value key = rejected (duplicate_attribute_key key)
read_once none value key = expect_cdds_lit_str value key

unfoldable pub read_meta : CddsAttrs → Meta → Checked DeriveError CddsAttrs
read_meta attrs (path_meta path) =
    if is_ident path fixed_size_key
    then (if attrs.fixed_size
        then rejected (duplicate_attribute_key fixed_size_key)
        else accepted (record { fixed_size = true; pkg = attrs.pkg; name = attrs.name }))
    else rejected unknown_attribute_key
read_meta attrs (name_value path value) =
    if is_ident path package_key
    then on_accepted (read_once attrs.pkg value package_key) (λ text.
      accepted (record { fixed_size = attrs.fixed_size; pkg = some text; name = attrs.name }))
    else if is_ident path name_key
    then on_accepted (read_once attrs.name value name_key) (λ text.
      accepted (record { fixed_size = attrs.fixed_size; pkg = attrs.pkg; name = some text }))
    else if is_ident path typename_key
    then rejected typename_removed
    else rejected unknown_attribute_key
read_meta attrs (list_meta path) = rejected unknown_attribute_key

-- The loop over the arguments of one attribute.
unfoldable pub read_metas : CddsAttrs → List Meta → Checked DeriveError CddsAttrs
read_metas attrs [] = accepted attrs
read_metas attrs (meta ∷ metas) =
    on_accepted (read_meta attrs meta) (λ attrs'. read_metas attrs' metas)

unfoldable pub read_attribute_meta : CddsAttrs → AttributeMeta → Checked DeriveError CddsAttrs
read_attribute_meta attrs (meta_list inputs) =
    on_accepted (parse_args inputs) (λ metas. read_metas attrs metas)
read_attribute_meta attrs other_meta = rejected attribute_not_a_list

unfoldable pub read_attribute : CddsAttrs → Attribute → Checked DeriveError CddsAttrs
read_attribute attrs attribute =
    if is_ident attribute.path (codes "cdds")
    then read_attribute_meta attrs attribute.meta
    else accepted attrs

-- The loop over the attributes.
unfoldable pub read_attributes : CddsAttrs → List Attribute → Checked DeriveError CddsAttrs
read_attributes attrs [] = accepted attrs
read_attributes attrs (attribute ∷ attributes) =
    on_accepted (read_attribute attrs attribute) (λ attrs'. read_attributes attrs' attributes)

unfoldable pub parse_cdds_attrs : List Attribute → Checked DeriveError CddsAttrs
parse_cdds_attrs attributes = read_attributes no_attrs attributes

abbrev pub unwrap_or : Option Text → Text → Text
unwrap_or none text = text
unwrap_or (some name) text = name

unfoldable pub qualified : Text → Text → Text
qualified pkg name = pkg ++ (codes "/" ++ name)

-- `Container`: whether the type is of a fixed size, and its wire name if it has one.
pub record Container : Type 0 where
  pub fixed_size : Bool
  pub typename : Option Text

unfoldable pub typename_of : ItemStruct → CddsAttrs → Option Text
typename_of item attrs = elim (attrs.pkg) [
  | none ↦ none
  | some pkg ↦ some (qualified pkg (unwrap_or attrs.name item.ident.unraw))
]

unfoldable pub parse_container : ItemStruct → Checked DeriveError Container
parse_container item = on_accepted (parse_cdds_attrs item.attrs) (λ attrs.
    accepted (record { fixed_size = attrs.fixed_size; typename = typename_of item attrs }))

-- `DdsInterfaceContainer`.
pub record InterfaceContainer : Type 0 where
  pub pkg : Text
  pub name : Option Text

abbrev pub named_package :
    Text → Checked NameError (Unit {0}) → Option Text → Checked DeriveError InterfaceContainer
named_package pkg (accepted checked) name = accepted (record { pkg = pkg; name = name })
named_package pkg (rejected reason) name = rejected (bad_package_name pkg reason)

unfoldable pub container_of : Option Text → Option Text → Checked DeriveError InterfaceContainer
container_of none name = rejected package_missing
container_of (some pkg) name = named_package pkg (validate_ros_package_name pkg) name

unfoldable pub parse_interface_container : ItemStruct → Checked DeriveError InterfaceContainer
parse_interface_container item =
    on_accepted (parse_cdds_attrs item.attrs) (λ attrs. container_of attrs.pkg attrs.name)
