-- ===== src/Derive/Examples.antt =====
-- The macros of dds_derive/src/lib.rs at a struct with two keys.
use cyclonedds_rs.Common.{
  codes, Text, ℕ, [], ◌∷◌, true, false, ◌&&◌, not, ◌≡◌, ◌↔◌, ◌+◌, ◌⊎◌, inl, inr, refl, none, some,
  accepted, length, bytes_eq, is_among,
}
use cyclonedds_rs.Derive.Keywords.{is_reserved_keyword}
use cyclonedds_rs.Derive.Names.{
  valid, check_letters, ends_with_underscore, validate_lower_snake_case, validate_msg_field_name,
  reject_reserved_keyword, escape_idl_identifier, validate_ros_package_name, check_alphanumeric,
  validate_ros_type_name,
}
use cyclonedds_rs.Derive.Names.Grammar.{IsLowerSnakeCase, IsUpperCamelCase}
use cyclonedds_rs.Derive.Syntax.{
  Ident, SynPath, int_literal, SynType, path_type, array_type, other_type, lit_str, name_value,
  ArgInput, meta_list, other_meta, Attribute, Field, named_fields, ItemStruct,
}
use cyclonedds_rs.Derive.Attributes.{
  CddsAttrs, is_ident, fixed_size_key, package_key, name_key, parse_arg, parse_args,
  expect_cdds_lit_str, read_once, read_meta, read_metas, read_attribute_meta, read_attribute,
  read_attributes, parse_cdds_attrs, qualified, typename_of, parse_container, container_of,
  parse_interface_container,
}
use cyclonedds_rs.Derive.Attributes.Given.{cdds_metas, values, flags, strings, flag_count}
use cyclonedds_rs.Derive.Attributes.Laws.{parse_cdds_attrs_lem}
use cyclonedds_rs.Derive.Keys.{
  fine, is_key_attr, is_key, is_enum_attr, is_key_enum, std_segments, is_std_path, is_ident_among,
  is_string_path, is_primitive_type_path, is_unportable_int_path, is_primitive, is_variable_length,
  is_unportable, validate_key_type, validate_key_field_type, KeyHolder, push_field, push_key,
  add_field, build_fields, all_fields, build_key_holder_struct,
}
use cyclonedds_rs.Derive.Keys.Types.{IsKeyType, validate_key_field_type_iff}
use cyclonedds_rs.Derive.Keys.Rounds.{key_idents, holder_idents, any_key_string}
use cyclonedds_rs.Derive.Keys.Holders.{build_key_holder_struct_lem}
use cyclonedds_rs.Derive.Expansion.{
  TopicCode, check_no_generics, check_reserved_collision, derive_topic_impl,
}
use cyclonedds_rs.Derive.Interface.{
  check_type_name, check_field_name, has_no_elements, check_length, check_key, check_each,
  require_named_fields, field_code, InterfaceCode, interface_code, check_fields,
  derive_dds_interface_impl, idl_def,
}
use cyclonedds_rs.Derive.Interface.WireFields.{AllFields}
use cyclonedds_rs.Derive.Interface.Laws.{derive_dds_interface_impl_lem}
use cyclonedds_rs.Derive.Interface.Braces.{HasNoBrace}
use cyclonedds_rs.Derive.Names.Grammar.{validate_lower_snake_case_iff}
use cyclonedds_rs.Derive.Interface.Resolved.{idl_def-Balances}
use cyclonedds_rs.InterfaceGen.Types.{
  RefType, elem, vec_of, array_of, primitive_elem, u8, u32, f64, idl_field_of,
}
use cyclonedds_rs.InterfaceGen.Types.Parsing.{IsNamedElem, elem_of}
use cyclonedds_rs.InterfaceGen.Namespaces.{NsMode, ros2idl, middle, type_suffix}
use cyclonedds_rs.InterfaceGen.Namespaces.Braces.{count}

abbrev ident_of : Text → Ident
ident_of text = record { text = text; unraw = text }

abbrev path_of : Text → SynPath
path_of text = record {
  get_ident = some text;
  first_segments = [];
  last_segment = record { name = text; has_arguments = false };
}

abbrev topic_key_attr : Attribute
topic_key_attr = record { path = path_of (codes "topic_key"); meta = other_meta }

abbrev id_field : Field
id_field = record {
  ident = some (ident_of (codes "id"));
  ty = path_type (path_of (codes "u32"));
  attrs = topic_key_attr ∷ [];
}

abbrev label_field : Field
label_field = record {
  ident = some (ident_of (codes "label"));
  ty = path_type (path_of (codes "String"));
  attrs = topic_key_attr ∷ [];
}

abbrev pose_field : Field
pose_field = record {
  ident = some (ident_of (codes "pose_xyz"));
  ty = array_type (path_type (path_of (codes "f64"))) (int_literal (some 3));
  attrs = [];
}

abbrev package_input : ArgInput
package_input = record {
  starts_with_path = true;
  parsed = some (name_value (path_of (codes "package")) (lit_str (codes "map")));
}

abbrev cdds_attr : Attribute
cdds_attr = record { path = path_of (codes "cdds"); meta = meta_list (package_input ∷ []) }

abbrev status_item : ItemStruct
status_item = record {
  ident = ident_of (codes "RobotStatus");
  has_generics = false;
  fields = named_fields (id_field ∷ label_field ∷ pose_field ∷ []);
  attrs = cdds_attr ∷ [];
}

abbrev status_code : InterfaceCode
status_code = record {
  escaped_package = codes "_map";
  pkg = codes "map";
  struct_name = codes "RobotStatus";
  fields =
      record { key = true; name = codes "id"; ty = id_field.ty }
      ∷ record { key = true; name = codes "label"; ty = label_field.ty }
      ∷ record { key = false; name = codes "pose_xyz"; ty = pose_field.ty }
      ∷ [];
}

abbrev map_attrs : CddsAttrs
map_attrs = record { fixed_size = false; pkg = some (codes "map"); name = none }

status_attrs : parse_cdds_attrs (cdds_attr ∷ []) ≡ accepted map_attrs
unfolding parse_cdds_attrs read_attributes read_attribute read_attribute_meta read_metas read_meta
    read_once expect_cdds_lit_str parse_args parse_arg is_ident bytes_eq
status_attrs = refl

status_derived : derive_dds_interface_impl status_item ≡ accepted status_code
unfolding derive_dds_interface_impl check_no_generics check_reserved_collision
    parse_interface_container parse_cdds_attrs read_attributes read_attribute read_attribute_meta
    read_metas read_meta read_once expect_cdds_lit_str parse_args parse_arg is_ident bytes_eq
    is_among container_of validate_ros_package_name validate_lower_snake_case check_letters
    ends_with_underscore require_named_fields check_type_name validate_ros_type_name
    check_alphanumeric check_fields check_each check_field_name validate_msg_field_name
    reject_reserved_keyword is_reserved_keyword check_length has_no_elements check_key is_key
    is_key_attr validate_key_field_type validate_key_type is_unportable is_unportable_int_path
    is_ident_among is_primitive is_primitive_type_path is_string_path is_std_path std_segments
    interface_code escape_idl_identifier field_code
status_derived = refl

parse_cdds_attrs_lem_example :
    (values package_key (cdds_metas (cdds_attr ∷ [])) ≡ strings (some (codes "map")))
    × (values name_key (cdds_metas (cdds_attr ∷ [])) ≡ strings none)
    × (flags fixed_size_key (cdds_metas (cdds_attr ∷ [])) ≡ flag_count false)
    × (length (cdds_metas (cdds_attr ∷ []))
        ≡ length (strings (some (codes "map"))) + length (strings none) + flag_count false)
parse_cdds_attrs_lem_example = parse_cdds_attrs_lem (cdds_attr ∷ []) map_attrs status_attrs

derive_dds_interface_impl_lem_example :
    IsLowerSnakeCase (codes "map")
    × (is_reserved_keyword (codes "_map") ≡ false)
    × IsUpperCamelCase (codes "RobotStatus")
    × AllFields status_code.fields
derive_dds_interface_impl_lem_example =
    derive_dds_interface_impl_lem status_item status_code status_derived

validate_key_field_type_iff_example : (validate_key_field_type id_field ≡ fine) ↔ (
    ((ident : Ident) × (id_field.ident ≡ some ident))
    × IsKeyType (is_key_enum id_field) id_field.ty)
validate_key_field_type_iff_example = validate_key_field_type_iff id_field

validate_lower_snake_case_iff_example :
    (validate_lower_snake_case (codes "pose_xyz") ≡ valid) ↔ IsLowerSnakeCase (codes "pose_xyz")
validate_lower_snake_case_iff_example = validate_lower_snake_case_iff (codes "pose_xyz")

-- The types of the fields, as the compiler resolves them.
abbrev resolved : SynType → RefType
resolved (path_type path) = elem (primitive_elem u32)
resolved (array_type ty len) = array_of (primitive_elem f64) 2
resolved other_type = vec_of (primitive_elem u8)

resolved_named : (ty : SynType) → IsNamedElem (elem_of (resolved ty))
resolved_named (path_type path) = tt
resolved_named (array_type ty len) = tt
resolved_named other_type = tt

abbrev status_field : NsMode → SynType → Text → Text
status_field mode ty name = idl_field_of mode (resolved ty) name

no_suffix : HasNoBrace []
unfolding count
no_suffix = record { opening = refl; closing = refl }

msg_without_brace : (b : ℕ) → (b ≡ 123) ⊎ (b ≡ 125) → count b (codes "msg") ≡ 0
unfolding count
msg_without_brace b (inl e) = rw (e) refl
msg_without_brace b (inr e) = rw (e) refl

idl_def-Balances_example :
    count 123 (idl_def status_field status_code ros2idl)
    ≡ count 125 (idl_def status_field status_code ros2idl)
unfolding middle type_suffix
idl_def-Balances_example =
    idl_def-Balances status_item status_code resolved ros2idl status_derived resolved_named
      (msg_without_brace 123 (inl refl)) (msg_without_brace 125 (inr refl)) no_suffix

abbrev status_holder : KeyHolder
status_holder = record {
  holder_fields =
      record { ident = ident_of (codes "id"); ty = id_field.ty; converted = false }
      ∷ record { ident = ident_of (codes "label"); ty = label_field.ty; converted = false }
      ∷ [];
  contained_types = [];
  variable_length = true;
}

status_built : build_key_holder_struct status_item ≡ accepted status_holder
unfolding build_key_holder_struct build_fields add_field is_key is_key_attr is_ident bytes_eq
    validate_key_field_type validate_key_type is_unportable is_unportable_int_path is_ident_among
    is_primitive is_primitive_type_path is_string_path is_std_path std_segments push_key push_field
    is_key_enum is_enum_attr is_variable_length
status_built = refl

build_key_holder_struct_lem_example :
    (holder_idents status_holder.holder_fields ≡ key_idents (all_fields status_item.fields))
    × ((any_key_string (all_fields status_item.fields) && not status_holder.variable_length)
        ≡ false)
build_key_holder_struct_lem_example =
    build_key_holder_struct_lem status_item status_holder status_built

abbrev status_topic : TopicCode
status_topic = record {
  holder = status_holder;
  topic_type = accepted (record { fixed_size = false; typename = some (codes "map/RobotStatus") });
}

status_topic_derived : derive_topic_impl status_item ≡ accepted status_topic
unfolding derive_topic_impl check_no_generics check_reserved_collision is_among bytes_eq
    build_key_holder_struct build_fields add_field is_key is_key_attr is_ident
    validate_key_field_type validate_key_type is_unportable is_unportable_int_path is_ident_among
    is_primitive is_primitive_type_path is_string_path is_std_path std_segments push_key push_field
    is_key_enum is_enum_attr is_variable_length parse_container parse_cdds_attrs read_attributes
    read_attribute read_attribute_meta read_metas read_meta read_once expect_cdds_lit_str parse_args
    parse_arg typename_of qualified
status_topic_derived = refl
