-- ===== src/Derive/Interface/Laws.antt =====
-- What `derive_dds_interface_impl` of dds_derive/src/lib.rs guarantees of the code it generates.
use cyclonedds_rs.Common.{
  Text, List, Bool, false, ◌≡◌, refl, sym, ap, ◌∙◌, Option, none, some, Checked, accepted, rejected,
  on_accepted_inverse, accepted-injective, rejected-accepted,
}
use cyclonedds_rs.Derive.Keywords.{is_reserved_keyword}
use cyclonedds_rs.Derive.Names.{
  NameError, valid, validate_ros_package_name, validate_ros_type_name, escape_idl_identifier,
}
use cyclonedds_rs.Derive.Names.Grammar.{
  IsLowerSnakeCase, IsUpperCamelCase, validate_lower_snake_case_iff, validate_ros_type_name_iff,
}
use cyclonedds_rs.Derive.Names.Escapes.{escape_not_reserved}
use cyclonedds_rs.Derive.Syntax.{Field, ItemStruct}
use cyclonedds_rs.Derive.Attributes.{
  topic_derive, dds_interface_derive, CddsAttrs, parse_cdds_attrs, unwrap_or, qualified,
  typename_of, Container, parse_container, InterfaceContainer, named_package, container_of,
  parse_interface_container,
}
use cyclonedds_rs.Derive.Keys.{fine, build_key_holder_struct}
use cyclonedds_rs.Derive.Expansion.{
  TopicCode, derive_topic_impl, check_no_generics, check_reserved_collision, topic_reserved_idents,
  dds_interface_reserved_idents,
}
use cyclonedds_rs.Derive.Interface.{
  is_explicit, type_name_result, check_type_name, require_named_fields, InterfaceCode,
  interface_code, check_fields, derive_dds_interface_impl, msg_ref,
}
use cyclonedds_rs.Derive.Interface.WireFields.{AllFields, check_fields-AllFields}

-- What the checks have found when code is generated.
pub record IsDerived (item : ItemStruct) (code : InterfaceCode) : Type 0 where
  pub container : InterfaceContainer
  pub parsed : parse_interface_container item ≡ accepted container
  pub source_fields : List Field
  pub named : require_named_fields item.fields ≡ accepted source_fields
  pub typed :
      check_type_name (is_explicit container.name) (unwrap_or container.name item.ident.unraw)
      ≡ fine
  pub checked : check_fields source_fields ≡ fine
  pub code_lem :
      interface_code container.pkg (unwrap_or container.name item.ident.unraw) source_fields ≡ code

pub derive_dds_interface_impl_inverse :
    (item : ItemStruct) (code : InterfaceCode)
    → derive_dds_interface_impl item ≡ accepted code
    → IsDerived item code
unfolding derive_dds_interface_impl
derive_dds_interface_impl_inverse item code h =
    let plain = on_accepted_inverse (check_no_generics dds_interface_derive item) _ code h in
    let free =
      on_accepted_inverse
        (check_reserved_collision dds_interface_derive item dds_interface_reserved_idents) _ code
        plain.2 in
    let container = on_accepted_inverse (parse_interface_container item) _ code free.2 in
    let named = on_accepted_inverse (require_named_fields item.fields) _ code container.2 in
    let name = unwrap_or container.0.name item.ident.unraw in
    let typed =
      on_accepted_inverse (check_type_name (is_explicit container.0.name) name) _ code named.2 in
    let checked = on_accepted_inverse (check_fields named.0) _ code typed.2 in
    record {
      container = container.0;
      parsed = container.1;
      source_fields = named.0;
      named = named.1;
      typed = typed.1;
      checked = checked.1;
      code_lem = accepted-injective checked.2;
    }

type_name_result_lem :
    (e : Bool) (name : Text) (r : Checked NameError (Unit {0}))
    → type_name_result e name r ≡ fine
    → r ≡ valid
type_name_result_lem e name (accepted checked) h = refl
type_name_result_lem e name (rejected reason) h = absurd (rejected-accepted h)

check_type_name_lem :
    (e : Bool) (name : Text) → check_type_name e name ≡ fine → IsUpperCamelCase name
unfolding check_type_name
check_type_name_lem e name h =
    (validate_ros_type_name_iff name).0
      (type_name_result_lem e name (validate_ros_type_name name) h)

-- What the parsed container says of the attributes.
record IsContained (item : ItemStruct) (container : InterfaceContainer) : Type 0 where
  attrs : CddsAttrs
  attrs_lem : parse_cdds_attrs item.attrs ≡ accepted attrs
  package_lem : attrs.pkg ≡ some container.pkg
  name_lem : attrs.name ≡ container.name
  package_valid : validate_ros_package_name container.pkg ≡ valid

named_package_lem :
    (pkg : Text) (r : Checked NameError (Unit {0})) (name : Option Text)
    (container : InterfaceContainer)
    → named_package pkg r name ≡ accepted container
    → (pkg ≡ container.pkg) × (name ≡ container.name) × (r ≡ valid)
named_package_lem pkg (accepted checked) name container h =
    let e = accepted-injective h in (ap (λ c. c.pkg) e, ap (λ c. c.name) e, refl)
named_package_lem pkg (rejected reason) name container h = absurd (rejected-accepted h)

container_of_lem :
    (o name : Option Text) (container : InterfaceContainer)
    → container_of o name ≡ accepted container
    → (o ≡ some container.pkg)
      × (name ≡ container.name)
      × (validate_ros_package_name container.pkg ≡ valid)
unfolding container_of
container_of_lem none name container h = absurd (rejected-accepted h)
container_of_lem (some pkg) name container h =
    let n = named_package_lem pkg (validate_ros_package_name pkg) name container h in
    (ap some n.0, n.1, ap validate_ros_package_name (sym n.0) ∙ n.2)

parse_interface_container_lem :
    (item : ItemStruct) (container : InterfaceContainer)
    → parse_interface_container item ≡ accepted container
    → IsContained item container
unfolding parse_interface_container
parse_interface_container_lem item container h =
    let r = on_accepted_inverse (parse_cdds_attrs item.attrs) _ container h in
    let c = container_of_lem r.0.pkg r.0.name container r.2 in
    record { attrs = r.0; attrs_lem = r.1; package_lem = c.0; name_lem = c.1; package_valid = c.2 }

package_snake_case : (pkg : Text) → validate_ros_package_name pkg ≡ valid → IsLowerSnakeCase pkg
unfolding validate_ros_package_name
package_snake_case pkg h = (validate_lower_snake_case_iff pkg).0 h

-- What the generated code says, whatever the struct.
pub record IsWireCode (code : InterfaceCode) : Type 0 where
  pub package_lem : IsLowerSnakeCase code.pkg
  pub escaped_lem : code.escaped_package ≡ escape_idl_identifier code.pkg
  pub struct_lem : IsUpperCamelCase code.struct_name
  pub fields_lem : AllFields code.fields

interface_code-IsWireCode :
    (container : InterfaceContainer) (name : Text) (fields : List Field)
    → validate_ros_package_name container.pkg ≡ valid
    → IsUpperCamelCase name
    → check_fields fields ≡ fine
    → IsWireCode (interface_code container.pkg name fields)
unfolding interface_code
interface_code-IsWireCode container name fields p n f = record {
  package_lem = package_snake_case container.pkg p;
  escaped_lem = refl;
  struct_lem = n;
  fields_lem = check_fields-AllFields fields f;
}

pub wire_code :
    (item : ItemStruct) (code : InterfaceCode)
    → derive_dds_interface_impl item ≡ accepted code
    → IsWireCode code
wire_code item code h =
    let d = derive_dds_interface_impl_inverse item code h in
    let c = parse_interface_container_lem item d.container d.parsed in
    rw⁻¹ (d.code_lem) (
      interface_code-IsWireCode d.container _ d.source_fields c.package_valid
        (check_type_name_lem _ _ d.typed) d.checked)

-- If code is generated for a struct, the package is a lower snake case name whose identifier in the
-- definitions is no reserved word, the name of the type is upper camel case, and each field has a
-- lower snake case name that is no reserved word and a type that is no array of literal length 0,
-- and is either no key or of a type that a key may have.
pub derive_dds_interface_impl_lem :
    (item : ItemStruct) (code : InterfaceCode)
    → derive_dds_interface_impl item ≡ accepted code
    → IsLowerSnakeCase code.pkg
      × (is_reserved_keyword code.escaped_package ≡ false)
      × IsUpperCamelCase code.struct_name
      × AllFields code.fields
derive_dds_interface_impl_lem item code h =
    let w = wire_code item code h in
    (
      w.package_lem,
      ap is_reserved_keyword w.escaped_lem ∙ escape_not_reserved code.pkg,
      w.struct_lem,
      w.fields_lem,
    )

topic_type_lem :
    (item : ItemStruct) (topic : TopicCode)
    → derive_topic_impl item ≡ accepted topic
    → topic.topic_type ≡ parse_container item
unfolding derive_topic_impl
topic_type_lem item topic h =
    let plain = on_accepted_inverse (check_no_generics topic_derive item) _ topic h in
    let free =
      on_accepted_inverse (check_reserved_collision topic_derive item topic_reserved_idents) _ topic
        plain.2 in
    let holder = on_accepted_inverse (build_key_holder_struct item) _ topic free.2 in
    sym (ap (λ c. c.topic_type) (accepted-injective holder.2))

parse_container_lem :
    (item : ItemStruct) (attrs : CddsAttrs)
    → parse_cdds_attrs item.attrs ≡ accepted attrs
    → parse_container item
      ≡ accepted (record { fixed_size = attrs.fixed_size; typename = typename_of item attrs })
unfolding parse_container
parse_container_lem item attrs h = rw (h) refl

typename_lem :
    (item : ItemStruct) (attrs : CddsAttrs) (pkg : Text)
    → attrs.pkg ≡ some pkg
    → typename_of item attrs ≡ some (qualified pkg (unwrap_or attrs.name item.ident.unraw))
unfolding typename_of
typename_lem item attrs pkg h = rw (h) refl

msg_ref_lem :
    (pkg name : Text) (fields : List Field)
    → ◌≡◌ {A = Option Text}
        (some (qualified pkg name))
        (some (msg_ref (interface_code pkg name fields)))
unfolding msg_ref interface_code
msg_ref_lem pkg name fields = refl

-- If both macros accept a struct, the wire name of the topic is given and is the one by which the
-- definitions of other messages refer to it.
pub typename_agrees :
    (item : ItemStruct) (code : InterfaceCode) (topic : TopicCode)
    → derive_dds_interface_impl item ≡ accepted code
    → derive_topic_impl item ≡ accepted topic
    → (container : Container) × (topic.topic_type ≡ accepted container)
      × (container.typename ≡ some (msg_ref code))
typename_agrees item code topic h t =
    let d = derive_dds_interface_impl_inverse item code h in
    let c = parse_interface_container_lem item d.container d.parsed in
    (
      record { fixed_size = c.attrs.fixed_size; typename = typename_of item c.attrs },
      topic_type_lem item topic t ∙ parse_container_lem item c.attrs c.attrs_lem,
      typename_lem item c.attrs d.container.pkg c.package_lem
          ∙ ap (λ n. some (qualified d.container.pkg (unwrap_or n item.ident.unraw))) c.name_lem
          ∙ msg_ref_lem d.container.pkg _ d.source_fields
          ∙ ap (λ v. some (msg_ref v)) d.code_lem,
    )
