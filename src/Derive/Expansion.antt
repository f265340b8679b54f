-- ===== src/Derive/Expansion.antt =====
-- dds_derive/src/lib.rs: the checks that both macros begin with, and the expansion of `Topic`.
use cyclonedds_rs.Common.{
  codes, Text, List, [], ◌∷◌, if◌then◌else◌, is_among, Checked, accepted, rejected, on_accepted,
}
use cyclonedds_rs.Derive.Syntax.{ItemStruct}
use cyclonedds_rs.Derive.Attributes.{
  DeriveError, generics_unsupported, reserved_struct_name, Container, parse_container, topic_derive,
}
use cyclonedds_rs.Derive.Keys.{fine, KeyHolder, build_key_holder_struct}

abbrev pub topic_reserved_idents : List Text
topic_reserved_idents =
    codes "TopicType"
    ∷ codes "FixedTopicType"
    ∷ codes "SampleBuffer"
    ∷ codes "DdsParticipant"
    ∷ codes "DdsQos"
    ∷ codes "DdsListener"
    ∷ codes "DdsTopic"
    ∷ codes "DDSError"
    ∷ []

abbrev pub dds_interface_reserved_idents : List Text
dds_interface_reserved_idents =
    codes "InterfaceRef"
    ∷ codes "InterfaceDef"
    ∷ codes "InterfaceElem"
    ∷ codes "NsMode"
    ∷ codes "DefRegistry"
    ∷ codes "MsgDefRegistry"
    ∷ []

unfoldable pub check_no_generics : Text → ItemStruct → Checked DeriveError (Unit {0})
check_no_generics derive_name item =
    if item.has_generics then rejected (generics_unsupported derive_name) else fine

unfoldable pub check_reserved_collision :
    Text → ItemStruct → List Text → Checked DeriveError (Unit {0})
check_reserved_collision derive_name item reserved =
    if is_among item.ident.unraw reserved
    then rejected (reserved_struct_name derive_name item.ident.unraw)
    else fine

-- The code of `Topic`: the key holder, and the implementation of `TopicType` or, in its place, a
-- compile error.
pub record TopicCode : Type 0 where
  pub holder : KeyHolder
  pub topic_type : Checked DeriveError Container

unfoldable pub derive_topic_impl : ItemStruct → Checked DeriveError TopicCode
derive_topic_impl item = on_accepted (check_no_generics topic_derive item) (λ checked.
    on_accepted (check_reserved_collision topic_derive item topic_reserved_idents) (λ checked'.
      on_accepted (build_key_holder_struct item)
        (λ holder. accepted (record { holder = holder; topic_type = parse_container item }))))
