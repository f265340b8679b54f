-- ===== src/Derive/Interface/WireFields.antt =====
-- The fields that `derive_dds_interface_impl` of dds_derive/src/lib.rs lets through.
use cyclonedds_rs.Common.{
  Text, List, [], ◌∷◌, Bool, false, ◌≡◌, ◌⊎◌, refl, sym, ◌∙◌, none, some, Checked, accepted,
  rejected, on_accepted_inverse, rejected-accepted, if-accepted_then, Bool-cases, Option-cases, inl,
  inr, map,
}
use cyclonedds_rs.Derive.Keywords.{is_reserved_keyword}
use cyclonedds_rs.Derive.Names.{
  NameError, valid, validate_lower_snake_case, reject_reserved_keyword, validate_msg_field_name,
}
use cyclonedds_rs.Derive.Names.Grammar.{IsLowerSnakeCase, validate_lower_snake_case_iff}
use cyclonedds_rs.Derive.Syntax.{Ident, Field}
use cyclonedds_rs.Derive.Attributes.{DeriveError, panicked}
use cyclonedds_rs.Derive.Keys.{fine, is_key, is_key_enum}
use cyclonedds_rs.Derive.Keys.Types.{IsKeyType, validate_key_field_type_iff}
use cyclonedds_rs.Derive.Interface.{
  field_name_result, check_field_name, has_no_elements, check_length, check_key, check_each,
  field_name, FieldCode, field_code, check_fields,
}

-- A field that the definitions can express.
pub record IsWireField (field : FieldCode) : Type 0 where
  pub snake_case : IsLowerSnakeCase field.name
  pub not_reserved : is_reserved_keyword field.name ≡ false
  pub not_empty : has_no_elements field.ty ≡ false
  pub key_lem : (field.key ≡ false) ⊎ ((e : Bool) × IsKeyType e field.ty)

abbrev pub AllFields : List FieldCode → Type 0
AllFields [] = Unit {0}
AllFields (field ∷ fields) = IsWireField field × AllFields fields

validate_msg_field_name_lem :
    (name : Text)
    → validate_msg_field_name name ≡ valid
    → IsLowerSnakeCase name × (is_reserved_keyword name ≡ false)
unfolding validate_msg_field_name reject_reserved_keyword
validate_msg_field_name_lem name h =
    let r = on_accepted_inverse (validate_lower_snake_case name) _ _ h in
    ((validate_lower_snake_case_iff name).0 r.1, (if-accepted_then _ _ _ _ r.2).0)

field_name_result_lem :
    (name : Text) (r : Checked NameError (Unit {0})) → field_name_result name r ≡ fine → r ≡ valid
field_name_result_lem name (accepted checked) h = refl
field_name_result_lem name (rejected reason) h = absurd (rejected-accepted h)

unnamed : (field : Field) → field.ident ≡ none → check_field_name field ≡ rejected panicked
unfolding check_field_name
unnamed field n = rw (n) refl

named :
    (field : Field) (ident : Ident)
    → field.ident ≡ some ident
    → check_field_name field ≡ field_name_result ident.unraw (validate_msg_field_name ident.unraw)
unfolding check_field_name
named field ident s = rw (s) refl

check_field_name_lem :
    (field : Field)
    → check_field_name field ≡ fine
    → IsLowerSnakeCase (field_name field.ident)
      × (is_reserved_keyword (field_name field.ident) ≡ false)
check_field_name_lem field h = elim (Option-cases field.ident) [
  | inl n ↦ absurd (rejected-accepted (sym (unnamed field n) ∙ h))
  | inr s ↦ rw (s.1) (
      validate_msg_field_name_lem s.0.unraw
        (field_name_result_lem s.0.unraw _ (sym (named field s.0 s.1) ∙ h)))
]

check_key_lem :
    (field : Field)
    → check_key field ≡ fine
    → (is_key field ≡ false) ⊎ ((e : Bool) × IsKeyType e field.ty)
unfolding check_key
check_key_lem field h = elim (Bool-cases (is_key field)) [
  | inl k ↦ inr (is_key_enum field, ((validate_key_field_type_iff field).0 (rw (k) at h)).1)
  | inr n ↦ inl n
]

check_length_lem : (field : Field) → check_length field ≡ fine → has_no_elements field.ty ≡ false
unfolding check_length
check_length_lem field h = (if-accepted_then (has_no_elements field.ty) _ _ _ h).0

check_each_cons :
    (check : Field → Checked DeriveError (Unit {0})) (field : Field) (fields : List Field)
    → check_each check (field ∷ fields) ≡ fine
    → (check field ≡ fine) × (check_each check fields ≡ fine)
unfolding check_each
check_each_cons check field fields h = let r = on_accepted_inverse (check field) _ _ h in (r.1, r.2)

field_IsWire :
    (field : Field)
    → check_field_name field ≡ fine
    → check_length field ≡ fine
    → check_key field ≡ fine
    → IsWireField (field_code field)
unfolding field_code
field_IsWire field n l k =
    let name = check_field_name_lem field n in
    record {
      snake_case = name.0;
      not_reserved = name.1;
      not_empty = check_length_lem field l;
      key_lem = check_key_lem field k;
    }

each_AllFields :
    (fields : List Field)
    → check_each check_field_name fields ≡ fine
    → check_each check_length fields ≡ fine
    → check_each check_key fields ≡ fine
    → AllFields (map field_code fields)
each_AllFields [] n l k = tt
each_AllFields (field ∷ fields) n l k =
    let n' = check_each_cons check_field_name field fields n in
    let l' = check_each_cons check_length field fields l in
    let k' = check_each_cons check_key field fields k in
    (field_IsWire field n'.0 l'.0 k'.0, each_AllFields fields n'.1 l'.1 k'.1)

pub check_fields-AllFields :
    (fields : List Field) → check_fields fields ≡ fine → AllFields (map field_code fields)
unfolding check_fields
check_fields-AllFields fields h =
    let n = on_accepted_inverse (check_each check_field_name fields) _ _ h in
    let l = on_accepted_inverse (check_each check_length fields) _ _ n.2 in
    each_AllFields fields n.1 l.1 l.2
