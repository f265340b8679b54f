-- ===== src/Derive/Keys/Types.antt =====
-- The types that dds_derive/src/lib.rs allows a key to have.
use cyclonedds_rs.Common.{
  Bool, true, false, ◌≡◌, ◌≢◌, refl, sym, ◌∙◌, if◌then◌else◌, Option-cases, none-some, false-true,
  ◌↔◌, ◌⊎◌, none, some, Checked, rejected, rejected-accepted, if-accepted_then, if-accepted_else,
  Bool-cases, inl, inr, arith,
}
use cyclonedds_rs.Derive.Syntax.{
  Ident, SynPath, LengthExpr, SynType, path_type, array_type, other_type, Field,
}
use cyclonedds_rs.Derive.Attributes.{
  DeriveError, tuple_field_key, key_enum_not_single_path, unsupported_element, unsupported_key,
}
use cyclonedds_rs.Derive.Keys.{
  fine, is_key_enum, is_primitive_type_path, is_unportable_int_path, is_primitive, is_unportable,
  validate_enum_type, validate_shape, validate_key_type, validate_key_field_type,
}

-- The types of a key; the index says whether it is marked as an enum.
pub data IsKeyType : Bool → SynType → Type 0 where
  primitive_key :
      (e : Bool) (path : SynPath)
      → is_unportable_int_path path ≡ false
      → is_primitive_type_path path ≡ true
      → IsKeyType e (path_type path)
  single_key :
      (e : Bool) (path : SynPath)
      → is_unportable_int_path path ≡ false
      → path.last_segment.has_arguments ≡ false
      → IsKeyType e (path_type path)
  array_key :
      (path : SynPath) (len : LengthExpr)
      → is_unportable_int_path path ≡ false
      → is_primitive_type_path path ≡ true
      → IsKeyType false (array_type (path_type path) len)

-- The checks of `validate_key_type`, undone.
validate_key_type_inverse :
    (e : Bool) (ty : SynType)
    → validate_key_type e ty ≡ fine
    → (is_unportable ty ≡ false)
      × ((is_primitive ty ≡ true)
          ⊎ ((is_primitive ty ≡ false)
              × ((if e then validate_enum_type ty else validate_shape ty) ≡ fine)))
unfolding validate_key_type
validate_key_type_inverse e ty h =
    let u = if-accepted_then (is_unportable ty) _ _ _ h in
    (u.0, elim (Bool-cases (is_primitive ty)) [ inl p ↦ inl p | inr p ↦ inr (p, rw (p) at (u.1)) ])

abbrev rest_of : Bool → SynType → Checked DeriveError (Unit {0})
rest_of e ty = if e then validate_enum_type ty else validate_shape ty

single_sound :
    (e : Bool) (path : SynPath)
    → rest_of e (path_type path) ≡ fine
    → path.last_segment.has_arguments ≡ false
unfolding validate_enum_type validate_shape
single_sound true path h = (if-accepted_then _ _ _ _ h).0
single_sound false path h = (if-accepted_then _ _ _ _ h).0

path_sound :
    (e : Bool) (path : SynPath)
    → validate_key_type e (path_type path) ≡ fine
    → IsKeyType e (path_type path)
unfolding is_unportable is_primitive
path_sound e path h =
    let v = validate_key_type_inverse e (path_type path) h in
    elim v.1 [
      | inl p ↦ primitive_key e path v.0 p
      | inr s ↦ single_key e path v.0 (single_sound e path s.1)
    ]

array_sound :
    (e : Bool) (path : SynPath) (len : LengthExpr)
    → is_unportable_int_path path ≡ false
    → rest_of e (array_type (path_type path) len) ≡ fine
    → IsKeyType e (array_type (path_type path) len)
unfolding validate_enum_type validate_shape
array_sound true path len u h = absurd (rejected-accepted h)
array_sound false path len u h = array_key path len u (if-accepted_else _ _ _ _ h).0

-- An array whose elements have no path, or another type, is refused.
shape_refused :
    (e : Bool) (ty : SynType)
    → validate_enum_type ty ≡ rejected key_enum_not_single_path
    → ((reason : DeriveError) × (validate_shape ty ≡ rejected reason))
    → rest_of e ty ≢ fine
shape_refused true ty r s h = rejected-accepted (sym r ∙ h)
shape_refused false ty r s h = rejected-accepted (sym s.1 ∙ h)

no_primitive : (ty : SynType) → is_primitive ty ≡ false → is_primitive ty ≡ true → ⊥
no_primitive ty f t = false-true (sym f ∙ t)

rest_sound :
    (e : Bool) (ty : SynType)
    → is_primitive ty ≡ false
    → validate_key_type e ty ≡ fine
    → (is_unportable ty ≡ false) × (rest_of e ty ≡ fine)
rest_sound e ty f h =
    let v = validate_key_type_inverse e ty h in
    (v.0, elim v.1 [ inl p ↦ absurd (no_primitive ty f p) | inr s ↦ s.1 ])

type_sound : (e : Bool) (ty : SynType) → validate_key_type e ty ≡ fine → IsKeyType e ty
unfolding is_primitive is_unportable validate_enum_type validate_shape
type_sound e (path_type path) h = path_sound e path h
type_sound e (array_type (path_type path) len) h =
    let r = rest_sound e (array_type (path_type path) len) refl h in array_sound e path len r.0 r.1
type_sound e (array_type (array_type elem len') len) h = absurd (
    shape_refused e (array_type (array_type elem len') len) refl (unsupported_element, refl)
      (rest_sound e (array_type (array_type elem len') len) refl h).1)
type_sound e (array_type other_type len) h = absurd (
    shape_refused e (array_type other_type len) refl (unsupported_element, refl)
      (rest_sound e (array_type other_type len) refl h).1)
type_sound e other_type h =
    absurd
      (shape_refused e other_type refl (unsupported_key, refl) (rest_sound e other_type refl h).1)

single_complete :
    (e : Bool) (path : SynPath)
    → is_unportable_int_path path ≡ false
    → path.last_segment.has_arguments ≡ false
    → validate_key_type e (path_type path) ≡ fine
unfolding validate_key_type is_unportable is_primitive validate_enum_type validate_shape
single_complete e path u a = ground arith

type_complete : (e : Bool) (ty : SynType) → IsKeyType e ty → validate_key_type e ty ≡ fine
type_complete e (path_type path) (primitive_key _ _ u p) =
    unfold validate_key_type is_unportable is_primitive in rw (u, p) refl
type_complete e (path_type path) (single_key _ _ u a) = single_complete e path u a
type_complete e (array_type _ len) (array_key path _ u p) =
    unfold validate_key_type is_unportable is_primitive validate_shape in rw (u, p) refl
type_complete e other_type h = elim h [ ]

unnamed :
    (field : Field) → field.ident ≡ none → validate_key_field_type field ≡ rejected tuple_field_key
unfolding validate_key_field_type
unnamed field n = rw (n) refl

named :
    (field : Field) (ident : Ident)
    → field.ident ≡ some ident
    → validate_key_field_type field ≡ validate_key_type (is_key_enum field) field.ty
unfolding validate_key_field_type
named field ident s = rw (s) refl

-- A field is accepted as a key exactly when it has a name and its type is a primitive, a path
-- without arguments or, unless it is marked as an enum, an array of a primitive, in each case not
-- of `usize`, `isize`, `u128` or `i128`.
pub validate_key_field_type_iff :
    (field : Field)
    → (validate_key_field_type field ≡ fine)
      ↔ (((ident : Ident) × (field.ident ≡ some ident)) × IsKeyType (is_key_enum field) field.ty)
validate_key_field_type_iff field = elim (Option-cases field.ident) [
  | inl n ↦ (
    (λ h. absurd (rejected-accepted (sym (unnamed field n) ∙ h))),
    λ h. absurd (none-some (sym n ∙ h.0.1)),
  )
  | inr s ↦ (
    (λ h. (s, type_sound (is_key_enum field) field.ty (sym (named field s.0 s.1) ∙ h))),
    λ h. named field s.0 s.1 ∙ type_complete (is_key_enum field) field.ty h.1,
  )
]
