-- ===== src/Derive/Keys/Rounds.antt =====
-- dds_derive/src/lib.rs: one round of the loop in `build_key_holder_struct`.
use cyclonedds_rs.Common.{
  List, [], ◌∷◌, ◌++◌, Bool, true, false, ◌||◌, ◌≡◌, ◌≢◌, refl, ap, ◌∙◌, Option, some, Checked,
  accepted, rejected, on_accepted, false-true, if◌then◌else◌, Bool-cases, inl, inr, arith,
}
use cyclonedds_rs.Derive.Syntax.{Ident, SynPath, SynType, path_type, array_type, other_type, Field}
use cyclonedds_rs.Derive.Attributes.{DeriveError, panicked}
use cyclonedds_rs.Derive.Keys.{
  is_key, is_key_enum, is_primitive, is_primitive_type_path, is_string_path, is_string_element,
  is_variable_length, validate_enum_type, validate_shape, validate_key_type,
  validate_key_field_type, HolderField, KeyHolder, push_field, push_struct, push_by_type, push_key,
  add_field,
}
use cyclonedds_rs.Derive.Keys.Types.{IsKeyType, array_key, validate_key_field_type_iff}

-- The names of the key fields, in order.
unfoldable pub key_idents : List Field → List (Option Ident)
key_idents [] = []
key_idents (field ∷ fields) =
    let rest = key_idents fields in if is_key field then field.ident ∷ rest else rest

unfoldable pub holder_idents : List HolderField → List (Option Ident)
holder_idents [] = []
holder_idents (field ∷ fields) = some field.ident ∷ holder_idents fields

-- A key of type `String` or an array of them.
unfoldable pub holds_string : SynType → Bool
holds_string (path_type path) = is_string_path path
holds_string (array_type elem len) = is_string_element elem
holds_string other_type = false

unfoldable pub any_key_string : List Field → Bool
any_key_string [] = false
any_key_string (field ∷ fields) =
    let rest = any_key_string fields in if is_key field then holds_string field.ty || rest else rest

pub reason_injective :
    {a b : DeriveError} → ◌≡◌ {A = Checked DeriveError KeyHolder} (rejected a) (rejected b) → a ≡ b
reason_injective h = cc

enum_no_panic : (ty : SynType) → validate_enum_type ty ≢ rejected panicked
unfolding validate_enum_type
enum_no_panic (path_type path) h = ground arith
enum_no_panic (array_type elem len) h = cc
enum_no_panic other_type h = cc

shape_no_panic : (ty : SynType) → validate_shape ty ≢ rejected panicked
unfolding validate_shape
shape_no_panic (path_type path) h = ground arith
shape_no_panic (array_type (path_type path) len) h = ground arith
shape_no_panic (array_type (array_type elem len') len) h = cc
shape_no_panic (array_type other_type len) h = cc
shape_no_panic other_type h = cc

type_no_panic : (e : Bool) (ty : SynType) → validate_key_type e ty ≢ rejected panicked
unfolding validate_key_type
type_no_panic e ty h = ground (arith, enum_no_panic ty, shape_no_panic ty)

validate_no_panic : (field : Field) → validate_key_field_type field ≢ rejected panicked
unfolding validate_key_field_type
validate_no_panic field h = ground (arith, type_no_panic (is_key_enum field) field.ty)

string_primitive :
    (path : SynPath) → is_string_path path ≡ true → is_primitive (path_type path) ≡ true
unfolding is_primitive is_primitive_type_path
string_primitive path h = ground arith

string_variable :
    (path : SynPath) → is_string_path path ≡ true → is_variable_length (path_type path) ≡ true
unfolding is_variable_length
string_variable path h = ground arith

-- What a round that accepts a key does to the key holder.
pub record IsPushed (before : KeyHolder) (ident : Ident) (ty : SynType)
    (pushed : Checked DeriveError KeyHolder) : Type 0 where
  pub after : KeyHolder
  pub pushed_lem : pushed ≡ accepted after
  pub idents_lem :
      holder_idents after.holder_fields ≡ holder_idents before.holder_fields ++ (some ident ∷ [])
  pub variable_lem :
      (before.variable_length || holds_string ty) ≡ true → after.variable_length ≡ true

pub holder_idents-append :
    (xs ys : List HolderField) → holder_idents (xs ++ ys) ≡ holder_idents xs ++ holder_idents ys
unfolding holder_idents
holder_idents-append [] ys = refl
holder_idents-append (x ∷ xs) ys = ap (◌∷◌ (some x.ident)) (holder_idents-append xs ys)

field-IsPushed :
    (holder : KeyHolder) (ident : Ident) (ty : SynType) (variable : Bool)
    → (holds_string ty ≡ true → variable ≡ true)
    → IsPushed holder ident ty (accepted (push_field holder ident ty variable))
unfolding push_field holder_idents
field-IsPushed holder ident ty variable v = record {
  after = push_field holder ident ty variable;
  pushed_lem = refl;
  idents_lem = holder_idents-append holder.holder_fields _;
  variable_lem = λ h. ground (arith, v);
}

struct-IsPushed :
    (holder : KeyHolder) (ident : Ident) (path : SynPath)
    → is_string_path path ≡ false
    → IsPushed holder ident (path_type path) (accepted (push_struct holder ident path))
unfolding push_struct holder_idents holds_string
struct-IsPushed holder ident path v = record {
  after = push_struct holder ident path;
  pushed_lem = refl;
  idents_lem = holder_idents-append holder.holder_fields _;
  variable_lem = λ h. ground arith;
}

not_string :
    (e : Bool) (path : SynPath)
    → (is_primitive (path_type path) || e) ≡ false
    → is_string_path path ≡ false
not_string e path n = ground (arith, string_primitive path)

by_type-IsPushed :
    (e : Bool) (holder : KeyHolder) (ident : Ident) (ty : SynType)
    → IsKeyType e ty
    → (is_primitive ty || e) ≡ false
    → IsPushed holder ident ty (push_by_type holder ident ty)
unfolding push_by_type holds_string
by_type-IsPushed e holder ident (path_type path) k n =
    struct-IsPushed holder ident path (not_string e path n)
by_type-IsPushed e holder ident (array_type elem len) k n =
    field-IsPushed holder ident (array_type elem len) (is_string_element elem) (λ h. h)
by_type-IsPushed e holder ident other_type k n = elim k [ ]

primitive_variable :
    (e : Bool) (ty : SynType)
    → IsKeyType e ty
    → (is_primitive ty || e) ≡ true
    → holds_string ty ≡ true
    → is_variable_length ty ≡ true
unfolding holds_string
primitive_variable e (path_type path) k n h = string_variable path h
primitive_variable e (array_type _ len) (array_key path _ u p) n h =
    absurd (unfold is_primitive in false-true n)
primitive_variable e other_type k n h = elim k [ ]

typed-IsPushed :
    (e : Bool) (holder : KeyHolder) (ident : Ident) (ty : SynType)
    → IsKeyType e ty
    → IsPushed holder ident ty (
        if is_primitive ty || e
        then accepted (push_field holder ident ty (is_variable_length ty))
        else push_by_type holder ident ty)
typed-IsPushed e holder ident ty k = elim (Bool-cases (is_primitive ty || e)) [
  | inl p ↦
      rw (p) (field-IsPushed holder ident ty (is_variable_length ty) (primitive_variable e ty k p))
  | inr n ↦ rw (n) (by_type-IsPushed e holder ident ty k n)
]

push_key_named :
    (holder : KeyHolder) (field : Field) (ident : Ident)
    → field.ident ≡ some ident
    → push_key holder field ≡ (
        if is_primitive field.ty || is_key_enum field
        then accepted (push_field holder ident field.ty (is_variable_length field.ty))
        else push_by_type holder ident field.ty)
unfolding push_key
push_key_named holder field ident s = rw (s) refl

key-IsPushed :
    (holder : KeyHolder) (field : Field) (ident : Ident)
    → field.ident ≡ some ident
    → IsKeyType (is_key_enum field) field.ty
    → IsPushed holder ident field.ty (push_key holder field)
key-IsPushed holder field ident s k =
    rw (push_key_named holder field ident s)
      (typed-IsPushed (is_key_enum field) holder ident field.ty k)

-- A round of the loop either keeps the holder, or adds the key or an error that is no panic.
pub data IsRound (before : KeyHolder) (field : Field) : Checked DeriveError KeyHolder → Type 0 where
  skipped : is_key field ≡ false → IsRound before field (accepted before)
  refused : (reason : DeriveError) → reason ≢ panicked → IsRound before field (rejected reason)
  added :
      (ident : Ident) (r : Checked DeriveError KeyHolder)
      → is_key field ≡ true
      → field.ident ≡ some ident
      → IsPushed before ident field.ty r
      → IsRound before field r

rejected_no_panic :
    (field : Field) (reason : DeriveError)
    → validate_key_field_type field ≡ rejected reason
    → reason ≢ panicked
rejected_no_panic field reason h e = validate_no_panic field (h ∙ ap rejected e)

checked-IsRound :
    (holder : KeyHolder) (field : Field) (r : Checked DeriveError (Unit {0}))
    → is_key field ≡ true
    → validate_key_field_type field ≡ r
    → IsRound holder field (on_accepted r (λ checked. push_key holder field))
checked-IsRound holder field (rejected reason) k h =
    refused reason (rejected_no_panic field reason h)
checked-IsRound holder field (accepted checked) k h =
    let v = (validate_key_field_type_iff field).0 h in
    added v.0.0 (push_key holder field) k v.0.1 (key-IsPushed holder field v.0.0 v.0.1 v.1)

pub add_field_lem :
    (holder : KeyHolder) (field : Field) → IsRound holder field (add_field holder field)
unfolding add_field
add_field_lem holder field = elim (Bool-cases (is_key field)) [
  | inl k ↦ rw (k) (checked-IsRound holder field (validate_key_field_type field) k refl)
  | inr n ↦ rw (n) (skipped n)
]
