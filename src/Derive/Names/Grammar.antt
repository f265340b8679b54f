-- ===== src/Derive/Names/Grammar.antt =====
-- The names that dds_derive/src/lib.rs accepts, as grammars.
use cyclonedds_rs.Common.{
  Text, ℕ, [], ◌∷◌, Bool, true, false, ◌≡◌, refl, ◌↔◌, ◌⊎◌, sym, ◌∙◌, inl, inr, ◌==◌, ==_iff, arith,
  Bool-cases, false-true, is_ascii_lowercase, is_ascii_uppercase, is_ascii_alphanumeric,
  rejected-accepted, on_accepted_inverse, if-accepted_then, if-accepted_else,
}
use cyclonedds_rs.Derive.Names.{
  valid, is_lower_or_digit, check_letters, ends_with_underscore, validate_lower_snake_case,
  check_alphanumeric, validate_ros_type_name,
}

-- `([a-z0-9]|_[a-z0-9])*`.
pub data IsSnakeTail : Text → Type 0 where
  tail_end : IsSnakeTail []
  tail_letter :
      (c : ℕ) (text : Text) → is_lower_or_digit c ≡ true → IsSnakeTail text → IsSnakeTail (c ∷ text)
  tail_joined :
      (c : ℕ) (text : Text)
      → is_lower_or_digit c ≡ true
      → IsSnakeTail text
      → IsSnakeTail (b'_' ∷ c ∷ text)

-- `[a-z]([a-z0-9]|_[a-z0-9])*`.
pub data IsLowerSnakeCase : Text → Type 0 where
  snake_case :
      (c : ℕ) (text : Text)
      → is_ascii_lowercase c ≡ true
      → IsSnakeTail text
      → IsLowerSnakeCase (c ∷ text)

letter_not_underscore : (c : ℕ) → is_lower_or_digit c ≡ true → (c == b'_') ≡ false
letter_not_underscore c h = ground arith

check_letters-letter :
    (prev : Bool) (c : ℕ) (text : Text)
    → is_lower_or_digit c ≡ true
    → check_letters prev (c ∷ text) ≡ check_letters false text
unfolding check_letters
check_letters-letter prev c text h = rw (letter_not_underscore c h, h) refl

check_letters-joined : (text : Text) → check_letters false (b'_' ∷ text) ≡ check_letters true text
unfolding check_letters
check_letters-joined text = refl

ends_with_underscore-letter :
    (c : ℕ) (text : Text)
    → is_lower_or_digit c ≡ true
    → ends_with_underscore (c ∷ text) ≡ ends_with_underscore text
unfolding ends_with_underscore
ends_with_underscore-letter c [] h = letter_not_underscore c h
ends_with_underscore-letter c (d ∷ text) h = refl

ends_with_underscore-cons :
    (c d : ℕ) (text : Text) → ends_with_underscore (c ∷ d ∷ text) ≡ ends_with_underscore (d ∷ text)
unfolding ends_with_underscore
ends_with_underscore-cons c d text = refl

tail_accepted : (text : Text) → IsSnakeTail text → check_letters false text ≡ valid
tail_accepted [] tail_end = unfold check_letters in refl
tail_accepted (c ∷ text) (tail_letter _ _ h t) =
    rw (check_letters-letter false c text h) (tail_accepted text t)
tail_accepted (_ ∷ c ∷ text) (tail_joined _ _ h t) =
    rw (check_letters-joined (c ∷ text), check_letters-letter true c text h) (tail_accepted text t)

tail_end_letter : (text : Text) → IsSnakeTail text → ends_with_underscore text ≡ false
tail_end_letter [] tail_end = unfold ends_with_underscore in refl
tail_end_letter (c ∷ text) (tail_letter _ _ h t) =
    rw (ends_with_underscore-letter c text h) (tail_end_letter text t)
tail_end_letter (_ ∷ c ∷ text) (tail_joined _ _ h t) =
    rw (ends_with_underscore-cons b'_' c text, ends_with_underscore-letter c text h)
      (tail_end_letter text t)

-- What an accepted loop says of its first letter.
check_letters_inverse :
    (prev : Bool) (c : ℕ) (text : Text)
    → check_letters prev (c ∷ text) ≡ valid
    → ((c ≡ b'_') × (prev ≡ false) × (check_letters true text ≡ valid))
      ⊎ ((is_lower_or_digit c ≡ true) × (check_letters false text ≡ valid))
unfolding check_letters
check_letters_inverse prev c text h = elim (Bool-cases (c == b'_')) [
  | inl e ↦ elim (Bool-cases prev) [
    | inl p ↦ absurd (rejected-accepted (rw (e, p) at h))
    | inr p ↦ inl ((==_iff c b'_').0 e, p, rw (e, p) at h)
  ]
  | inr e ↦ elim (Bool-cases (is_lower_or_digit c)) [
    | inl l ↦ inr (l, rw (e, l) at h)
    | inr l ↦ absurd (rejected-accepted (rw (e, l) at h))
  ]
]

joined_tail :
    (d : ℕ) (text : Text)
    → (is_lower_or_digit d ≡ true) × IsSnakeTail text
    → IsSnakeTail (b'_' ∷ d ∷ text)
joined_tail d text h = tail_joined d text h.0 h.1

letters_tail :
    (text : Text)
    → check_letters false text ≡ valid
    → ends_with_underscore text ≡ false
    → IsSnakeTail text
letters_tail [] h e = tail_end
letters_tail (c ∷ []) h e = elim (check_letters_inverse false c [] h) [
  | inl u ↦ absurd (unfold ends_with_underscore in false-true (sym e ∙ (==_iff c b'_').1 u.0))
  | inr l ↦ tail_letter c [] l.0 tail_end
]
letters_tail (c ∷ d ∷ text) h e = elim (check_letters_inverse false c (d ∷ text) h) [
  | inl u ↦ elim (check_letters_inverse true d text u.2) [
    | inl v ↦ absurd (false-true (sym v.1))
    | inr l ↦ rw (u.0) (
        joined_tail d text (
          l.0,
          letters_tail text l.1 (
              sym (ends_with_underscore-letter d text l.0)
              ∙ sym (ends_with_underscore-cons c d text)
              ∙ e),
        ))
  ]
  | inr l ↦
      tail_letter c (d ∷ text) l.0
        (letters_tail (d ∷ text) l.1 (sym (ends_with_underscore-cons c d text) ∙ e))
]

validate_lower_snake_case-valid :
    (c : ℕ) (text : Text)
    → is_ascii_lowercase c ≡ true
    → check_letters false text ≡ valid
    → ends_with_underscore (c ∷ text) ≡ false
    → validate_lower_snake_case (c ∷ text) ≡ valid
unfolding validate_lower_snake_case
validate_lower_snake_case-valid c text l h e = rw (l, h, e) refl

validate_lower_snake_case_inverse :
    (c : ℕ) (text : Text)
    → validate_lower_snake_case (c ∷ text) ≡ valid
    → (is_ascii_lowercase c ≡ true)
      × (check_letters false text ≡ valid)
      × (ends_with_underscore (c ∷ text) ≡ false)
unfolding validate_lower_snake_case
validate_lower_snake_case_inverse c text h =
    let l = if-accepted_else _ _ _ _ h in
    let r = on_accepted_inverse _ _ _ l.1 in (l.0, r.1, (if-accepted_then _ _ _ _ r.2).0)

lowercase_letter : (c : ℕ) → is_ascii_lowercase c ≡ true → is_lower_or_digit c ≡ true
lowercase_letter c h = ground arith

no_empty_snake : IsLowerSnakeCase [] → validate_lower_snake_case [] ≡ valid
no_empty_snake h = elim h [ ]

snake_valid :
    (c : ℕ) (text : Text)
    → IsLowerSnakeCase (c ∷ text)
    → validate_lower_snake_case (c ∷ text) ≡ valid
snake_valid c text (snake_case _ _ l t) =
    validate_lower_snake_case-valid c text l (tail_accepted text t)
      (ends_with_underscore-letter c text (lowercase_letter c l) ∙ tail_end_letter text t)

-- A name is accepted as a lower snake case name exactly when it matches
-- `[a-z]([a-z0-9]|_[a-z0-9])*`.
pub validate_lower_snake_case_iff :
    (name : Text) → (validate_lower_snake_case name ≡ valid) ↔ IsLowerSnakeCase name
validate_lower_snake_case_iff [] =
    ((λ h. absurd (unfold validate_lower_snake_case in rejected-accepted h)), λ h. no_empty_snake h)
validate_lower_snake_case_iff (c ∷ text) = (
  (λ h.
      let v = validate_lower_snake_case_inverse c text h in
      snake_case c text v.0 (
        letters_tail text v.1
          (sym (ends_with_underscore-letter c text (lowercase_letter c v.0)) ∙ v.2))),
  λ h. snake_valid c text h,
)

-- `[A-Z][A-Za-z0-9]*`.
pub data IsAlphanumeric : Text → Type 0 where
  letters_end : IsAlphanumeric []
  letters_more :
      (c : ℕ) (text : Text)
      → is_ascii_alphanumeric c ≡ true
      → IsAlphanumeric text
      → IsAlphanumeric (c ∷ text)

pub data IsUpperCamelCase : Text → Type 0 where
  camel_case :
      (c : ℕ) (text : Text)
      → is_ascii_uppercase c ≡ true
      → IsAlphanumeric text
      → IsUpperCamelCase (c ∷ text)

check_alphanumeric_sound : (text : Text) → check_alphanumeric text ≡ valid → IsAlphanumeric text
unfolding check_alphanumeric
check_alphanumeric_sound [] h = letters_end
check_alphanumeric_sound (c ∷ text) h =
    let l = if-accepted_else (is_ascii_alphanumeric c) (check_alphanumeric text) _ _ h in
    letters_more c text l.0 (check_alphanumeric_sound text l.1)

check_alphanumeric_complete : (text : Text) → IsAlphanumeric text → check_alphanumeric text ≡ valid
unfolding check_alphanumeric
check_alphanumeric_complete [] letters_end = refl
check_alphanumeric_complete (c ∷ text) (letters_more _ _ l t) =
    rw (l) (check_alphanumeric_complete text t)

camel_valid : (name : Text) → IsUpperCamelCase name → validate_ros_type_name name ≡ valid
unfolding validate_ros_type_name
camel_valid [] h = elim h [ ]
camel_valid (c ∷ text) (camel_case _ _ u t) = rw (u) (check_alphanumeric_complete text t)

camel_sound : (name : Text) → validate_ros_type_name name ≡ valid → IsUpperCamelCase name
unfolding validate_ros_type_name
camel_sound [] h = absurd (rejected-accepted h)
camel_sound (c ∷ text) h =
    let u = if-accepted_else _ _ _ _ h in camel_case c text u.0 (check_alphanumeric_sound text u.1)

-- A name is accepted as the name of a message type exactly when it matches `[A-Z][A-Za-z0-9]*`.
pub validate_ros_type_name_iff :
    (name : Text) → (validate_ros_type_name name ≡ valid) ↔ IsUpperCamelCase name
validate_ros_type_name_iff name = (camel_sound name, camel_valid name)
