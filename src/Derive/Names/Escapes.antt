-- ===== src/Derive/Names/Escapes.antt =====
-- dds_derive/src/lib.rs: `escape_idl_identifier` gives each package a name of its own.
use cyclonedds_rs.Common.{
  Text, ℕ, ◌∷◌, true, false, ◌≡◌, refl, sym, ap, ◌∙◌, ◌↔◌, ◌≢◌, inl, inr, Bool-cases, is_among,
  bytes_eq, rejected-accepted,
}
use cyclonedds_rs.Derive.Keywords.{is_reserved_keyword}
use cyclonedds_rs.Derive.Names.{
  valid, validate_lower_snake_case, validate_ros_package_name, escape_idl_identifier,
}

underscore_not_reserved : (name : Text) → is_reserved_keyword (b'_' ∷ name) ≡ false
unfolding is_reserved_keyword is_among bytes_eq
underscore_not_reserved name = refl

escape_reserved :
    (name : Text) → is_reserved_keyword name ≡ true → escape_idl_identifier name ≡ b'_' ∷ name
unfolding escape_idl_identifier
escape_reserved name h = rw (h) refl

escape_free : (name : Text) → is_reserved_keyword name ≡ false → escape_idl_identifier name ≡ name
unfolding escape_idl_identifier
escape_free name h = rw (h) refl

no_underscore_first : (name : Text) → validate_ros_package_name (b'_' ∷ name) ≡ valid → ⊥
unfolding validate_ros_package_name validate_lower_snake_case
no_underscore_first name h = rejected-accepted h

pub escape_not_reserved : (name : Text) → is_reserved_keyword (escape_idl_identifier name) ≡ false
escape_not_reserved name = elim (Bool-cases (is_reserved_keyword name)) [
  | inl r ↦ rw (escape_reserved name r) (underscore_not_reserved name)
  | inr f ↦ rw (escape_free name f) f
]

-- An accepted name does not begin with an underscore, so it is no escaped name.
not_escaped : (p q : Text) → validate_ros_package_name p ≡ valid → p ≢ b'_' ∷ q
not_escaped p q h e = no_underscore_first q (sym (ap validate_ros_package_name e) ∙ h)

tails_equal : (a : ℕ) (p q : Text) → a ∷ p ≡ a ∷ q → p ≡ q
tails_equal a p q h = cc

escape_injective :
    (p q : Text)
    → validate_ros_package_name p ≡ valid
    → validate_ros_package_name q ≡ valid
    → escape_idl_identifier p ≡ escape_idl_identifier q
    → p ≡ q
escape_injective p q hp hq e = elim (Bool-cases (is_reserved_keyword p)) [
  | inl rp ↦ elim (Bool-cases (is_reserved_keyword q)) [
    | inl rq ↦ tails_equal b'_' p q (sym (escape_reserved p rp) ∙ e ∙ escape_reserved q rq)
    | inr fq ↦ absurd (not_escaped q p hq (sym (escape_free q fq) ∙ sym e ∙ escape_reserved p rp))
  ]
  | inr fp ↦ elim (Bool-cases (is_reserved_keyword q)) [
    | inl rq ↦ absurd (not_escaped p q hp (sym (escape_free p fp) ∙ e ∙ escape_reserved q rq))
    | inr fq ↦ sym (escape_free p fp) ∙ e ∙ escape_free q fq
  ]
]

-- No escaped identifier is reserved, and two package names that are accepted have the same escaped
-- identifier only if they are the same.
pub escape_idl_identifier_lem :
    (p q : Text)
    → validate_ros_package_name p ≡ valid
    → validate_ros_package_name q ≡ valid
    → (is_reserved_keyword (escape_idl_identifier p) ≡ false)
      × ((escape_idl_identifier p ≡ escape_idl_identifier q) ↔ (p ≡ q))
escape_idl_identifier_lem p q hp hq =
    (escape_not_reserved p, (escape_injective p q hp hq, λ e. rw e refl))
