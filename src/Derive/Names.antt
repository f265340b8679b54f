-- ===== src/Derive/Names.antt =====
-- dds_derive/src/lib.rs: the rules for the names of fields, packages and message types.
pub mod Grammar
pub mod Escapes
pub mod Letters
use cyclonedds_rs.Common.{
  codes, Text, ℕ, List, [], ◌∷◌, Bool, true, false, ◌||◌, ◌==◌, if◌then◌else◌, is_ascii_lowercase,
  is_ascii_uppercase, is_ascii_digit, is_ascii_alphanumeric, Checked, accepted, rejected,
  on_accepted,
}
use cyclonedds_rs.Derive.Keywords.{is_reserved_keyword}

-- Why a name is refused.
pub data NameError : Type 0 where
  empty_name : NameError
  bad_first_letter : ℕ → NameError
  consecutive_underscores : NameError
  bad_letter : ℕ → NameError
  trailing_underscore : NameError
  reserved_keyword : Text → NameError

abbrev pub valid : Checked NameError (Unit {0})
valid = accepted tt

abbrev pub is_lower_or_digit : ℕ → Bool
is_lower_or_digit c = is_ascii_lowercase c || is_ascii_digit c

-- The loop over the characters after the first.
unfoldable pub check_letters : Bool → Text → Checked NameError (Unit {0})
check_letters prev_underscore [] = valid
check_letters prev_underscore (c ∷ text) =
    let rest = check_letters (c == b'_') text in
    if c == b'_'
    then (if prev_underscore then rejected consecutive_underscores else rest)
    else if is_lower_or_digit c
    then rest
    else rejected (bad_letter c)

unfoldable pub ends_with_underscore : Text → Bool
ends_with_underscore [] = false
ends_with_underscore (c ∷ []) = c == b'_'
ends_with_underscore (c ∷ d ∷ text) = ends_with_underscore (d ∷ text)

unfoldable pub validate_lower_snake_case : Text → Checked NameError (Unit {0})
validate_lower_snake_case [] = rejected empty_name
validate_lower_snake_case (first ∷ text) =
    if is_ascii_lowercase first
    then on_accepted (check_letters false text) (λ checked.
      if ends_with_underscore (first ∷ text) then rejected trailing_underscore else valid)
    else rejected (bad_first_letter first)

unfoldable pub reject_reserved_keyword : Text → Checked NameError (Unit {0})
reject_reserved_keyword name =
    if is_reserved_keyword name then rejected (reserved_keyword name) else valid

unfoldable pub validate_msg_field_name : Text → Checked NameError (Unit {0})
validate_msg_field_name name =
    on_accepted (validate_lower_snake_case name) (λ checked. reject_reserved_keyword name)

unfoldable pub escape_idl_identifier : Text → Text
escape_idl_identifier name = if is_reserved_keyword name then b'_' ∷ name else name

unfoldable pub validate_ros_package_name : Text → Checked NameError (Unit {0})
validate_ros_package_name name = validate_lower_snake_case name

-- The loop over the characters after the first.
unfoldable pub check_alphanumeric : Text → Checked NameError (Unit {0})
check_alphanumeric [] = valid
check_alphanumeric (c ∷ text) =
    let rest = check_alphanumeric text in
    if is_ascii_alphanumeric c then rest else rejected (bad_letter c)

unfoldable pub validate_ros_type_name : Text → Checked NameError (Unit {0})
validate_ros_type_name [] = rejected empty_name
validate_ros_type_name (first ∷ text) =
    if is_ascii_uppercase first then check_alphanumeric text else rejected (bad_first_letter first)
