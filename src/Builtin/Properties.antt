-- ===== src/Builtin/Properties.antt =====
-- cyclonedds/src/dds_builtin.rs: `property`, which reads the properties of a participant.
use cyclonedds_rs.Common.{
  Text, ℕ, List, [], ◌∷◌, Option, none, some, if◌then◌else◌, bytes_eq, Checked, accepted,
  on_accepted,
}

-- The names that the C library gives the properties.
pub record Names : Type 0 where
  pub process_name : Text
  pub pid : Text
  pub host_name : Text
  pub network_address : Text

pub record CddsParticipantProperty : Type 0 where
  pub id : ℕ
  pub process_name : Text
  pub pid : ℕ
  pub host_name : Text
  pub network_addresses : Text

-- What the loop has found.
pub record FoundProperties : Type 0 where
  pub process_name : Option Text
  pub pid : Option ℕ
  pub host_name : Option Text
  pub network_addresses : Option Text

abbrev pub nothing_found : FoundProperties
nothing_found = record {
  process_name = none;
  pid = none;
  host_name = none;
  network_addresses = none;
}

-- `parse().unwrap_or(0)`.
abbrev pub or_zero : Option ℕ → ℕ
or_zero none = 0
or_zero (some n) = n

unfoldable pub whole : ℕ → FoundProperties → Option CddsParticipantProperty
whole guid found = elim found.process_name [
  | none ↦ none
  | some process_name ↦ elim found.pid [
    | none ↦ none
    | some pid ↦ elim found.host_name [
      | none ↦ none
      | some host_name ↦ elim found.network_addresses [
        | none ↦ none
        | some network_addresses ↦ some (record {
          id = guid;
          process_name = process_name;
          pid = pid;
          host_name = host_name;
          network_addresses = network_addresses;
        })
      ]
    ]
  ]
]

-- `to_str` refuses what is no UTF-8, with the error of the library; `parse` reads a `u32`.
module _ {E : Type 0} (to_str : Text → Checked E Text) (parse : Text → Option ℕ)
    (names : Names) where
  unfoldable pub note_property : FoundProperties → Text × Text → Checked E FoundProperties
  note_property found (name, value) =
      if bytes_eq name names.process_name
      then on_accepted (to_str value) (λ text. accepted (record found { process_name = some text }))
      else if bytes_eq name names.pid
      then on_accepted (to_str value)
          (λ text. accepted (record found { pid = some (or_zero (parse text)) }))
      else if bytes_eq name names.host_name
      then on_accepted (to_str value) (λ text. accepted (record found { host_name = some text }))
      else if bytes_eq name names.network_address
      then on_accepted (to_str value)
          (λ text. accepted (record found { network_addresses = some text }))
      else accepted found

  -- The loop over the properties.
  unfoldable pub note_properties : FoundProperties → List (Text × Text) → Checked E FoundProperties
  note_properties found [] = accepted found
  note_properties found (prop ∷ props) =
      on_accepted (note_property found prop) (λ found'. note_properties found' props)

  -- Of a participant that has left there are no properties.
  unfoldable pub property :
      ℕ → Option (List (Text × Text)) → Checked E (Option CddsParticipantProperty)
  property guid none = accepted none
  property guid (some props) =
      on_accepted (note_properties nothing_found props) (λ found. accepted (whole guid found))
