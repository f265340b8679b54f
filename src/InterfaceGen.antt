-- ===== src/InterfaceGen.antt =====
-- cyclonedds/src/interface_gen.rs: the generator of IDL and .msg definitions. A string is its bytes.
-- A type that derives `DdsInterface` is a number; what the derive macro of dds_derive/src/lib.rs
-- writes for it (its package, its name, its definitions and the types of its fields) is the
-- parameter `Interfaces`.
pub mod Namespaces
pub mod Paths
pub mod Definitions
pub mod Messages
pub mod Types
mod Examples
use cyclonedds_rs.Common.{
  ℕ, Bool, true, false, List, [], ◌∷◌, ◌++◌, ◌&&◌, Option, none, some, if◌then◌else◌, bytes_eq,
}
pub use cyclonedds_rs.Common.{Text}

-- A package and a name.
abbrev pub Key : Type 0
Key = Text × Text

-- The types that implement `InterfaceRef`.
pub data FieldType : Type 0 where
  primitive : FieldType
  vec : FieldType → FieldType
  array : FieldType → ℕ → FieldType
  struct : ℕ → FieldType

unfoldable pub key_eq : Key → Key → Bool
key_eq (pkg, name) (pkg', name') = bytes_eq pkg pkg' && bytes_eq name name'

unfoldable pub contains : Key → List Key → Bool
contains key [] = false
contains key (k ∷ keys) = let rest = contains key keys in if key_eq key k then true else rest

abbrev pub Seen : Type 0
Seen = List (Key × Text)

unfoldable pub get_seen : Key → Seen → Option Text
get_seen key [] = none
get_seen key ((k, text) ∷ seen) =
    let rest = get_seen key seen in if key_eq key k then some text else rest

-- `last() == Some(&key)`.
unfoldable pub last_is : Key → List Key → Bool
last_is key [] = false
last_is key (k ∷ []) = key_eq key k
last_is key (k ∷ k' ∷ keys) = last_is key (k' ∷ keys)

unfoldable pub pop : List Key → List Key
pop [] = []
pop (k ∷ []) = []
pop (k ∷ k' ∷ keys) = k ∷ pop (k' ∷ keys)

-- The result of a registration: a panic for two definitions of one name, for a type that contains
-- itself (with the path from it to itself), and for a `finish` without its `enter`.
pub data Outcome {ℓ} (A : Type ℓ) : Type ℓ where
  done : A → Outcome A
  conflicting : Key → Outcome A
  cyclic : List Key → Outcome A
  out_of_order : Outcome A
  out_of_fuel : Outcome A

abbrev pub and_then {ℓ ℓ'} : {A : Type ℓ} {B : Type ℓ'} → Outcome A → (A → Outcome B) → Outcome B
and_then (done a) next = next a
and_then (conflicting key) next = conflicting key
and_then (cyclic path) next = cyclic path
and_then out_of_order next = out_of_order
and_then out_of_fuel next = out_of_fuel

-- `format_cycle`, before the names are joined: the path from the repeated key on, and the key.
unfoldable pub format_cycle : List Key → Key → List Key
format_cycle [] repeated = repeated ∷ []
format_cycle (k ∷ visiting) repeated =
    let rest = format_cycle visiting repeated in
    if key_eq k repeated then k ∷ visiting ++ repeated ∷ [] else rest
