-- ===== src/Registry.antt =====
-- cyclonedds/src/shared_registry.rs: the registry that keeps one shared entity for each domain. The
-- hash map is an association list, newest entry first. What the C library knows is a state `W` that
-- creating and dropping an entity change; an entity of type `T` stands for the leaked reference to
-- it. The lock makes each call one step.
pub mod Sharing
pub mod Domains
pub mod Participants
pub mod Singletons
pub mod Configs
mod Examples
use cyclonedds_rs.Common.{
  ℕ, Option, none, some, Bool, true, false, List, [], ◌∷◌, ◌==◌, if◌then◌else◌,
}
use cyclonedds_rs.Error.{Result, ok, err}

-- The closures `create` and `resolve_key` of a call, and the drop of an entity.
pub record Maker (W T : Type 0) : Type 0 where
  pub create : W → Result T × W
  pub resolve_key : T → Result ℕ
  pub drop : T → W → W

pub data Shared (T : Type 0) : Type 0 where
  existing : T → Shared T
  created : T → Shared T

abbrev pub Entries : Type 0 → Type 0
Entries T = List (ℕ × T)

unfoldable pub get : {T : Type 0} → ℕ → Entries T → Option T
get key [] = none
get key ((k, entity) ∷ entries) =
    let rest = get key entries in if k == key then some entity else rest

unfoldable pub insert : {T : Type 0} → ℕ → T → Entries T → Entries T
insert key entity entries = (key, entity) ∷ entries

-- The entity is leaked: registered under its actual key, and under the requested one.
pub leak : {T : Type 0} → ℕ → ℕ → T → Entries T → Entries T
leak key actual entity entries =
    if key == actual
    then insert actual entity entries
    else insert key entity (insert actual entity entries)

register :
    {W T : Type 0} (m : Maker W T)
    → ℕ
    → T
    → ℕ
    → Option T
    → Entries T
    → W
    → Result (Shared T) × Entries T × W
unfolding leak
register m key entity actual (some old) entries w =
    (ok (existing old), insert key old entries, m.drop entity w)
register m key entity actual none entries w =
    (ok (created entity), leak key actual entity entries, w)

resolved :
    {W T : Type 0} (m : Maker W T)
    → ℕ
    → T
    → Result ℕ
    → Entries T
    → W
    → Result (Shared T) × Entries T × W
unfolding register
resolved m key entity (err e) entries w = (err e, entries, m.drop entity w)
resolved m key entity (ok actual) entries w =
    register m key entity actual (get actual entries) entries w

made :
    {W T : Type 0} (m : Maker W T)
    → ℕ
    → Result T
    → Entries T
    → W
    → Result (Shared T) × Entries T × W
unfolding resolved
made m key (err e) entries w = (err e, entries, w)
made m key (ok entity) entries w = resolved m key entity (m.resolve_key entity) entries w

looked_up :
    {W T : Type 0} (m : Maker W T)
    → ℕ
    → Option T
    → Entries T
    → W
    → Result (Shared T) × Entries T × W
unfolding made
looked_up m key (some entity) entries w = (ok (existing entity), entries, w)
looked_up m key none entries w = let (result, w') = m.create w in made m key result entries w'

unfoldable pub get_or_create :
    {W T : Type 0} (m : Maker W T) → ℕ → Entries T → W → Result (Shared T) × Entries T × W
unfolding looked_up
get_or_create m key entries w = looked_up m key (get key entries) entries w
