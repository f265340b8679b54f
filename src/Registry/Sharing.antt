-- ===== src/Registry/Sharing.antt =====
-- What the registry of cyclonedds/src/shared_registry.rs keeps: an entity once registered stays, and
-- answers every later call for its key.
use cyclonedds_rs.Common.{ℕ, ◌≡◌, refl, ◌⊎◌, inl, Option, none, some, List, [], ◌∷◌, arith, ==_self}
use mathlib.Core.Path.{subst}
use cyclonedds_rs.Error.{DdsError, Result, ok, err}
use cyclonedds_rs.Registry.{
  Maker, Shared, existing, created, Entries, get, insert, leak, register, resolved, made, looked_up,
  get_or_create,
}

pub ok-injective {ℓ} : {A : Type ℓ} {a b : A} → ok a ≡ ok b → a ≡ b
ok-injective h = cc

pub err-ok {ℓ} : {A : Type ℓ} {e : DdsError} {a : A} → err e ≡ ok a → ⊥
err-ok h = cc

abbrev pub entity_of : {T : Type 0} → Shared T → T
entity_of (existing entity) = entity
entity_of (created entity) = entity

module _ {T : Type 0} where
  pub get-insert :
      (key : ℕ) (entity : T) (entries : Entries T)
      → get key (insert key entity entries) ≡ some entity
  unfolding get insert
  get-insert key entity entries = rw (==_self key) refl

  -- Inserting at a key that holds nothing, or the same entity, changes no entry.
  pub get-insert_keeps :
      (key other : ℕ) (entity found : T) (entries : Entries T)
      → (get key entries ≡ none) ⊎ (get key entries ≡ some entity)
      → get other entries ≡ some found
      → get other (insert key entity entries) ≡ some found
  unfolding get insert
  get-insert_keeps key other entity found entries h e = ground arith

  pub get-leak :
      (key actual : ℕ) (entity : T) (entries : Entries T)
      → (get key (leak key actual entity entries) ≡ some entity)
        × (get actual (leak key actual entity entries) ≡ some entity)
  unfolding leak get insert
  get-leak key actual entity entries = ground arith

  pub get-leak_keeps :
      (key actual other : ℕ) (entity found : T) (entries : Entries T)
      → get key entries ≡ none
      → get actual entries ≡ none
      → get other entries ≡ some found
      → get other (leak key actual entity entries) ≡ some found
  unfolding leak get insert
  get-leak_keeps key actual other entity found entries k a e = ground arith

-- What a call of `get_or_create` does, branch by branch.
pub data Call {W T : Type 0} (m : Maker W T) (key : ℕ) (entries : Entries T) (w : W)
    : Result (Shared T) → Entries T → W → Type 0 where
  hit :
      (entity : T)
      → get key entries ≡ some entity
      → Call m key entries w (ok (existing entity)) entries w
  failed : (e : _) (w' : W) → get key entries ≡ none → Call m key entries w (err e) entries w'
  aliased :
      (entity old : T) (actual : ℕ) (w' : W)
      → get key entries ≡ none
      → m.create w ≡ (ok entity, w')
      → m.resolve_key entity ≡ ok actual
      → get actual entries ≡ some old
      → Call m key entries w (ok (existing old)) (insert key old entries) (m.drop entity w')
  leaked :
      (entity : T) (actual : ℕ) (w' : W)
      → get key entries ≡ none
      → m.create w ≡ (ok entity, w')
      → m.resolve_key entity ≡ ok actual
      → get actual entries ≡ none
      → Call m key entries w (ok (created entity)) (leak key actual entity entries) w'

module _ {W T : Type 0} (m : Maker W T) (key : ℕ) (entries : Entries T) (w : W) where
  register-Call :
      (entity : T) (actual : ℕ) (w' : W) (o : Option T)
      → get key entries ≡ none
      → m.create w ≡ (ok entity, w')
      → m.resolve_key entity ≡ ok actual
      → get actual entries ≡ o
      → let (result, entries', w'') = register m key entity actual o entries w' in
        Call m key entries w result entries' w''
  unfolding register
  register-Call entity actual w' (some old) n c r g = aliased entity old actual w' n c r g
  register-Call entity actual w' none n c r g = leaked entity actual w' n c r g

  resolved-Call :
      (entity : T) (w' : W) (r : Result ℕ)
      → get key entries ≡ none
      → m.create w ≡ (ok entity, w')
      → m.resolve_key entity ≡ r
      → let (result, entries', w'') = resolved m key entity r entries w' in
        Call m key entries w result entries' w''
  unfolding resolved
  resolved-Call entity w' (err e) n c h = failed e (m.drop entity w') n
  resolved-Call entity w' (ok actual) n c h =
      register-Call entity actual w' (get actual entries) n c h refl

  made-Call :
      (w' : W) (r : Result T)
      → get key entries ≡ none
      → m.create w ≡ (r, w')
      → let (result, entries', w'') = made m key r entries w' in
        Call m key entries w result entries' w''
  unfolding made
  made-Call w' (err e) n c = failed e w' n
  made-Call w' (ok entity) n c = resolved-Call entity w' (m.resolve_key entity) n c refl

  looked_up-Call :
      (o : Option T)
      → get key entries ≡ o
      → let (result, entries', w') = looked_up m key o entries w in
        Call m key entries w result entries' w'
  unfolding looked_up
  looked_up-Call (some entity) g = hit entity g
  looked_up-Call none g = made-Call (m.create w).1 (m.create w).0 g refl

  pub get_or_create-Call :
      let (result, entries', w') = get_or_create m key entries w in
      Call m key entries w result entries' w'
  unfolding get_or_create
  get_or_create-Call = looked_up-Call (get key entries) refl

module _ {W T : Type 0} {m : Maker W T} {key : ℕ} {entries : Entries T} {w : W} where
  -- A call changes no entry.
  pub Call-keeps :
      {result : Result (Shared T)} {entries' : Entries T} {w' : W} (other : ℕ) (found : T)
      → Call m key entries w result entries' w'
      → get other entries ≡ some found
      → get other entries' ≡ some found
  Call-keeps other found (hit entity g) e = e
  Call-keeps other found (failed err' w'' n) e = e
  Call-keeps other found (aliased entity old actual w'' n c r g) e =
      get-insert_keeps key other old found entries (inl n) e
  Call-keeps other found (leaked entity actual w'' n c r g) e =
      get-leak_keeps key actual other entity found entries n g e

  -- A call that returns an entity has it registered under the key.
  pub Call-registers :
      {entries' : Entries T} {w' : W} (shared : Shared T)
      → Call m key entries w (ok shared) entries' w'
      → get key entries' ≡ some (entity_of shared)
  Call-registers shared (hit entity g) = g
  Call-registers shared (aliased entity old actual w'' n c r g) = get-insert key old entries
  Call-registers shared (leaked entity actual w'' n c r g) = (get-leak key actual entity entries).0

module _ {W T : Type 0} where
  -- The registry after a sequence of calls.
  pub run : List (ℕ × Maker W T) → Entries T → W → Entries T × W
  run [] entries w = (entries, w)
  run ((key, m) ∷ calls) entries w =
      let (result, entries', w') = get_or_create m key entries w in run calls entries' w'

  pub get_or_create-keeps :
      (m : Maker W T) (key other : ℕ) (found : T) (entries : Entries T) (w : W)
      → get other entries ≡ some found
      → let (result, entries', w') = get_or_create m key entries w in
        get other entries' ≡ some found
  get_or_create-keeps m key other found entries w e =
      Call-keeps other found (get_or_create-Call m key entries w) e

  pub run-keeps :
      (calls : List (ℕ × Maker W T)) (entries : Entries T) (w : W) (key : ℕ) (found : T)
      → get key entries ≡ some found
      → get key (run calls entries w).0 ≡ some found
  unfolding run
  run-keeps [] entries w key found e = e
  run-keeps ((k, m) ∷ calls) entries w key found e =
      let (result, entries', w') = get_or_create m k entries w in
      run-keeps calls entries' w' key found (get_or_create-keeps m k key found entries w e)

  pub get_or_create-registers :
      (m : Maker W T) (key : ℕ) (entries : Entries T) (w : W) (shared : Shared T)
      → (get_or_create m key entries w).0 ≡ ok shared
      → let (result, entries', w') = get_or_create m key entries w in
        get key entries' ≡ some (entity_of shared)
  get_or_create-registers m key entries w shared e =
      let (result, entries', w') = get_or_create m key entries w in
      Call-registers shared
        (subst (λ r. Call m key entries w r entries' w') e (get_or_create-Call m key entries w))

  -- A call for a registered key creates nothing and changes nothing.
  pub get_or_create_found :
      (m : Maker W T) (key : ℕ) (entries : Entries T) (w : W) (found : T)
      → get key entries ≡ some found
      → get_or_create m key entries w ≡ (ok (existing found), entries, w)
  unfolding get_or_create looked_up
  get_or_create_found m key entries w found e = rw (e) refl

  -- After a call that returned an entity, whatever calls follow it, a call for the same key returns
  -- that entity, creates nothing and changes nothing.
  pub shared_once :
      (m m' : Maker W T) (key : ℕ) (entries : Entries T) (w : W) (shared : Shared T)
      (calls : List (ℕ × Maker W T))
      → (get_or_create m key entries w).0 ≡ ok shared
      → let (result, entries', w') = get_or_create m key entries w in
        let (later, now) = run calls entries' w' in
        get_or_create m' key later now ≡ (ok (existing (entity_of shared)), later, now)
  shared_once m m' key entries w shared calls e =
      let (result, entries', w') = get_or_create m key entries w in
      let (later, now) = run calls entries' w' in
      get_or_create_found m' key later now (entity_of shared) (
        run-keeps calls entries' w' key (entity_of shared)
          (get_or_create-registers m key entries w shared e))
