-- ===== src/Registry/Singletons.antt =====
-- The registry of cyclonedds/src/shared_registry.rs has one entity for each domain, and what that
-- means for the participants of cyclonedds/src/dds_participant.rs and the domains of
-- cyclonedds/src/dds_domain.rs.
use cyclonedds_rs.Common.{
  none-some, some-injective, ℕ, ◌≡◌, refl, sym, ap, ◌∙◌, ◌⊎◌, inl, inr, Option, some, Bool, true,
  false, List, [], ◌∷◌, if◌then◌else◌, arith,
}
use cyclonedds_rs.Error.{precondition_not_met, Result, ok, err}
use cyclonedds_rs.Registry.{
  Maker, Shared, existing, created, Entries, get, insert, leak, get_or_create,
}
use cyclonedds_rs.Registry.Sharing.{
  ok-injective, err-ok, Call, hit, failed, aliased, leaked, entity_of, get-insert_keeps, get-leak,
  get-leak_keeps, get_or_create-Call, get_or_create-keeps, get_or_create-registers,
  get_or_create_found,
}
use cyclonedds_rs.Registry.Participants
use Participants.{
  DdsParticipant, ParticipantApi, domain_or_default, domain_id, has_explicit_args,
  shared_participant, get_or_create_with,
}

-- Every registered entity is registered under the domain that it belongs to.
abbrev pub WellFormed : {T : Type 0} → (T → Result ℕ) → Entries T → Type 0
WellFormed {T} resolve entries =
    (key : ℕ) (e : T)
    → get key entries ≡ some e
    → (a : ℕ) × (resolve e ≡ ok a) × (get a entries ≡ some e)

module _ {T : Type 0} where
  WellFormed-nil : (resolve : T → Result ℕ) → WellFormed resolve []
  unfolding get
  WellFormed-nil resolve key e h = elim (none-some h) [ ]

  get-insert_inv :
      (key other : ℕ) (entity found : T) (entries : Entries T)
      → get other (insert key entity entries) ≡ some found
      → (found ≡ entity) ⊎ (get other entries ≡ some found)
  unfolding get insert
  get-insert_inv key other entity found entries e = ground arith

  get-leak_inv :
      (key actual other : ℕ) (entity found : T) (entries : Entries T)
      → get other (leak key actual entity entries) ≡ some found
      → (found ≡ entity) ⊎ (get other entries ≡ some found)
  unfolding leak get insert
  get-leak_inv key actual other entity found entries e = ground arith

  -- In a well-formed registry two entities of one domain are the same.
  WellFormed-unique :
      (resolve : T → Result ℕ) (entries : Entries T)
      → WellFormed resolve entries
      → (key key' : ℕ) (e e' : T) → get key entries ≡ some e
      → get key' entries ≡ some e'
      → resolve e ≡ resolve e'
      → e ≡ e'
  WellFormed-unique resolve entries wf key key' e e' g g' same =
      let (a, r, h) = wf key e g in
      let (a', r', h') = wf key' e' g' in
      let at : a ≡ a' = ok-injective (sym r ∙ same ∙ r') in
      some-injective (sym h ∙ ap (λ k. get k entries) at ∙ h')

module _ {W T : Type 0} {m : Maker W T} {key : ℕ} {entries : Entries T} {w : W} where
  Call-WellFormed :
      {result : Result (Shared T)} {entries' : Entries T} {w' : W}
      → Call m key entries w result entries' w'
      → WellFormed m.resolve_key entries
      → WellFormed m.resolve_key entries'
  Call-WellFormed (hit entity g) wf = wf
  Call-WellFormed (failed e w'' n) wf = wf
  Call-WellFormed (aliased entity old actual w'' n c r g) wf = λ k e h.
      let from_entry : (found : T) (k' : ℕ)
          → get k' entries ≡ some found
          → (a : ℕ) × (m.resolve_key found ≡ ok a) × (get a (insert key old entries) ≡ some found) =
        λ found k' h'.
          let (a, r', h'') = wf k' found h' in
          (a, r', get-insert_keeps key a old found entries (inl n) h'') in
      elim (get-insert_inv key k old e entries h) [
        | inl same ↦ from_entry e actual (g ∙ ap some (sym same))
        | inr there ↦ from_entry e k there
      ]
  Call-WellFormed (leaked entity actual w'' n c r g) wf = λ k e h.
      elim (get-leak_inv key actual k entity e entries h) [
        | inl same ↦ (
          actual,
          ap m.resolve_key same ∙ r,
          (get-leak key actual entity entries).1 ∙ ap some (sym same),
        )
        | inr there ↦
            let (a, r', h') = wf k e there in
            (a, r', get-leak_keeps key actual a entity e entries n g h')
      ]

module _ {W T : Type 0} where
  get_or_create-WellFormed :
      (m : Maker W T) (key : ℕ) (entries : Entries T) (w : W)
      → WellFormed m.resolve_key entries
      → WellFormed m.resolve_key (get_or_create m key entries w).1
  get_or_create-WellFormed m key entries w wf =
      Call-WellFormed (get_or_create-Call m key entries w) wf

module _ {W Q L : Type 0} (api : ParticipantApi W Q L) where
  -- The registry of participants after a sequence of calls.
  unfoldable pub run_with :
      List (Option ℕ × Option Q × Option L)
      → Entries (DdsParticipant L)
      → W
      → Entries (DdsParticipant L) × W
  run_with [] entries w = (entries, w)
  run_with ((domain, qos, listener) ∷ calls) entries w =
      let (result, entries', w') = get_or_create_with api domain qos listener entries w in
      run_with calls entries' w'

  get_or_create_with-keeps :
      (domain : Option ℕ) (qos : Option Q) (listener : Option L)
      (entries : Entries (DdsParticipant L)) (w : W) (key : ℕ) (found : DdsParticipant L)
      → get key entries ≡ some found
      → get key (get_or_create_with api domain qos listener entries w).1 ≡ some found
  unfolding get_or_create_with
  get_or_create_with-keeps domain qos listener entries w key found e =
      get_or_create-keeps (Participants.maker api domain qos listener) (domain_or_default domain)
        key found entries w e

  run_with-keeps :
      (calls : List (Option ℕ × Option Q × Option L)) (entries : Entries (DdsParticipant L)) (w : W)
      (key : ℕ) (found : DdsParticipant L)
      → get key entries ≡ some found
      → get key (run_with calls entries w).0 ≡ some found
  unfolding run_with
  run_with-keeps [] entries w key found e = e
  run_with-keeps ((domain, qos, listener) ∷ calls) entries w key found e =
      let (result, entries', w') = get_or_create_with api domain qos listener entries w in
      run_with-keeps calls entries' w' key found
        (get_or_create_with-keeps domain qos listener entries w key found e)

  get_or_create_with-WellFormed :
      (domain : Option ℕ) (qos : Option Q) (listener : Option L)
      (entries : Entries (DdsParticipant L)) (w : W)
      → WellFormed (domain_id api) entries
      → WellFormed (domain_id api) (get_or_create_with api domain qos listener entries w).1
  unfolding get_or_create_with Participants.maker
  get_or_create_with-WellFormed domain qos listener entries w wf =
      get_or_create-WellFormed (Participants.maker api domain qos listener)
        (domain_or_default domain) entries w wf

  run_with-WellFormed :
      (calls : List (Option ℕ × Option Q × Option L)) (entries : Entries (DdsParticipant L)) (w : W)
      → WellFormed (domain_id api) entries
      → WellFormed (domain_id api) (run_with calls entries w).0
  unfolding run_with
  run_with-WellFormed [] entries w wf = wf
  run_with-WellFormed ((domain, qos, listener) ∷ calls) entries w wf =
      let (result, entries', w') = get_or_create_with api domain qos listener entries w in
      run_with-WellFormed calls entries' w'
        (get_or_create_with-WellFormed domain qos listener entries w wf)

  shared_participant_inv :
      (explicit : Bool) (r : Result (Shared (DdsParticipant L))) (p : DdsParticipant L)
      → shared_participant api explicit r ≡ ok p
      → (shared : Shared (DdsParticipant L)) × (r ≡ ok shared) × (entity_of shared ≡ p)
  unfolding shared_participant
  shared_participant_inv explicit (err e) p h = elim (err-ok h) [ ]
  shared_participant_inv explicit (ok (created q)) p h = (created q, refl, ok-injective h)
  shared_participant_inv true (ok (existing q)) p h = elim (err-ok h) [ ]
  shared_participant_inv false (ok (existing q)) p h = (existing q, refl, ok-injective h)

  get_or_create_with-registers :
      (domain : Option ℕ) (qos : Option Q) (listener : Option L)
      (entries : Entries (DdsParticipant L)) (w : W) (p : DdsParticipant L)
      → (get_or_create_with api domain qos listener entries w).0 ≡ ok p
      → get (domain_or_default domain) (get_or_create_with api domain qos listener entries w).1
        ≡ some p
  unfolding get_or_create_with
  get_or_create_with-registers domain qos listener entries w p h =
      let m : Maker W (DdsParticipant L) = Participants.maker api domain qos listener in
      let (shared, e, same) =
        shared_participant_inv (has_explicit_args api qos listener)
          (get_or_create m (domain_or_default domain) entries w).0 p h in
      get_or_create-registers m (domain_or_default domain) entries w shared e ∙ ap some same

  get_or_create_with_found :
      (domain : Option ℕ) (qos : Option Q) (listener : Option L)
      (entries : Entries (DdsParticipant L)) (w : W) (p : DdsParticipant L)
      → get (domain_or_default domain) entries ≡ some p
      → get_or_create_with api domain qos listener entries w ≡ (
        if has_explicit_args api qos listener then err precondition_not_met else ok p,
        entries,
        w,
      )
  unfolding get_or_create_with shared_participant
  get_or_create_with_found domain qos listener entries w p h =
      rw
        (get_or_create_found (Participants.maker api domain qos listener) (domain_or_default domain)
          entries w p h)
        refl

  -- From an empty registry on, whatever calls are made before and in between, two calls that return
  -- participants of the same domain (the default one requested by its number or not) return the
  -- same participant.
  pub one_participant_per_domain :
      (before between : List (Option ℕ × Option Q × Option L)) (w : W) (domain domain' : Option ℕ)
      (qos qos' : Option Q) (listener listener' : Option L) (p p' : DdsParticipant L)
      → let (entries1, w1) = run_with before [] w in
        let (first, entries2, w2) = get_or_create_with api domain qos listener entries1 w1 in
        let (entries3, w3) = run_with between entries2 w2 in
        let second = (get_or_create_with api domain' qos' listener' entries3 w3).0 in
        first ≡ ok p → second ≡ ok p' → domain_id api p ≡ domain_id api p' → p ≡ p'
  one_participant_per_domain before between w domain domain' qos qos' listener listener' p p' f s
        same =
      let (entries1, w1) = run_with before [] w in
      let (first, entries2, w2) = get_or_create_with api domain qos listener entries1 w1 in
      let (entries3, w3) = run_with between entries2 w2 in
      let (second, entries4, w4) = get_or_create_with api domain' qos' listener' entries3 w3 in
      let kept : get (domain_or_default domain) entries3 ≡ some p =
        run_with-keeps between entries2 w2 (domain_or_default domain) p
          (get_or_create_with-registers domain qos listener entries1 w1 p f) in
      let wf1 : WellFormed (domain_id api) entries1 =
        run_with-WellFormed before [] w (WellFormed-nil (domain_id api)) in
      let wf2 : WellFormed (domain_id api) entries2 =
        get_or_create_with-WellFormed domain qos listener entries1 w1 wf1 in
      let wf3 : WellFormed (domain_id api) entries3 = run_with-WellFormed between entries2 w2 wf2 in
      WellFormed-unique (domain_id api) entries4
        (get_or_create_with-WellFormed domain' qos' listener' entries3 w3 wf3)
        (domain_or_default domain) (domain_or_default domain') p p'
        (get_or_create_with-keeps domain' qos' listener' entries3 w3 (domain_or_default domain) p
          kept)
        (get_or_create_with-registers domain' qos' listener' entries3 w3 p' s) same

  -- Once a participant was returned for a domain, a later call without QoS and listener returns it,
  -- a later call with one of them fails with PreconditionNotMet, and neither creates anything.
  pub participant_shared :
      (between : List (Option ℕ × Option Q × Option L)) (entries : Entries (DdsParticipant L))
      (w : W) (domain : Option ℕ) (qos qos' : Option Q) (listener listener' : Option L)
      (p : DdsParticipant L)
      → let (first, entries1, w1) = get_or_create_with api domain qos listener entries w in
        let (entries2, w2) = run_with between entries1 w1 in
        first ≡ ok p
        → get_or_create_with api domain qos' listener' entries2 w2 ≡ (
          if has_explicit_args api qos' listener' then err precondition_not_met else ok p,
          entries2,
          w2,
        )
  participant_shared between entries w domain qos qos' listener listener' p f =
      let (first, entries1, w1) = get_or_create_with api domain qos listener entries w in
      let (entries2, w2) = run_with between entries1 w1 in
      get_or_create_with_found domain qos' listener' entries2 w2 p (
        run_with-keeps between entries1 w1 (domain_or_default domain) p
          (get_or_create_with-registers domain qos listener entries w p f))
