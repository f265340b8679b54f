-- ===== src/Registry/Configs.antt =====
-- What cyclonedds/src/dds_domain.rs answers to a config, once the domain is shared.
use cyclonedds_rs.Common.{
  some-injective, ℕ, ◌≡◌, refl, sym, ap, ◌∙◌, Option, none, some, true, List, if◌then◌else◌,
  bytes_eq_iff, Bool-cases, inl, inr, ◌↔◌,
}
use cyclonedds_rs.Error.{precondition_not_met, Result, ok, err}
use cyclonedds_rs.Registry.{Maker, Shared, existing, created, Entries, get, get_or_create}
use cyclonedds_rs.Registry.Sharing.{
  ok-injective, err-ok, entity_of, get_or_create-registers, get_or_create_found,
}
use cyclonedds_rs.Registry.Domains
use Domains.{DdsDomain, DomainApi, existing_for, config_is, shared_domain, get_or_create_domain}

config_is_iff :
    (o : Option (List ℕ)) (config : List ℕ) → (config_is o config ≡ true) ↔ (o ≡ some config)
unfolding config_is
config_is_iff none config = ((λ h. cc), λ h. cc)
config_is_iff (some c) config = (
  (λ h. ap some (sym ((bytes_eq_iff config c).0 h))),
  λ h. (bytes_eq_iff config c).1 (sym (some-injective h)),
)

existing_for_inv :
    (d d' : DdsDomain) (config : Option (List ℕ)) → existing_for d config ≡ ok d' → d ≡ d'
unfolding existing_for
existing_for_inv d d' none h = ok-injective h
existing_for_inv d d' (some requested) h = elim (Bool-cases (config_is d.config requested)) [
  | inl t ↦ ok-injective (ap (λ b. if b then ok d else err precondition_not_met) (sym t) ∙ h)
  | inr f ↦ elim (err-ok (ap (λ b. if b then ok d else err precondition_not_met) (sym f) ∙ h)) [ ]
]

shared_domain_inv :
    (config : Option (List ℕ)) (r : Result (Shared DdsDomain)) (d : DdsDomain)
    → shared_domain config r ≡ ok d
    → (shared : Shared DdsDomain) × (r ≡ ok shared) × (entity_of shared ≡ d)
unfolding shared_domain
shared_domain_inv config (err e) d h = elim (err-ok h) [ ]
shared_domain_inv config (ok (created q)) d h = (created q, refl, ok-injective h)
shared_domain_inv config (ok (existing q)) d h = (existing q, refl, existing_for_inv q d config h)

module _ {W : Type 0} (api : DomainApi W) (domain : ℕ) where
  get_or_create_domain-registers :
      (config : Option (List ℕ)) (entries : Entries DdsDomain) (w : W) (d : DdsDomain)
      → (get_or_create_domain api domain config entries w).0 ≡ ok d
      → get domain (get_or_create_domain api domain config entries w).1 ≡ some d
  unfolding get_or_create_domain
  get_or_create_domain-registers config entries w d h =
      let m : Maker W DdsDomain = Domains.maker api domain config in
      let (shared, e, same) = shared_domain_inv config (get_or_create m domain entries w).0 d h in
      get_or_create-registers m domain entries w shared e ∙ ap some same

  get_or_create_domain_found :
      (config : Option (List ℕ)) (entries : Entries DdsDomain) (w : W) (d : DdsDomain)
      → get domain entries ≡ some d
      → get_or_create_domain api domain config entries w ≡ (existing_for d config, entries, w)
  unfolding get_or_create_domain shared_domain
  get_or_create_domain_found config entries w d h =
      rw (get_or_create_found (Domains.maker api domain config) domain entries w d h) refl

  -- Once a domain was returned, a later call without config returns it; a call with a config returns
  -- it if the domain was created with the same one, and otherwise fails with PreconditionNotMet; and
  -- neither creates anything.
  pub domain_configs :
      (config : Option (List ℕ)) (entries : Entries DdsDomain) (w : W) (d : DdsDomain)
      (requested : List ℕ)
      → let (first, entries', w') = get_or_create_domain api domain config entries w in
        first ≡ ok d
        → (get_or_create_domain api domain none entries' w' ≡ (ok d, entries', w'))
          × (get_or_create_domain api domain (some requested) entries' w' ≡ (
            if config_is d.config requested then ok d else err precondition_not_met,
            entries',
            w',
          ))
          × ((config_is d.config requested ≡ true) ↔ (d.config ≡ some requested))
  unfolding existing_for
  domain_configs config entries w d requested h =
      let (first, entries', w') = get_or_create_domain api domain config entries w in
      let g : get domain entries' ≡ some d = get_or_create_domain-registers config entries w d h in
      (
        get_or_create_domain_found none entries' w' d g,
        get_or_create_domain_found (some requested) entries' w' d g,
        config_is_iff d.config requested,
      )
