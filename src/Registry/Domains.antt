-- ===== src/Registry/Domains.antt =====
-- cyclonedds/src/dds_domain.rs: the shared domains. `dds_create_domain` and `dds_delete` of the C
-- library are the fields of `DomainApi`. A config is its bytes and has no NUL byte, at which
-- `CString::new` would panic.
use cyclonedds_rs.Common.{
  ℕ, zero, suc, Option, none, some, Bool, false, List, if◌then◌else◌, bytes_eq,
}
use cyclonedds_rs.Error.{
  Result, ok, err, ReturnCode, non_negative, negative, from_code, precondition_not_met,
}
use cyclonedds_rs.Registry.{Maker, Shared, existing, created, Entries, get_or_create}

pub record DdsDomain : Type 0 where
  pub entity : ℕ
  pub config : Option (List ℕ)

pub record DomainApi (W : Type 0) : Type 0 where
  pub dds_create_domain : ℕ → Option (List ℕ) → W → ReturnCode × W
  pub dds_delete : ℕ → W → W

-- A handle is positive.
unfoldable pub domain_of_code : Option (List ℕ) → ReturnCode → Result DdsDomain
domain_of_code config (non_negative (suc n)) = ok (record { entity = suc n; config = config })
domain_of_code config (non_negative zero) = err (from_code (non_negative zero))
domain_of_code config (negative n) = err (from_code (negative n))

unfoldable pub create : {W : Type 0} → DomainApi W → ℕ → Option (List ℕ) → W → Result DdsDomain × W
unfolding domain_of_code
create api domain config w =
    let (code, w') = api.dds_create_domain domain config w in (domain_of_code config code, w')

unfoldable pub maker : {W : Type 0} → DomainApi W → ℕ → Option (List ℕ) → Maker W DdsDomain
maker api domain config = record {
  create = create api domain config;
  resolve_key = λ d. ok domain;
  drop = λ d. api.dds_delete d.entity;
}

unfoldable pub config_is : Option (List ℕ) → List ℕ → Bool
config_is none requested = false
config_is (some config) requested = bytes_eq requested config

unfoldable pub existing_for : DdsDomain → Option (List ℕ) → Result DdsDomain
unfolding config_is
existing_for d none = ok d
existing_for d (some requested) =
    if config_is d.config requested then ok d else err precondition_not_met

unfoldable pub shared_domain : Option (List ℕ) → Result (Shared DdsDomain) → Result DdsDomain
shared_domain config (err e) = err e
shared_domain config (ok (created d)) = ok d
shared_domain config (ok (existing d)) = existing_for d config

unfoldable pub get_or_create_domain :
    {W : Type 0}
    → DomainApi W
    → ℕ
    → Option (List ℕ)
    → Entries DdsDomain
    → W
    → Result DdsDomain × Entries DdsDomain × W
get_or_create_domain api domain config entries w =
    let (shared, entries', w') = get_or_create (maker api domain config) domain entries w in
    (shared_domain config shared, entries', w')
