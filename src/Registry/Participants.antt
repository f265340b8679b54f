-- ===== src/Registry/Participants.antt =====
-- cyclonedds/src/dds_participant.rs: the shared participants. The calls of the C library are the
-- fields of `ParticipantApi`; a QoS and a listener are values of types `Q` and `L`.
use cyclonedds_rs.Common.{ℕ, zero, suc, Option, none, some, Bool, true, false, if◌then◌else◌}
use cyclonedds_rs.Error.{
  Result, ok, err, ReturnCode, non_negative, negative, from_code, precondition_not_met,
}
use cyclonedds_rs.Registry.{Maker, Shared, existing, created, Entries, get_or_create}

pub record DdsParticipant (L : Type 0) : Type 0 where
  pub entity : ℕ
  pub listener : Option L

-- `dds_get_domainid` is its code and the number that it writes.
pub record ParticipantApi (W Q L : Type 0) : Type 0 where
  pub dds_create_participant : ℕ → Option Q → Option L → W → ReturnCode × W
  pub dds_get_domainid : ℕ → ReturnCode × ℕ
  pub dds_delete : ℕ → W → W

-- `DDS_DOMAIN_DEFAULT`, a u32.
abbrev pub domain_default : ℕ
domain_default = 4294967295

abbrev pub domain_or_default : Option ℕ → ℕ
domain_or_default none = domain_default
domain_or_default (some domain) = domain

unfoldable pub participant_of_code :
    {L : Type 0} → Option L → ReturnCode → Result (DdsParticipant L)
participant_of_code listener (non_negative (suc n)) =
    ok (record { entity = suc n; listener = listener })
participant_of_code listener (non_negative zero) = err (from_code (non_negative zero))
participant_of_code listener (negative n) = err (from_code (negative n))

unfoldable pub id_of_code : ReturnCode → ℕ → Result ℕ
id_of_code (non_negative zero) id = ok id
id_of_code (non_negative (suc n)) id = err (from_code (non_negative (suc n)))
id_of_code (negative n) id = err (from_code (negative n))

module _ {W Q L : Type 0} (api : ParticipantApi W Q L) where
  unfoldable pub create : Option ℕ → Option Q → Option L → W → Result (DdsParticipant L) × W
  unfolding participant_of_code
  create domain qos listener w =
      let (code, w') = api.dds_create_participant (domain_or_default domain) qos listener w in
      (participant_of_code listener code, w')

  unfoldable pub domain_id : DdsParticipant L → Result ℕ
  unfolding id_of_code
  domain_id p = let (code, id) = api.dds_get_domainid p.entity in id_of_code code id

  unfoldable pub maker : Option ℕ → Option Q → Option L → Maker W (DdsParticipant L)
  maker domain qos listener = record {
    create = create domain qos listener;
    resolve_key = domain_id;
    drop = λ p. api.dds_delete p.entity;
  }

  unfoldable pub has_explicit_args : Option Q → Option L → Bool
  has_explicit_args none none = false
  has_explicit_args none (some listener) = true
  has_explicit_args (some qos) listener = true

  unfoldable pub shared_participant :
      Bool → Result (Shared (DdsParticipant L)) → Result (DdsParticipant L)
  shared_participant explicit (err e) = err e
  shared_participant explicit (ok (created p)) = ok p
  shared_participant explicit (ok (existing p)) =
      if explicit then err precondition_not_met else ok p

  unfoldable pub get_or_create_with :
      Option ℕ
      → Option Q
      → Option L
      → Entries (DdsParticipant L)
      → W
      → Result (DdsParticipant L) × Entries (DdsParticipant L) × W
  get_or_create_with domain qos listener entries w =
      let (shared, entries', w') =
        get_or_create (maker domain qos listener) (domain_or_default domain) entries w in
      (shared_participant (has_explicit_args qos listener) shared, entries', w')
