-- ===== src/Registry/Examples.antt =====
-- Concrete registries for the theorems on cyclonedds/src/shared_registry.rs and its two clients: the
-- state of the C library is the next handle, a participant's domain is 3, and dropping an entity
-- does nothing.
use cyclonedds_rs.Common.{ℕ, suc, ◌+◌, ◌≡◌, refl, none, some, List, [], ◌∷◌}
use cyclonedds_rs.Error.{non_negative, ok}
use cyclonedds_rs.Registry.{
  Maker, get, insert, leak, register, resolved, made, looked_up, get_or_create,
}
use cyclonedds_rs.Registry.Domains
use Domains.{DdsDomain, DomainApi}
use cyclonedds_rs.Registry.Participants
use Participants.{
  DdsParticipant, ParticipantApi, participant_of_code, id_of_code, domain_id, has_explicit_args,
  shared_participant, get_or_create_with,
}
use cyclonedds_rs.Registry.Singletons.{run_with, one_participant_per_domain}

abbrev maker_of_numbers : Maker ℕ ℕ
maker_of_numbers = record { create = λ w. (ok w, w + 1); resolve_key = λ e. ok 3; drop = λ e w. w }

abbrev calls : List (ℕ × Maker ℕ ℕ)
calls = (7, maker_of_numbers) ∷ (3, maker_of_numbers) ∷ []

abbrev api : ParticipantApi ℕ ℕ ℕ
api = record {
  dds_create_participant = λ domain qos listener w. (non_negative (suc w), w + 1);
  dds_get_domainid = λ p. (non_negative 0, 3);
  dds_delete = λ p w. w;
}

abbrev participant : DdsParticipant ℕ
participant = record { entity = 1; listener = none }

abbrev domain_api : DomainApi ℕ
domain_api = record {
  dds_create_domain = λ domain config w. (non_negative (suc w), w + 1);
  dds_delete = λ d w. w;
}

abbrev config : List ℕ
config = 60 ∷ 62 ∷ []

abbrev domain : DdsDomain
domain = record { entity = 1; config = some config }

-- The second call asks for the default domain, after another one has failed.
one_participant_per_domain_example : participant ≡ participant
one_participant_per_domain_example =
    one_participant_per_domain api [] ((some 3, some 4, none) ∷ []) 0 (some 3) none none none none
      none participant participant
      (unfold run_with get_or_create_with shared_participant Participants.maker Participants.create
          participant_of_code domain_id id_of_code has_explicit_args get_or_create looked_up made
          resolved register get in
        refl)
      (unfold run_with get_or_create_with shared_participant Participants.maker Participants.create
          participant_of_code domain_id id_of_code has_explicit_args get_or_create looked_up made
          resolved register get insert leak in
        refl)
      refl
