-- ===== src/Qos.antt =====
-- cyclonedds/src/dds_qos.rs: the quality of service. The object of the C library is the parameter
-- `QosApi`: a set of policies, each of them set or not, that `dds_qset_*` sets and `dds_qget_*`
-- reads. A `Duration` is its number of nanoseconds, a `NonZeroU16` a number.
pub mod Policies
pub mod Handles
mod Examples
use cyclonedds_rs.Common.{
  ℕ, zero, suc, ◌≡◌, Option, none, some, Bool, true, false, List, [], ◌∷◌, leb, if◌then◌else◌,
  length, ℤ, pos, negsuc, i64_max, saturating_mul,
}
use Prim.Native.Nat.{min}
use cyclonedds_rs.Error.{DdsError, bad_parameter, out_of_resources, Result, ok, err, and_then}

pub data HistoryKind : Type 0 where
  dds_history_keep_last : HistoryKind
  dds_history_keep_all : HistoryKind

pub data ReliabilityKind : Type 0 where
  dds_reliability_best_effort : ReliabilityKind
  dds_reliability_reliable : ReliabilityKind

pub data DurabilityKind : Type 0 where
  dds_durability_volatile : DurabilityKind
  dds_durability_transient_local : DurabilityKind
  dds_durability_transient : DurabilityKind
  dds_durability_persistent : DurabilityKind

-- The arguments of `dds_qset_durability_service`.
pub record DurabilityService : Type 0 where
  pub service_cleanup_delay : ℤ
  pub history_kind : HistoryKind
  pub history_depth : ℤ
  pub max_samples : ℤ
  pub max_instances : ℤ
  pub max_samples_per_instance : ℤ

-- What `dds_qget_*` returns and writes; a policy that is not set is missing.
pub record PolicyValues : Type 0 where
  pub durability : Option DurabilityKind
  pub history : Option (HistoryKind × ℤ)
  pub resource_limits : Option (ℤ × ℤ × ℤ)
  pub lifespan : Option ℤ
  pub deadline : Option ℤ
  pub latency_budget : Option ℤ
  pub ownership_strength : Option ℤ
  pub reliability : Option (ReliabilityKind × ℤ)
  pub transport_priority : Option ℤ
  pub durability_service : Option DurabilityService
  pub userdata : Option (List ℕ)

-- The C library: an object and its setters, each with the law that it sets its policy and leaves the
-- others alone. `dds_create_qos` may return null.
pub record QosApi : Type 1 where
  pub Qos : Type 0
  pub values : Qos → PolicyValues
  pub dds_create_qos : Option Qos
  pub dds_qset_durability : Qos → DurabilityKind → Qos
  pub dds_qset_history : Qos → HistoryKind → ℤ → Qos
  pub dds_qset_resource_limits : Qos → ℤ → ℤ → ℤ → Qos
  pub dds_qset_lifespan : Qos → ℤ → Qos
  pub dds_qset_deadline : Qos → ℤ → Qos
  pub dds_qset_latency_budget : Qos → ℤ → Qos
  pub dds_qset_ownership_strength : Qos → ℤ → Qos
  pub dds_qset_reliability : Qos → ReliabilityKind → ℤ → Qos
  pub dds_qset_transport_priority : Qos → ℤ → Qos
  pub dds_qset_durability_service : Qos → DurabilityService → Qos
  pub dds_qset_userdata : Qos → Option (List ℕ) → Qos
  pub set-durability :
      (q : Qos) (k : DurabilityKind)
      → values (dds_qset_durability q k) ≡ record (values q) { durability = some k }
  pub set-history :
      (q : Qos) (k : HistoryKind) (d : ℤ)
      → values (dds_qset_history q k d) ≡ record (values q) { history = some (k, d) }
  pub set-resource_limits :
      (q : Qos) (a b c : ℤ)
      → values (dds_qset_resource_limits q a b c)
        ≡ record (values q) { resource_limits = some (a, b, c) }
  pub set-lifespan :
      (q : Qos) (d : ℤ) → values (dds_qset_lifespan q d) ≡ record (values q) { lifespan = some d }
  pub set-deadline :
      (q : Qos) (d : ℤ) → values (dds_qset_deadline q d) ≡ record (values q) { deadline = some d }
  pub set-reliability :
      (q : Qos) (k : ReliabilityKind) (d : ℤ)
      → values (dds_qset_reliability q k d) ≡ record (values q) { reliability = some (k, d) }
  pub set-durability_service :
      (q : Qos) (s : DurabilityService)
      → values (dds_qset_durability_service q s) ≡ record (values q) { durability_service = some s }
  pub set-userdata :
      (q : Qos) (data' : Option (List ℕ))
      → values (dds_qset_userdata q data') ≡ record (values q) { userdata = data' }

abbrev pub dds_infinity : ℕ
dds_infinity = i64_max

unfoldable pub to_dds_duration : ℕ → ℤ
to_dds_duration duration = pos (min duration dds_infinity)

unfoldable pub from_dds_duration : ℤ → ℕ
from_dds_duration (pos n) = n
from_dds_duration (negsuc n) = 0

unfoldable pub read_service : Option DurabilityService → Option (HistoryKind × ℤ)
read_service none = none
read_service (some s) = some (s.history_kind, s.history_depth)

unfoldable pub read_reliability : Option (ReliabilityKind × ℤ) → Option (ReliabilityKind × ℕ)
unfolding from_dds_duration
read_reliability none = none
read_reliability (some (kind, time)) = some (kind, from_dds_duration time)

unfoldable pub read_duration : Option ℤ → Option ℕ
unfolding from_dds_duration
read_duration none = none
read_duration (some d) = some (from_dds_duration d)

-- Data of no bytes counts as none.
unfoldable pub read_userdata : Option (List ℕ) → Option (List ℕ)
read_userdata none = none
read_userdata (some []) = none
read_userdata (some (b ∷ bytes)) = some (b ∷ bytes)

unfoldable pub validate_history : HistoryKind → ℤ → Result {0} Unit
validate_history dds_history_keep_last (pos zero) = err bad_parameter
validate_history dds_history_keep_last (pos (suc n)) = ok tt
validate_history dds_history_keep_last (negsuc n) = err bad_parameter
validate_history dds_history_keep_all depth = ok tt

module _ (api : QosApi) where
  open api use {
    Qos, values, dds_create_qos, dds_qset_durability, dds_qset_history, dds_qset_resource_limits,
    dds_qset_lifespan, dds_qset_deadline, dds_qset_latency_budget, dds_qset_ownership_strength,
    dds_qset_reliability, dds_qset_transport_priority, dds_qset_durability_service,
    dds_qset_userdata,
  }

  unfoldable pub create : Result Qos
  create = elim dds_create_qos [ none ↦ err out_of_resources | some q ↦ ok q ]

  unfoldable pub set_durability : Qos → DurabilityKind → Qos
  set_durability q durability = dds_qset_durability q durability

  unfoldable pub set_history : Qos → HistoryKind → ℤ → Result Qos
  set_history q history depth =
      and_then (validate_history history depth) (λ valid. ok (dds_qset_history q history depth))

  unfoldable pub set_resource_limits : Qos → ℤ → ℤ → ℤ → Qos
  set_resource_limits q max_samples max_instances max_samples_per_instance =
      dds_qset_resource_limits q max_samples max_instances max_samples_per_instance

  unfoldable pub set_lifespan : Qos → ℕ → Qos
  set_lifespan q lifespan = dds_qset_lifespan q (to_dds_duration lifespan)

  unfoldable pub set_deadline : Qos → ℕ → Qos
  set_deadline q deadline = dds_qset_deadline q (to_dds_duration deadline)

  set_latency_budget : Qos → ℤ → Qos
  set_latency_budget q duration = dds_qset_latency_budget q duration

  set_ownership_strength : Qos → ℤ → Qos
  set_ownership_strength q value = dds_qset_ownership_strength q value

  unfoldable pub set_reliability : Qos → ReliabilityKind → ℕ → Qos
  set_reliability q kind max_blocking_time =
      dds_qset_reliability q kind (to_dds_duration max_blocking_time)

  set_transport_priority : Qos → ℤ → Qos
  set_transport_priority q value = dds_qset_transport_priority q value

  unfoldable pub set_durability_service : Qos → ℕ → HistoryKind → ℤ → ℤ → ℤ → ℤ → Result Qos
  set_durability_service q delay kind depth samples instances per_instance =
      and_then (validate_history kind depth) (λ valid. ok (
        dds_qset_durability_service q (record {
          service_cleanup_delay = to_dds_duration delay;
          history_kind = kind;
          history_depth = depth;
          max_samples = samples;
          max_instances = instances;
          max_samples_per_instance = per_instance;
        })))

  -- Empty data is passed as a null pointer.
  unfoldable pub set_userdata : Qos → List ℕ → Qos
  set_userdata q [] = dds_qset_userdata q none
  set_userdata q (b ∷ bytes) = dds_qset_userdata q (some (b ∷ bytes))

  unfoldable pub durability_service : Qos → Option (HistoryKind × ℤ)
  unfolding read_service
  durability_service q = read_service (values q).durability_service

  unfoldable pub durability : Qos → Option DurabilityKind
  durability q = (values q).durability

  unfoldable pub history : Qos → Option (HistoryKind × ℤ)
  history q = (values q).history

  unfoldable pub reliability : Qos → Option (ReliabilityKind × ℕ)
  unfolding read_reliability
  reliability q = read_reliability (values q).reliability

  unfoldable pub lifespan : Qos → Option ℕ
  unfolding read_duration
  lifespan q = read_duration (values q).lifespan

  unfoldable pub deadline : Qos → Option ℕ
  unfolding read_duration
  deadline q = read_duration (values q).deadline

  unfoldable pub userdata : Qos → Option (List ℕ)
  unfolding read_userdata
  userdata q = read_userdata (values q).userdata
