-- ===== src/Qos/Policies.antt =====
-- cyclonedds/src/dds_qos.rs: `Policy`, the summary of a QoS, its conversion to a QoS and back.
pub mod Laws
pub mod Limits
use cyclonedds_rs.Common.{
  ℕ, zero, suc, Option, none, some, Bool, true, false, leb, if◌then◌else◌, ℤ, pos, negsuc,
  saturating_mul,
}
use cyclonedds_rs.Error.{DdsError, bad_parameter, Result, ok, err, and_then}
use cyclonedds_rs.Qos.{
  QosApi, HistoryKind, dds_history_keep_last, dds_history_keep_all, ReliabilityKind,
  dds_reliability_best_effort, dds_reliability_reliable, DurabilityKind, dds_durability_volatile,
  dds_durability_transient_local, dds_durability_transient, dds_durability_persistent,
  validate_history, create, set_durability, set_history, set_resource_limits, set_reliability,
  set_durability_service, durability_service, durability, history, reliability,
}

pub data History : Type 0 where
  keep_last : ℤ → History
  keep_all : History

pub data Reliability : Type 0 where
  reliable : ℕ → Reliability
  best_effort : Reliability

pub data Durability : Type 0 where
  volatile : Durability
  transient_local : ℕ → Durability

pub record Policy : Type 0 where
  pub history : History
  pub reliability : Reliability
  pub durability : Durability

abbrev pub support_instances : ℕ
support_instances = 4

-- `Duration::from_millis(100)`.
abbrev pub default_blocking_time : ℕ
default_blocking_time = 100000000

abbrev pub u16_max : ℕ
u16_max = 65535

-- `u16::try_from` and `NonZeroU16::new`.
unfoldable pub sync_depth : ℤ → Result ℕ
sync_depth (pos zero) = err bad_parameter
sync_depth (pos (suc n)) = if leb (suc n) u16_max then ok (suc n) else err bad_parameter
sync_depth (negsuc n) = err bad_parameter

abbrev pub unwrap_or : Option ℕ → ℕ → ℕ
unwrap_or none default = default
unwrap_or (some n) default = n

unfoldable pub create_transient_local : ℤ → Option ℕ → Result Policy
create_transient_local depth deadline =
    and_then (validate_history dds_history_keep_last depth) (λ valid.
      and_then (sync_depth depth) (λ sync. ok (record {
        history = keep_last depth;
        reliability = reliable (unwrap_or deadline default_blocking_time);
        durability = transient_local sync;
      })))

module _ (api : QosApi) where
  open api use {Qos}

  -- The three matches of `to_qos`.
  unfoldable pub put_history : History → Qos → Result Qos
  put_history (keep_last depth) q = and_then (set_history api q dds_history_keep_last depth) (λ q'.
      ok (
        set_resource_limits api q' (saturating_mul depth support_instances) (pos support_instances)
          depth))
  put_history keep_all q = set_history api q dds_history_keep_all (pos 0)

  unfoldable pub put_reliability : Reliability → Qos → Qos
  put_reliability (reliable max_blocking_time) q =
      set_reliability api q dds_reliability_reliable max_blocking_time
  put_reliability best_effort q = set_reliability api q dds_reliability_best_effort 0

  -- A best-effort reliability does not go with a transient-local durability.
  unfoldable pub replace_best_effort : Reliability → Qos → Qos
  replace_best_effort best_effort q =
      set_reliability api q dds_reliability_reliable default_blocking_time
  replace_best_effort (reliable time) q = q

  unfoldable pub put_durability : Reliability → Durability → Qos → Result Qos
  put_durability r volatile q = ok (set_durability api q dds_durability_volatile)
  put_durability r (transient_local depth) q =
      and_then
        (set_durability_service api (set_durability api q dds_durability_transient_local) 0
          dds_history_keep_last (pos depth) (saturating_mul (pos depth) support_instances)
          (pos support_instances) (pos depth))
        (λ q'. ok (replace_best_effort r q'))

  unfoldable pub to_qos : Policy → Result Qos
  to_qos policy = and_then (create api) (λ q. and_then (put_history policy.history q) (λ q'.
      put_durability policy.reliability policy.durability (put_reliability policy.reliability q')))

unfoldable pub history_of : Option (HistoryKind × ℤ) → History
history_of none = keep_last (pos 1)
history_of (some (dds_history_keep_last, depth)) = keep_last depth
history_of (some (dds_history_keep_all, depth)) = keep_all

unfoldable pub reliability_of : Option (ReliabilityKind × ℕ) → Reliability
reliability_of none = best_effort
reliability_of (some (dds_reliability_reliable, time)) = reliable time
reliability_of (some (dds_reliability_best_effort, time)) = best_effort

-- `Policy::sync_depth(depth).unwrap_or(NonZeroU16::MAX)`, for a depth that is positive.
unfoldable pub depth_or_max : Result ℕ → ℕ
depth_or_max (ok depth) = depth
depth_or_max (err e) = u16_max

unfoldable pub sync_depth_of : Option (HistoryKind × ℤ) → ℕ
unfolding depth_or_max
sync_depth_of none = 1
sync_depth_of (some (dds_history_keep_all, depth)) = u16_max
sync_depth_of (some (dds_history_keep_last, negsuc n)) = 1
sync_depth_of (some (dds_history_keep_last, pos zero)) = 1
sync_depth_of (some (dds_history_keep_last, pos (suc n))) = depth_or_max (sync_depth (pos (suc n)))

unfoldable pub durability_of : Option DurabilityKind → Option (HistoryKind × ℤ) → Durability
durability_of none service = volatile
durability_of (some dds_durability_volatile) service = volatile
durability_of (some dds_durability_transient_local) service =
    transient_local (sync_depth_of service)
durability_of (some dds_durability_transient) service = transient_local (sync_depth_of service)
durability_of (some dds_durability_persistent) service = transient_local (sync_depth_of service)

-- `From<&DdsQos> for Policy`.
unfoldable pub from_qos : (api : QosApi) → api.Qos → Policy
from_qos api q = record {
  history = history_of (history api q);
  reliability = reliability_of (reliability api q);
  durability = durability_of (durability api q) (durability_service api q);
}
