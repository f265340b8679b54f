-- ===== src/Qos/Policies/Limits.antt =====
-- Which depths cyclonedds/src/dds_qos.rs refuses, and the resource limits that go with the others.
use cyclonedds_rs.Common.{
  ℕ, zero, suc, ◌*◌, ◌≤◌, ◌≡◌, ◌⊎◌, refl, ap, ◌∙◌, Option, some, ℤ, pos, negsuc, i32_max, arith,
  le→leb, lt→leb,
}
use Prim.Native.Nat.{min}
use native.Mathlib.Decide.{dec_le}
use cyclonedds_rs.Error.{bad_parameter, ok, err, and_then}
use cyclonedds_rs.Qos.{
  QosApi, dds_infinity, dds_history_keep_last, validate_history, set_history, set_resource_limits,
}
use cyclonedds_rs.Qos.Policies.{
  History, keep_last, keep_all, reliable, transient_local, Policy, support_instances, u16_max,
  unwrap_or, default_blocking_time, sync_depth, create_transient_local, put_history,
  put_reliability, put_durability, to_qos, from_qos,
}
use cyclonedds_rs.Qos.Policies.Laws.{IsDepth, policy_roundtrip, create_lem}

validate_history_refuses :
    (depth : ℤ)
    → (IsDepth (keep_last depth) → ⊥)
    → validate_history dds_history_keep_last depth ≡ err bad_parameter
unfolding validate_history
validate_history_refuses (pos zero) n = refl
validate_history_refuses (pos (suc depth)) n = elim (n (omega arith)) [ ]
validate_history_refuses (negsuc depth) n = refl

not_positive : 1 ≤ 0 → ⊥
not_positive h = omega arith

abbrev pub IsSyncHistory : ℤ → Type 0
IsSyncHistory (pos depth) = (1 ≤ depth) × (depth ≤ u16_max)
IsSyncHistory (negsuc n) = ⊥

-- A depth that is not from 1 to 65535 is refused by `create_transient_local` as a bad parameter.
pub create_transient_local_refuses :
    (depth : ℤ) (deadline : Option ℕ)
    → (IsSyncHistory depth → ⊥)
    → create_transient_local depth deadline ≡ err bad_parameter
unfolding create_transient_local validate_history sync_depth
create_transient_local_refuses (negsuc n) deadline h = refl
create_transient_local_refuses (pos zero) deadline h = refl
create_transient_local_refuses (pos (suc depth)) deadline h = elim (dec_le (suc depth) u16_max) [
  | yes b ↦ elim (h (omega arith, b)) [ ]
  | no b ↦ rw (lt→leb (suc depth) u16_max (omega arith)) refl
]

module _ (api : QosApi) where
  open api use {
    Qos, values, dds_create_qos, set-history, set-resource_limits, set-durability,
    set-durability_service, set-reliability,
  }

  put_history_refuses :
      (h : History) (q : Qos) → (IsDepth h → ⊥) → put_history api h q ≡ err bad_parameter
  unfolding put_history set_history
  put_history_refuses keep_all q n = elim (n tt) [ ]
  put_history_refuses (keep_last depth) q n = rw (validate_history_refuses depth n) refl

  -- If the C library creates a QoS, a policy whose depth is zero or negative is refused as a bad
  -- parameter, whatever else it holds.
  pub to_qos_refuses :
      (p : Policy) (q : Qos)
      → dds_create_qos ≡ some q
      → (IsDepth p.history → ⊥)
      → to_qos api p ≡ err bad_parameter
  unfolding to_qos
  to_qos_refuses p q c n =
      ap
        (λ r. and_then r (λ q0. and_then (put_history api p.history q0) (λ q'.
          put_durability api p.reliability p.durability (put_reliability api p.reliability q'))))
        (create_lem api q c)
      ∙ ap
          (λ r. and_then r (λ q'.
            put_durability api p.reliability p.durability (put_reliability api p.reliability q')))
          (put_history_refuses p.history q n)

  -- For every positive depth that an i32 holds, the limits that go with it are numbers of an i32 too,
  -- and the samples of all instances are no fewer than those of one, which are the depth; above a
  -- quarter of the largest i32 they are that largest number.
  pub limits_hold_depth :
      (depth : ℕ) (q : Qos)
      → 1 ≤ depth
      → depth ≤ i32_max
      → (q' : Qos) × (samples : ℕ) × (put_history api (keep_last (pos depth)) q ≡ ok q')
        × ((values q').history ≡ some (dds_history_keep_last, pos depth))
        × ((values q').resource_limits ≡ some (pos samples, pos support_instances, pos depth))
        × (depth ≤ samples)
        × (samples ≤ i32_max)
        × ((samples ≡ depth * support_instances) ⊎ (samples ≡ i32_max))
  unfolding put_history set_history set_resource_limits validate_history
  limits_hold_depth zero q p b = elim (not_positive p) [ ]
  limits_hold_depth (suc depth) q p b =
      let samples : ℕ = min (suc depth * support_instances) i32_max in
      let q1 = api.dds_qset_history q dds_history_keep_last (pos (suc depth)) in
      let l = set-resource_limits q1 (pos samples) (pos support_instances) (pos (suc depth)) in
      let h = set-history q dds_history_keep_last (pos (suc depth)) in
      (
        _,
        samples,
        refl,
        ap (λ v. v.history) l ∙ ap (λ v. v.history) h,
        ap (λ v. v.resource_limits) l,
        ground arith,
        ground arith,
        ground arith,
      )

  -- `create_transient_local` takes the depths from 1 to 65535; if the C library creates a QoS and an
  -- i64 holds the deadline, its policy becomes a QoS, from which the same policy is read back, with
  -- the depth as history and as sync depth.
  pub create_transient_local_lem :
      (depth : ℕ) (deadline : Option ℕ) (q : Qos)
      → dds_create_qos ≡ some q
      → unwrap_or deadline default_blocking_time ≤ dds_infinity
      → 1 ≤ depth
      → depth ≤ u16_max
      → (p : Policy) × (q' : Qos) × (create_transient_local (pos depth) deadline ≡ ok p)
        × (to_qos api p ≡ ok q')
        × (from_qos api q' ≡ p)
        × (p.history ≡ keep_last (pos depth))
        × (p.durability ≡ transient_local depth)
  unfolding create_transient_local validate_history sync_depth
  create_transient_local_lem zero deadline q c t a b = elim (not_positive a) [ ]
  create_transient_local_lem (suc depth) deadline q c t a b =
      let p : Policy = record {
        history = keep_last (pos (suc depth));
        reliability = reliable (unwrap_or deadline default_blocking_time);
        durability = transient_local (suc depth);
      } in
      let (q', e, f) = policy_roundtrip api p q c a t (a, b) in
      (p, q', rw (le→leb (suc depth) u16_max b) refl, e, f, refl, refl)
