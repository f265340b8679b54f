-- ===== src/Qos/Policies/Laws.antt =====
-- What a `Policy` of cyclonedds/src/dds_qos.rs keeps when it becomes a QoS, and what it refuses.
use cyclonedds_rs.Common.{
  ℕ, zero, suc, ◌≤◌, ◌≡◌, refl, sym, ap, ◌∙◌, Option, none, some, List, [], ◌∷◌, ℤ, pos, negsuc,
  saturating_mul, arith, le→leb,
}
use Prim.Native.Nat.{min}
use cyclonedds_rs.Error.{ok, and_then}
use cyclonedds_rs.Qos.{
  QosApi, HistoryKind, dds_history_keep_last, dds_history_keep_all, dds_reliability_best_effort,
  dds_reliability_reliable, DurabilityKind, dds_durability_volatile, dds_durability_transient_local,
  dds_durability_transient, dds_durability_persistent, DurabilityService, dds_infinity,
  to_dds_duration, from_dds_duration, validate_history, create, set_durability, set_history,
  set_resource_limits, set_lifespan, set_deadline, set_reliability, set_durability_service,
  set_userdata, durability_service, durability, history, reliability, lifespan, deadline, userdata,
  read_service, read_reliability, read_duration, read_userdata,
}
use cyclonedds_rs.Qos.Policies.{
  History, keep_last, keep_all, Reliability, reliable, best_effort, Durability, volatile,
  transient_local, Policy, support_instances, default_blocking_time, u16_max, sync_depth,
  put_history, put_reliability, replace_best_effort, put_durability, to_qos, history_of,
  reliability_of, depth_or_max, sync_depth_of, durability_of, from_qos,
}

-- The values that the types of a Rust `Policy` hold, with a positive depth.
abbrev pub IsDepth : History → Type 0
IsDepth keep_all = Unit
IsDepth (keep_last (pos n)) = 1 ≤ n
IsDepth (keep_last (negsuc n)) = ⊥

abbrev pub IsBlockingTime : Reliability → Type 0
IsBlockingTime best_effort = Unit
IsBlockingTime (reliable time) = time ≤ dds_infinity

abbrev pub IsSyncDepth : Durability → Type 0
IsSyncDepth volatile = Unit
IsSyncDepth (transient_local depth) = (1 ≤ depth) × (depth ≤ u16_max)

-- What the QoS says of a best-effort policy that is transient-local.
abbrev pub kept_reliability : Reliability → Durability → Reliability
kept_reliability best_effort (transient_local depth) = reliable default_blocking_time
kept_reliability best_effort volatile = best_effort
kept_reliability (reliable time) d = reliable time

from-to : (time : ℕ) → time ≤ dds_infinity → from_dds_duration (to_dds_duration time) ≡ time
unfolding to_dds_duration from_dds_duration
from-to time h = ground arith

not_a_depth : IsDepth (keep_last (pos zero)) → ⊥
not_a_depth h = omega arith

not_a_sync_depth : IsSyncDepth (transient_local zero) → ⊥
not_a_sync_depth h = omega arith

kept_volatile : (r : Reliability) → kept_reliability r volatile ≡ r
kept_volatile best_effort = refl
kept_volatile (reliable time) = refl

sync_depth_of-bounds :
    (service : Option (HistoryKind × ℤ))
    → (1 ≤ sync_depth_of service) × (sync_depth_of service ≤ u16_max)
unfolding sync_depth_of sync_depth depth_or_max
sync_depth_of-bounds none = ground arith
sync_depth_of-bounds (some (dds_history_keep_all, depth)) = ground arith
sync_depth_of-bounds (some (dds_history_keep_last, negsuc n)) = ground arith
sync_depth_of-bounds (some (dds_history_keep_last, pos zero)) = ground arith
sync_depth_of-bounds (some (dds_history_keep_last, pos (suc n))) = ground arith

durability_of-IsSyncDepth :
    (d : Option DurabilityKind) (service : Option (HistoryKind × ℤ))
    → IsSyncDepth (durability_of d service)
unfolding durability_of
durability_of-IsSyncDepth none service = tt
durability_of-IsSyncDepth (some dds_durability_volatile) service = tt
durability_of-IsSyncDepth (some dds_durability_transient_local) service =
    sync_depth_of-bounds service
durability_of-IsSyncDepth (some dds_durability_transient) service = sync_depth_of-bounds service
durability_of-IsSyncDepth (some dds_durability_persistent) service = sync_depth_of-bounds service

module _ (api : QosApi) where
  open api use {
    Qos, values, dds_create_qos, set-durability, set-history, set-resource_limits, set-lifespan,
    set-deadline, set-reliability, set-durability_service, set-userdata,
  }

  put_history_lem :
      (h : History) (q : Qos)
      → IsDepth h
      → (q' : Qos) × (put_history api h q ≡ ok q') × (history_of (history api q') ≡ h)
  unfolding put_history set_history set_resource_limits validate_history history_of history
  put_history_lem keep_all q d =
      (_, refl, ap (λ v. history_of v.history) (set-history q dds_history_keep_all (pos 0)))
  put_history_lem (keep_last (negsuc n)) q d = elim d [ ]
  put_history_lem (keep_last (pos zero)) q d = elim (not_a_depth d) [ ]
  put_history_lem (keep_last (pos (suc n))) q d = (
    _,
    refl,
    ap (λ v. history_of v.history)
          (set-resource_limits (api.dds_qset_history q dds_history_keep_last (pos (suc n)))
            (saturating_mul (pos (suc n)) support_instances) (pos support_instances) (pos (suc n)))
        ∙ ap (λ v. history_of v.history) (set-history q dds_history_keep_last (pos (suc n))),
  )

  put_reliability_lem :
      (r : Reliability) (q : Qos)
      → IsBlockingTime r
      → (history api (put_reliability api r q) ≡ history api q)
        × (reliability_of (reliability api (put_reliability api r q)) ≡ r)
  unfolding put_reliability set_reliability reliability_of reliability history read_reliability
      from_dds_duration to_dds_duration
  put_reliability_lem best_effort q d =
      let e = set-reliability q dds_reliability_best_effort (to_dds_duration 0) in
      (ap (λ v. v.history) e, ap (λ v. reliability_of (read_reliability v.reliability)) e)
  put_reliability_lem (reliable time) q d =
      let e = set-reliability q dds_reliability_reliable (to_dds_duration time) in
      (
        ap (λ v. v.history) e,
        ap (λ v. reliability_of (read_reliability v.reliability)) e ∙ ap reliable (from-to time d),
      )

  sync_depth_lem :
      (n : ℕ) → n ≤ u16_max → 1 ≤ n → sync_depth_of (some (dds_history_keep_last, pos n)) ≡ n
  unfolding sync_depth_of sync_depth depth_or_max
  sync_depth_lem zero h p = omega arith
  sync_depth_lem (suc n) h p = rw (le→leb (suc n) u16_max h) refl

  replace_best_effort_lem :
      (r : Reliability) (q : Qos) (depth : ℕ)
      → reliability_of (reliability api q) ≡ r
      → (history api (replace_best_effort api r q) ≡ history api q)
        × (durability api (replace_best_effort api r q) ≡ durability api q)
        × (durability_service api (replace_best_effort api r q) ≡ durability_service api q)
        × (reliability_of (reliability api (replace_best_effort api r q))
            ≡ kept_reliability r (transient_local depth))
  unfolding replace_best_effort set_reliability reliability_of reliability history durability
      durability_service read_reliability
  replace_best_effort_lem (reliable time) q depth e = (refl, refl, refl, e)
  replace_best_effort_lem best_effort q depth e =
      let e = set-reliability q dds_reliability_reliable (to_dds_duration default_blocking_time) in
      (
        ap (λ v. v.history) e,
        ap (λ v. v.durability) e,
        ap (λ v. read_service v.durability_service) e,
        ap (λ v. reliability_of (read_reliability v.reliability)) e
            ∙ ap reliable (from-to default_blocking_time (omega arith)),
      )

  put_durability_lem :
      (r : Reliability) (d : Durability) (q : Qos)
      → IsSyncDepth d
      → reliability_of (reliability api q) ≡ r
      → (q' : Qos) × (put_durability api r d q ≡ ok q')
        × (history api q' ≡ history api q)
        × (reliability_of (reliability api q') ≡ kept_reliability r d)
        × (durability_of (durability api q') (durability_service api q') ≡ d)
  unfolding put_durability set_durability set_durability_service validate_history durability_of
      history reliability durability durability_service read_reliability read_service
  put_durability_lem r volatile q valid e =
      let d = set-durability q dds_durability_volatile in
      (
        _,
        refl,
        ap (λ v. v.history) d,
        ap (λ v. reliability_of (read_reliability v.reliability)) d ∙ e ∙ sym (kept_volatile r),
        ap (λ v. durability_of v.durability (read_service v.durability_service)) d,
      )
  put_durability_lem r (transient_local zero) q valid e = elim (not_a_sync_depth valid) [ ]
  put_durability_lem r (transient_local (suc depth)) q valid e =
      let q1 = set_durability api q dds_durability_transient_local in
      let service : DurabilityService = record {
        service_cleanup_delay = to_dds_duration 0;
        history_kind = dds_history_keep_last;
        history_depth = pos (suc depth);
        max_samples = saturating_mul (pos (suc depth)) support_instances;
        max_instances = pos support_instances;
        max_samples_per_instance = pos (suc depth);
      } in
      let q2 = api.dds_qset_durability_service q1 service in
      let d = set-durability q dds_durability_transient_local in
      let s = set-durability_service q1 service in
      let (h, d', s', r') = replace_best_effort_lem r q2 (suc depth) (
        ap (λ v. reliability_of (read_reliability v.reliability)) s
        ∙ ap (λ v. reliability_of (read_reliability v.reliability)) d
        ∙ e) in
      (
        _,
        refl,
        h ∙ ap (λ v. v.history) s ∙ ap (λ v. v.history) d,
        r',
        ap (λ x. durability_of x (durability_service api (replace_best_effort api r q2)))
              (d' ∙ ap (λ v. v.durability) s ∙ ap (λ v. v.durability) d)
            ∙ ap (λ x. durability_of (some dds_durability_transient_local) x)
                (s' ∙ ap (λ v. read_service v.durability_service) s)
            ∙ ap transient_local (sync_depth_lem (suc depth) valid.1 valid.0),
      )

  pub create_lem : (q : Qos) → dds_create_qos ≡ some q → create api ≡ ok q
  unfolding create
  create_lem q c = rw (c) refl

  -- If the C library creates a QoS, a policy with a positive depth, a sync depth that is a NonZeroU16
  -- and a blocking time that an i64 holds becomes a QoS, and the policy that is read back from it is
  -- the same, but that a best-effort reliability which is transient-local became a reliable one of
  -- 100 milliseconds.
  pub policy_roundtrip :
      (p : Policy) (q : Qos)
      → dds_create_qos ≡ some q
      → IsDepth p.history
      → IsBlockingTime p.reliability
      → IsSyncDepth p.durability
      → (q' : Qos) × (to_qos api p ≡ ok q')
        × (from_qos api q' ≡ record p { reliability = kept_reliability p.reliability p.durability })
  unfolding to_qos from_qos
  policy_roundtrip p q c d b s =
      let (q1, e1, h1) = put_history_lem p.history q d in
      let (h2, r2) = put_reliability_lem p.reliability q1 b in
      let (q3, e3, h3, r3, d3) =
        put_durability_lem p.reliability p.durability (put_reliability api p.reliability q1) s r2 in
      (
        q3,
        ap
              (λ r. and_then r (λ q0. and_then (put_history api p.history q0) (λ q'.
                put_durability api p.reliability p.durability
                  (put_reliability api p.reliability q'))))
              (create_lem q c)
            ∙ ap
                (λ r. and_then r (λ q'.
                  put_durability api p.reliability p.durability
                    (put_reliability api p.reliability q')))
                e1
            ∙ e3,
        λ i. record {
          history = (ap history_of (h3 ∙ h2) ∙ h1) i;
          reliability = r3 i;
          durability = d3 i;
        },
      )

  -- Reading a policy from any QoS gives a sync depth that is a NonZeroU16.
  pub from_qos-IsSyncDepth : (q : Qos) → IsSyncDepth (from_qos api q).durability
  unfolding from_qos
  from_qos-IsSyncDepth q = durability_of-IsSyncDepth (durability api q) (durability_service api q)

  -- A lifespan or a deadline that is set is read back, cut off at the infinity of the C library, and
  -- is written to it as a number that is not negative; one does not touch the other.
  pub duration_saturates :
      (q : Qos) (a b : ℕ)
      → let q' = set_deadline api (set_lifespan api q a) b in
        (lifespan api q' ≡ some (min a dds_infinity))
        × (deadline api q' ≡ some (min b dds_infinity))
        × ((values q').lifespan ≡ some (pos (min a dds_infinity)))
  unfolding set_deadline set_lifespan lifespan deadline read_duration to_dds_duration
      from_dds_duration
  duration_saturates q a b =
      let l = set-lifespan q (to_dds_duration a) in
      let d = set-deadline (set_lifespan api q a) (to_dds_duration b) in
      (
        ap (λ v. read_duration v.lifespan) d ∙ ap (λ v. read_duration v.lifespan) l,
        ap (λ v. read_duration v.deadline) d,
        ap (λ v. v.lifespan) d ∙ ap (λ v. v.lifespan) l,
      )

  -- User data is read back as it was set, and empty data as none.
  pub userdata_roundtrip :
      (q : Qos) (b : ℕ) (bytes : List ℕ)
      → (userdata api (set_userdata api q (b ∷ bytes)) ≡ some (b ∷ bytes))
        × (userdata api (set_userdata api q []) ≡ none)
  unfolding userdata set_userdata read_userdata
  userdata_roundtrip q b bytes = (
    ap (λ v. read_userdata v.userdata) (set-userdata q (some (b ∷ bytes))),
    ap (λ v. read_userdata v.userdata) (set-userdata q none),
  )
