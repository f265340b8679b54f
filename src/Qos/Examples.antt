-- ===== src/Qos/Examples.antt =====
-- A concrete QoS object for the theorems on cyclonedds/src/dds_qos.rs: the policies themselves.
use cyclonedds_rs.Common.{◌≡◌, ◌+◌, List, [], ◌∷◌, refl, none, some, pos, arith}
use cyclonedds_rs.Error.{ok, non_negative}
use cyclonedds_rs.Qos.{QosApi, PolicyValues}
use cyclonedds_rs.Qos.Policies.{
  keep_last, reliable, best_effort, transient_local, Policy, default_blocking_time, to_qos,
  from_qos,
}
use cyclonedds_rs.Qos.Handles.{
  Use, creates, clones, drops, hands_over, start, run, count, objects_balanced,
}
use cyclonedds_rs.Qos.Policies.Laws.{policy_roundtrip}

abbrev fresh : PolicyValues
fresh = record {
  durability = none;
  history = none;
  resource_limits = none;
  lifespan = none;
  deadline = none;
  latency_budget = none;
  ownership_strength = none;
  reliability = none;
  transport_priority = none;
  durability_service = none;
  userdata = none;
}

abbrev api : QosApi
api = record {
  Qos = PolicyValues;
  values = λ q. q;
  dds_create_qos = some fresh;
  dds_qset_durability = λ q k. record q { durability = some k };
  dds_qset_history = λ q k d. record q { history = some (k, d) };
  dds_qset_resource_limits = λ q a b c. record q { resource_limits = some (a, b, c) };
  dds_qset_lifespan = λ q d. record q { lifespan = some d };
  dds_qset_deadline = λ q d. record q { deadline = some d };
  dds_qset_latency_budget = λ q d. record q { latency_budget = some d };
  dds_qset_ownership_strength = λ q n. record q { ownership_strength = some n };
  dds_qset_reliability = λ q k d. record q { reliability = some (k, d) };
  dds_qset_transport_priority = λ q n. record q { transport_priority = some n };
  dds_qset_durability_service = λ q s. record q { durability_service = some s };
  dds_qset_userdata = λ q bytes. record q { userdata = bytes };
  set-durability = λ q k. refl;
  set-history = λ q k d. refl;
  set-resource_limits = λ q a b c. refl;
  set-lifespan = λ q d. refl;
  set-deadline = λ q d. refl;
  set-reliability = λ q k d. refl;
  set-durability_service = λ q s. refl;
  set-userdata = λ q bytes. refl;
}

abbrev policy : Policy
policy = record {
  history = keep_last (pos 8);
  reliability = best_effort;
  durability = transient_local 3;
}

-- The policy as it is read back.
abbrev policy_read : Policy
policy_read = record policy { reliability = reliable default_blocking_time }

abbrev no_depth : Policy
no_depth = record policy { history = keep_last (pos 0) }

policy_roundtrip_example :
    (q' : PolicyValues) × (to_qos api policy ≡ ok q') × (from_qos api q' ≡ policy_read)
policy_roundtrip_example =
    policy_roundtrip api policy fresh refl (omega arith) tt (omega arith, omega arith)

-- A qos that an entity is created with, and a clone of it that is dropped.
abbrev uses_of_two : List Use
uses_of_two =
    creates (some 7) ∷ (clones (some 8) (non_negative 0) ∷ (hands_over 7 ∷ (drops 8 ∷ [])))

objects_balanced_example :
    count 7 (run start uses_of_two).live
    ≡ count 7 (run start uses_of_two).handles + count 7 (run start uses_of_two).handed
objects_balanced_example = objects_balanced uses_of_two 7
