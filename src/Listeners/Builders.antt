-- ===== src/Listeners/Builders.antt =====
-- cyclonedds/src/dds_listener.rs: `DdsListenerBuilder`, a listener that is not hooked yet.
use cyclonedds_rs.Common.{ℕ, Option}
use cyclonedds_rs.Listeners.{
  data_available, sample_lost, sample_rejected, liveliness_changed, requested_deadline_missed,
  requested_incompatible_qos, subscription_matched, liveliness_lost, offered_deadline_missed,
  offered_incompatible_qos, publication_matched, inconsistent_topic, data_on_readers, Closure,
  Inner, Heap, Hooked, new, hook, on_event, chain_callback,
}

module _ {W P : Type 0} where
  abbrev pub new_builder : Inner W P
  new_builder = new

  abbrev pub build : Option ℕ → Inner W P → Heap W P → Hooked W P
  build = hook

  abbrev pub on_data_available : Closure W P → Inner W P → Inner W P
  on_data_available = on_event data_available

  abbrev pub on_sample_lost : Closure W P → Inner W P → Inner W P
  on_sample_lost = on_event sample_lost

  abbrev pub on_sample_rejected : Closure W P → Inner W P → Inner W P
  on_sample_rejected = on_event sample_rejected

  abbrev pub on_liveliness_changed : Closure W P → Inner W P → Inner W P
  on_liveliness_changed = on_event liveliness_changed

  abbrev pub on_requested_deadline_missed : Closure W P → Inner W P → Inner W P
  on_requested_deadline_missed = on_event requested_deadline_missed

  abbrev pub on_requested_incompatible_qos : Closure W P → Inner W P → Inner W P
  on_requested_incompatible_qos = on_event requested_incompatible_qos

  abbrev pub on_subscription_matched : Closure W P → Inner W P → Inner W P
  on_subscription_matched = on_event subscription_matched

  abbrev pub on_liveliness_lost : Closure W P → Inner W P → Inner W P
  on_liveliness_lost = on_event liveliness_lost

  abbrev pub on_offered_deadline_missed : Closure W P → Inner W P → Inner W P
  on_offered_deadline_missed = on_event offered_deadline_missed

  abbrev pub on_offered_incompatible_qos : Closure W P → Inner W P → Inner W P
  on_offered_incompatible_qos = on_event offered_incompatible_qos

  abbrev pub on_publication_matched : Closure W P → Inner W P → Inner W P
  on_publication_matched = on_event publication_matched

  abbrev pub on_inconsistent_topic : Closure W P → Inner W P → Inner W P
  on_inconsistent_topic = on_event inconsistent_topic

  abbrev pub on_data_on_readers : Closure W P → Inner W P → Inner W P
  on_data_on_readers = on_event data_on_readers

  abbrev pub chain_data_available : Closure W P → Inner W P → Inner W P
  chain_data_available = chain_callback data_available

  abbrev pub chain_data_on_readers : Closure W P → Inner W P → Inner W P
  chain_data_on_readers = chain_callback data_on_readers

  abbrev pub chain_sample_lost : Closure W P → Inner W P → Inner W P
  chain_sample_lost = chain_callback sample_lost

  abbrev pub chain_sample_rejected : Closure W P → Inner W P → Inner W P
  chain_sample_rejected = chain_callback sample_rejected

  abbrev pub chain_liveliness_changed : Closure W P → Inner W P → Inner W P
  chain_liveliness_changed = chain_callback liveliness_changed

  abbrev pub chain_requested_deadline_missed : Closure W P → Inner W P → Inner W P
  chain_requested_deadline_missed = chain_callback requested_deadline_missed

  abbrev pub chain_requested_incompatible_qos : Closure W P → Inner W P → Inner W P
  chain_requested_incompatible_qos = chain_callback requested_incompatible_qos

  abbrev pub chain_subscription_matched : Closure W P → Inner W P → Inner W P
  chain_subscription_matched = chain_callback subscription_matched

  abbrev pub chain_liveliness_lost : Closure W P → Inner W P → Inner W P
  chain_liveliness_lost = chain_callback liveliness_lost

  abbrev pub chain_offered_deadline_missed : Closure W P → Inner W P → Inner W P
  chain_offered_deadline_missed = chain_callback offered_deadline_missed

  abbrev pub chain_offered_incompatible_qos : Closure W P → Inner W P → Inner W P
  chain_offered_incompatible_qos = chain_callback offered_incompatible_qos

  abbrev pub chain_publication_matched : Closure W P → Inner W P → Inner W P
  chain_publication_matched = chain_callback publication_matched

  abbrev pub chain_inconsistent_topic : Closure W P → Inner W P → Inner W P
  chain_inconsistent_topic = chain_callback inconsistent_topic
