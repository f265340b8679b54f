-- ===== src/Listeners/Events.antt =====
-- cyclonedds/src/dds_listener.rs: the setters of `DdsListener`, and the functions that the C library
-- calls.
use cyclonedds_rs.Common.{ℕ, Option}
use cyclonedds_rs.Listeners.{
  data_available, sample_lost, sample_rejected, liveliness_changed, requested_deadline_missed,
  requested_incompatible_qos, subscription_matched, liveliness_lost, offered_deadline_missed,
  offered_incompatible_qos, publication_matched, inconsistent_topic, data_on_readers, Closure,
  Inner, Heap, on_event, call_closure,
}

module _ {W P : Type 0} where
  abbrev pub on_data_available : Closure W P → Inner W P → Inner W P
  on_data_available = on_event data_available

  abbrev pub call_data_available_closure : Heap W P → ℕ → ℕ → P → W → Option W
  call_data_available_closure = call_closure data_available

  abbrev pub on_sample_lost : Closure W P → Inner W P → Inner W P
  on_sample_lost = on_event sample_lost

  abbrev pub call_sample_lost_closure : Heap W P → ℕ → ℕ → P → W → Option W
  call_sample_lost_closure = call_closure sample_lost

  abbrev pub on_sample_rejected : Closure W P → Inner W P → Inner W P
  on_sample_rejected = on_event sample_rejected

  abbrev pub call_sample_rejected_closure : Heap W P → ℕ → ℕ → P → W → Option W
  call_sample_rejected_closure = call_closure sample_rejected

  abbrev pub on_liveliness_changed : Closure W P → Inner W P → Inner W P
  on_liveliness_changed = on_event liveliness_changed

  abbrev pub call_liveliness_changed_closure : Heap W P → ℕ → ℕ → P → W → Option W
  call_liveliness_changed_closure = call_closure liveliness_changed

  abbrev pub on_requested_deadline_missed : Closure W P → Inner W P → Inner W P
  on_requested_deadline_missed = on_event requested_deadline_missed

  abbrev pub call_requested_deadline_missed_closure : Heap W P → ℕ → ℕ → P → W → Option W
  call_requested_deadline_missed_closure = call_closure requested_deadline_missed

  abbrev pub on_requested_incompatible_qos : Closure W P → Inner W P → Inner W P
  on_requested_incompatible_qos = on_event requested_incompatible_qos

  abbrev pub call_requested_incompatible_qos_closure : Heap W P → ℕ → ℕ → P → W → Option W
  call_requested_incompatible_qos_closure = call_closure requested_incompatible_qos

  abbrev pub on_subscription_matched : Closure W P → Inner W P → Inner W P
  on_subscription_matched = on_event subscription_matched

  abbrev pub call_subscription_matched_closure : Heap W P → ℕ → ℕ → P → W → Option W
  call_subscription_matched_closure = call_closure subscription_matched

  abbrev pub on_liveliness_lost : Closure W P → Inner W P → Inner W P
  on_liveliness_lost = on_event liveliness_lost

  abbrev pub call_liveliness_lost_closure : Heap W P → ℕ → ℕ → P → W → Option W
  call_liveliness_lost_closure = call_closure liveliness_lost

  abbrev pub on_offered_deadline_missed : Closure W P → Inner W P → Inner W P
  on_offered_deadline_missed = on_event offered_deadline_missed

  abbrev pub call_offered_deadline_missed_closure : Heap W P → ℕ → ℕ → P → W → Option W
  call_offered_deadline_missed_closure = call_closure offered_deadline_missed

  abbrev pub on_offered_incompatible_qos : Closure W P → Inner W P → Inner W P
  on_offered_incompatible_qos = on_event offered_incompatible_qos

  abbrev pub call_offered_incompatible_qos_closure : Heap W P → ℕ → ℕ → P → W → Option W
  call_offered_incompatible_qos_closure = call_closure offered_incompatible_qos

  abbrev pub on_publication_matched : Closure W P → Inner W P → Inner W P
  on_publication_matched = on_event publication_matched

  abbrev pub call_publication_matched_closure : Heap W P → ℕ → ℕ → P → W → Option W
  call_publication_matched_closure = call_closure publication_matched

  abbrev pub on_inconsistent_topic : Closure W P → Inner W P → Inner W P
  on_inconsistent_topic = on_event inconsistent_topic

  abbrev pub call_inconsistent_topic_closure : Heap W P → ℕ → ℕ → P → W → Option W
  call_inconsistent_topic_closure = call_closure inconsistent_topic

  abbrev pub on_data_on_readers : Closure W P → Inner W P → Inner W P
  on_data_on_readers = on_event data_on_readers

  abbrev pub call_data_on_readers_closure : Heap W P → ℕ → ℕ → P → W → Option W
  call_data_on_readers_closure = call_closure data_on_readers
