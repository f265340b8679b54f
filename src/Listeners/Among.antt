-- ===== src/Listeners/Among.antt =====
-- Events in lists, and handles among the listeners of the C library, for
-- cyclonedds/src/dds_listener.rs.
use cyclonedds_rs.Common.{
  ℕ, ◌<◌, List, [], ◌∷◌, Bool, true, false, ◌||◌, ◌&&◌, ◌≡◌, refl, sym, ap, ◌∙◌, ◌==◌, ==_iff,
  if◌then◌else◌, arith,
}
use cyclonedds_rs.Listeners.{
  Event, data_available, sample_lost, sample_rejected, liveliness_changed,
  requested_deadline_missed, requested_incompatible_qos, subscription_matched, liveliness_lost,
  offered_deadline_missed, offered_incompatible_qos, publication_matched, inconsistent_topic,
  data_on_readers, event_eq, index, all_events, CListener, delete_listener,
}

abbrev event_of : ℕ → Event
event_of n =
    if n == 0
    then data_available
    else if n == 1
    then sample_lost
    else if n == 2
    then sample_rejected
    else if n == 3
    then liveliness_changed
    else if n == 4
    then requested_deadline_missed
    else if n == 5
    then requested_incompatible_qos
    else if n == 6
    then subscription_matched
    else if n == 7
    then liveliness_lost
    else if n == 8
    then offered_deadline_missed
    else if n == 9
    then offered_incompatible_qos
    else if n == 10
    then publication_matched
    else if n == 11
    then inconsistent_topic
    else data_on_readers

event_of-index : (event : Event) → event_of (index event) ≡ event
event_of-index data_available = refl
event_of-index sample_lost = refl
event_of-index sample_rejected = refl
event_of-index liveliness_changed = refl
event_of-index requested_deadline_missed = refl
event_of-index requested_incompatible_qos = refl
event_of-index subscription_matched = refl
event_of-index liveliness_lost = refl
event_of-index offered_deadline_missed = refl
event_of-index offered_incompatible_qos = refl
event_of-index publication_matched = refl
event_of-index inconsistent_topic = refl
event_of-index data_on_readers = refl

pub same_event : (a b : Event) → event_eq a b ≡ true → b ≡ a
same_event a b h =
    sym (event_of-index b) ∙ ap event_of (sym ((==_iff (index a) (index b)).0 h)) ∙ event_of-index a

unfoldable pub is_event_among : Event → List Event → Bool
is_event_among event [] = false
is_event_among event (e ∷ events) = event_eq event e || is_event_among event events

and_false : (m : Bool) → (m && false) ≡ false
and_false true = refl
and_false false = refl

pub registered_step :
    (q m s se r : Bool)
    → (q ≡ true → s ≡ se)
    → r ≡ (m && s)
    → (if se then q || r else r) ≡ ((q || m) && s)
registered_step true m s true r h i = sym (h refl)
registered_step true m s false r h i = i ∙ ap (λ x. m && x) (h refl) ∙ and_false m ∙ sym (h refl)
registered_step false m s true r h i = i
registered_step false m s false r h i = i

pub among_all : (event : Event) (s : Bool) → (is_event_among event all_events && s) ≡ s
unfolding is_event_among
among_all data_available s = refl
among_all sample_lost s = refl
among_all sample_rejected s = refl
among_all liveliness_changed s = refl
among_all requested_deadline_missed s = refl
among_all requested_incompatible_qos s = refl
among_all subscription_matched s = refl
among_all liveliness_lost s = refl
among_all offered_deadline_missed s = refl
among_all offered_incompatible_qos s = refl
among_all publication_matched s = refl
among_all inconsistent_topic s = refl
among_all data_on_readers s = refl

-- The handle is not one of those in use.
abbrev pub AllOthers : ℕ → List CListener → Type 0
AllOthers l [] = Unit {0}
AllOthers l (c ∷ cs) = ((c.handle == l) ≡ false) × AllOthers l cs

pub delete_listener_others :
    (l : ℕ) (cs : List CListener) → AllOthers l cs → delete_listener l cs ≡ cs
unfolding delete_listener
delete_listener_others l [] o = refl
delete_listener_others l (c ∷ cs) o = rw (o.0) (ap (◌∷◌ c) (delete_listener_others l cs o.1))

pub below_differs : (a b : ℕ) → a < b → (a == b) ≡ false
below_differs a b h = ground arith
