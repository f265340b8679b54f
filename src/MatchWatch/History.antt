-- ===== src/MatchWatch/History.antt =====
-- What a `MatchWatch` of cyclonedds/src/match_watch.rs says after a history of updates and
-- notifications.
use cyclonedds_rs.Common.{
  ℕ, ◌-◌, ◌≤◌, ◌≡◌, ◌≢◌, refl, ap, ◌∙◌, List, [], ◌∷◌, none, some, true, false, leb, arith,
}
use cyclonedds_rs.MatchWatch.{
  MatchState, present, absent, MatchWatch, new_at, update_at, is_absent_at, is_absent_since,
  absence_deadline, mark_notified, notified_state,
}

pub data Event : Type 0 where
  updated : ℕ → ℕ → Event
  notified : Event

pub step : MatchWatch → Event → MatchWatch
step w (updated current_count now) = update_at w current_count now
step w notified = mark_notified w

pub run : MatchWatch → List Event → MatchWatch
run w [] = w
run w (e ∷ es) = run (step w e) es

-- No event of the list sees the opposite side.
abbrev pub Unmatched : List Event → Type 0
Unmatched [] = Unit
Unmatched (updated current_count now ∷ es) = (current_count ≡ 0) × Unmatched es
Unmatched (notified ∷ es) = Unmatched es

-- The state is an absence that began at `since`.
abbrev pub AbsentFrom : ℕ → MatchState → Type 0
AbsentFrom since present = ⊥
AbsentFrom since (absent start flag) = start ≡ since

step-AbsentFrom :
    (w : MatchWatch) (since : ℕ) (e : Event) (es : List Event)
    → Unmatched (e ∷ es)
    → AbsentFrom since w.state
    → AbsentFrom since (step w e).state
unfolding step update_at mark_notified
step-AbsentFrom w since (updated current_count now) es u a = ground arith
step-AbsentFrom w since notified es u a = ground arith

run-AbsentFrom :
    (w : MatchWatch) (since : ℕ) (es : List Event)
    → Unmatched es
    → AbsentFrom since w.state
    → AbsentFrom since (run w es).state
unfolding run
run-AbsentFrom w since [] u a = a
run-AbsentFrom w since (updated c now ∷ es) u a =
    run-AbsentFrom (step w (updated c now)) since es u.1
      (step-AbsentFrom w since (updated c now) es u a)
run-AbsentFrom w since (notified ∷ es) u a =
    run-AbsentFrom (step w notified) since es u (step-AbsentFrom w since notified es u a)

run-timeout : (w : MatchWatch) (es : List Event) → (run w es).timeout ≡ w.timeout
unfolding run
run-timeout w [] = refl
run-timeout w (updated c now ∷ es) =
    run-timeout (step w (updated c now)) es ∙ unfold step update_at in ground arith
run-timeout w (notified ∷ es) = run-timeout (step w notified) es ∙ unfold step mark_notified in refl

absent_from :
    (w : MatchWatch) (since now : ℕ)
    → AbsentFrom since w.state
    → is_absent_at w now ≡ leb w.timeout (now - since)
unfolding is_absent_at
absent_from w since now a = ground arith

-- From its creation, a watch that has seen nobody is absent exactly once the timeout has passed
-- since the creation, however often the absence was reported or notified in between.
pub never_matched :
    (timeout created now : ℕ) (es : List Event)
    → Unmatched es
    → is_absent_at (run (new_at timeout created) es) now ≡ leb timeout (now - created)
never_matched timeout created now es u =
    absent_from (run (new_at timeout created) es) created now
      (run-AbsentFrom (new_at timeout created) created es u (unfold new_at in refl))
    ∙ ap (λ t. leb t (now - created))
        (run-timeout (new_at timeout created) es ∙ unfold new_at in refl)

lost-AbsentFrom :
    (w : MatchWatch) (current_count matched lost : ℕ)
    → current_count ≢ 0
    → AbsentFrom lost (step (step w (updated current_count matched)) (updated 0 lost)).state
unfolding step update_at
lost-AbsentFrom w current_count matched lost c = ground arith

-- After a match, the absence is measured from the first report of none, at `lost`: later reports
-- of none do not put it off, and what came before the match does not count.
pub lost_match :
    (w : MatchWatch) (current_count matched lost now : ℕ) (before after : List Event)
    → current_count ≢ 0
    → Unmatched after
    → is_absent_at (run (run w before) (updated current_count matched ∷ updated 0 lost ∷ after)) now
      ≡ leb w.timeout (now - lost)
unfolding run
lost_match w current_count matched lost now before after c u =
    let v = step (step (run w before) (updated current_count matched)) (updated 0 lost) in
    absent_from (run v after) lost now
      (run-AbsentFrom v lost after u (lost-AbsentFrom (run w before) current_count matched lost c))
    ∙ ap (λ t. leb t (now - lost))
        (run-timeout (run w before) (updated current_count matched ∷ updated 0 lost ∷ after)
          ∙ run-timeout w before)

-- While the last report saw somebody, the watch is absent at no time and has no deadline.
pub matched_lem :
    (last : ℕ) (w : MatchWatch) (current_count matched now : ℕ) (before : List Event)
    → current_count ≢ 0
    → let v = run (run w before) (updated current_count matched ∷ notified ∷ []) in
      (is_absent_at v now ≡ false) × (absence_deadline last v ≡ none)
unfolding run step update_at mark_notified is_absent_at absence_deadline
matched_lem last w current_count matched now before c = ground arith

-- A deadline, where there is one, is the instant from which the watch is absent (at instants not
-- before the start of the absence).
pub deadline-is_absent :
    (last : ℕ) (w : MatchWatch) (since deadline now : ℕ)
    → AbsentFrom since w.state
    → absence_deadline last w ≡ some deadline
    → since ≤ now
    → (is_absent_at w now ≡ leb deadline now) × (deadline ≤ last)
unfolding absence_deadline is_absent_at
deadline-is_absent last w since deadline now a e h = ground arith

-- A notification that comes after the opposite side has come and gone again, for the absence before
-- that, silences the new absence: it has no deadline, and still becomes an absence in its time.
pub late_notification :
    (last : ℕ) (w : MatchWatch) (current_count matched lost now : ℕ)
    → current_count ≢ 0
    → let v = run w (updated current_count matched ∷ updated 0 lost ∷ notified ∷ []) in
      (absence_deadline last v ≡ none) × (is_absent_at v now ≡ leb w.timeout (now - lost))
unfolding run step update_at mark_notified is_absent_at absence_deadline
late_notification last w current_count matched lost now c = ground arith

-- The state is an absence that was notified.
abbrev WasNotified : MatchState → Type 0
WasNotified present = ⊥
WasNotified (absent since flag) = flag ≡ true

step-WasNotified :
    (w : MatchWatch) (e : Event) (es : List Event)
    → Unmatched (e ∷ es)
    → WasNotified w.state
    → WasNotified (step w e).state
unfolding step update_at mark_notified
step-WasNotified w (updated current_count now) es u a = ground arith
step-WasNotified w notified es u a = ground arith

run-WasNotified :
    (w : MatchWatch) (es : List Event)
    → Unmatched es
    → WasNotified w.state
    → WasNotified (run w es).state
unfolding run
run-WasNotified w [] u a = a
run-WasNotified w (updated c now ∷ es) u a =
    run-WasNotified (step w (updated c now)) es u.1 (step-WasNotified w (updated c now) es u a)
run-WasNotified w (notified ∷ es) u a =
    run-WasNotified (step w notified) es u (step-WasNotified w notified es u a)

silent : (last : ℕ) (w : MatchWatch) → WasNotified w.state → absence_deadline last w ≡ none
unfolding absence_deadline
silent last w a = ground arith

marked : (w : MatchWatch) → w.state ≢ present → WasNotified (mark_notified w).state
unfolding mark_notified
marked w p = ground arith

-- An absence is notified once: after a notification there is no deadline, until the opposite side
-- has been seen again.
pub notified_once :
    (last : ℕ) (w : MatchWatch) (es : List Event)
    → Unmatched es
    → w.state ≢ present
    → absence_deadline last (run (mark_notified w) es) ≡ none
notified_once last w es u p =
    silent last (run (mark_notified w) es) (run-WasNotified (mark_notified w) es u (marked w p))

is_absent_since-notified_state :
    (s : MatchState) (timeout now : ℕ)
    → is_absent_since (notified_state s) timeout now ≡ is_absent_since s timeout now
unfolding is_absent_since notified_state
is_absent_since-notified_state present timeout now = refl
is_absent_since-notified_state (absent since flag) timeout now = refl

-- The watchdog's notification does not hide the absence.
pub is_absent_at-mark_notified :
    (w : MatchWatch) (now : ℕ) → is_absent_at (mark_notified w) now ≡ is_absent_at w now
unfolding is_absent_at mark_notified
is_absent_at-mark_notified w now = is_absent_since-notified_state w.state w.timeout now
