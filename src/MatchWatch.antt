-- ===== src/MatchWatch.antt =====
-- cyclonedds/src/match_watch.rs, `MatchWatch`: the absence of the opposite side, confirmed by the
-- passing of time. An instant and a duration are numbers of nanoseconds; `Instant::now()` is an
-- argument, and `last` is the last instant that the platform can represent. The mutex makes each
-- operation one step.
pub mod History
pub mod Watchdog
mod Examples
use cyclonedds_rs.Common.{
  ℕ, ◌+◌, ◌-◌, Option, none, some, Bool, true, false, leb, ◌==◌, if◌then◌else◌,
}

pub data MatchState : Type 0 where
  present : MatchState
  absent : ℕ → Bool → MatchState

pub record MatchWatch : Type 0 where
  pub timeout : ℕ
  pub state : MatchState

unfoldable pub new_at : ℕ → ℕ → MatchWatch
new_at timeout now = record { timeout = timeout; state = absent now false }

-- A measurement that runs keeps its start.
begin_absence : ℕ → MatchState → MatchState
begin_absence now present = absent now false
begin_absence now (absent since notified) = absent since notified

unfoldable pub update_at : MatchWatch → ℕ → ℕ → MatchWatch
unfolding begin_absence
update_at w current_count now =
    if current_count == 0
    then record w { state = begin_absence now w.state }
    else record w { state = present }

-- `duration_since` stops at zero.
is_absent_since : MatchState → ℕ → ℕ → Bool
is_absent_since (absent since notified) timeout now = leb timeout (now - since)
is_absent_since present timeout now = false

unfoldable pub is_absent_at : MatchWatch → ℕ → Bool
unfolding is_absent_since
is_absent_at w now = is_absent_since w.state w.timeout now

-- `Instant::checked_add`.
abbrev pub checked_add : ℕ → ℕ → ℕ → Option ℕ
checked_add last since timeout = if leb (since + timeout) last then some (since + timeout) else none

deadline_of : ℕ → MatchState → ℕ → Option ℕ
deadline_of last (absent since false) timeout = checked_add last since timeout
deadline_of last (absent since true) timeout = none
deadline_of last present timeout = none

unfoldable pub absence_deadline : ℕ → MatchWatch → Option ℕ
unfolding deadline_of
absence_deadline last w = deadline_of last w.state w.timeout

notified_state : MatchState → MatchState
notified_state (absent since notified) = absent since true
notified_state present = present

unfoldable pub mark_notified : MatchWatch → MatchWatch
unfolding notified_state
mark_notified w = record w { state = notified_state w.state }
