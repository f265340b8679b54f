-- ===== src/Writers/Absence.antt =====
-- cyclonedds/src/dds_writer.rs: `is_reader_absent`, which logs when what it observes has changed.
use cyclonedds_rs.Common.{
  ℕ, List, [], ◌∷◌, ◌++◌, Bool, true, false, not, Option, none, some, if◌then◌else◌,
}
use cyclonedds_rs.MatchWatch.{MatchWatch, is_absent_at, update_at}

-- `AbsenceWatch`: the watch is shared with the listener.
pub record AbsenceWatch : Type 0 where
  pub watch : MatchWatch
  pub last_absent : Bool

-- The lines of the log: `true` says that the reader is absent, `false` that it has recovered.
abbrev pub Log : Type 0
Log = List Bool

abbrev pub differ : Bool → Bool → Bool
differ true b = not b
differ false b = b

-- The swap of the observed state, and the line that is logged on a change.
unfoldable pub observe : Bool → AbsenceWatch → Log → Bool × AbsenceWatch × Log
observe absent a log = (
  absent,
  record a { last_absent = absent },
  if differ absent a.last_absent then log ++ (absent ∷ []) else log,
)

abbrev pub observe_some : Bool × AbsenceWatch × Log → Bool × Option AbsenceWatch × Log
observe_some r = (r.0, some r.1, r.2)

-- At a time. A writer without a watch is never without readers.
unfoldable pub is_reader_absent : Option AbsenceWatch → ℕ → Log → Bool × Option AbsenceWatch × Log
is_reader_absent none now log = (false, none, log)
is_reader_absent (some a) now log = observe_some (observe (is_absent_at a.watch now) a log)

-- A step of the world: the listener reports a number of matched readers, or the caller asks.
pub data Event : Type 0 where
  matched : ℕ → ℕ → Event
  asked : ℕ → Event

unfoldable pub step : Event → AbsenceWatch → Log → AbsenceWatch × Log
step (matched current_count now) a log =
    (record a { watch = update_at a.watch current_count now }, log)
step (asked now) a log = let r = observe (is_absent_at a.watch now) a log in (r.1, r.2)

unfoldable pub steps : List Event → AbsenceWatch → Log → AbsenceWatch × Log
steps [] a log = (a, log)
steps (event ∷ events) a log = let s = step event a log in steps events s.0 s.1

-- The lines alternate, from one that differs from the first value, and the last is the state kept.
pub data Alternates : Bool → Log → Bool → Type 0 where
  nothing_logged : (b : Bool) → Alternates b [] b
  line_logged :
      (b : Bool) (log : Log) (last : Bool)
      → Alternates (not b) log last
      → Alternates b (not b ∷ log) last

Alternates-end :
    (first last : Bool) (log : Log)
    → Alternates first log last
    → Alternates first (log ++ (not last ∷ [])) (not last)
Alternates-end b _ [] (nothing_logged _) = line_logged b [] (not b) (nothing_logged (not b))
Alternates-end b last (_ ∷ log) (line_logged _ _ _ t) =
    line_logged b (log ++ (not last ∷ [])) (not last) (Alternates-end (not b) last log t)

observed :
    (first absent last : Bool) (log : Log)
    → Alternates first log last
    → Alternates first (if differ absent last then log ++ (absent ∷ []) else log) absent
observed first true true log t = t
observed first true false log t = Alternates-end first false log t
observed first false true log t = Alternates-end first true log t
observed first false false log t = t

observe-Alternates :
    (first absent : Bool) (a : AbsenceWatch) (log : Log)
    → Alternates first log a.last_absent
    → Alternates first (observe absent a log).2 (observe absent a log).1.last_absent
unfolding observe
observe-Alternates first absent a log t = observed first absent a.last_absent log t

step-Alternates :
    (first : Bool) (event : Event) (a : AbsenceWatch) (log : Log)
    → Alternates first log a.last_absent
    → Alternates first (step event a log).1 (step event a log).0.last_absent
unfolding step
step-Alternates first (matched current_count now) a log t = t
step-Alternates first (asked now) a log t =
    observe-Alternates first (is_absent_at a.watch now) a log t

-- Whatever the listener reports and however often the caller asks, in whatever order: the lines of
-- the log alternate between absent and recovered, beginning with absent, and the last line is the
-- state that was observed last.
pub log-Alternates :
    (events : List Event) (a : AbsenceWatch) (log : Log)
    → Alternates false log a.last_absent
    → Alternates false (steps events a log).1 (steps events a log).0.last_absent
unfolding steps
log-Alternates [] a log t = t
log-Alternates (event ∷ events) a log t =
    log-Alternates events (step event a log).0 (step event a log).1
      (step-Alternates false event a log t)
