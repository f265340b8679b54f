-- ===== src/MatchWatch/Examples.antt =====
-- Tests and instances for cyclonedds/src/match_watch.rs.
use cyclonedds_rs.Common.{◌≡◌, refl, inl, [], ◌∷◌, none, some, false, arith}
use cyclonedds_rs.MatchWatch.{absent, MatchWatch, is_absent_at, absence_deadline}
use cyclonedds_rs.MatchWatch.History.{updated, notified, run, lost_match, late_notification}
use cyclonedds_rs.MatchWatch.Watchdog.{Heap, register, scan, wait_for_next}
use cyclonedds_rs.MatchWatch.Watchdog.Scan.{Within}
use cyclonedds_rs.MatchWatch.Watchdog.Threads.{
  Pc, scanning, notifying, deciding, waiting, World, signal, after_wait, put, initial, scanned,
  Step, creates, registers, scans, decides, Reach, here, next,
}
use cyclonedds_rs.MatchWatch.Watchdog.Threads
use cyclonedds_rs.MatchWatch.Watchdog.Sleep.{never_oversleeps}

abbrev watch : MatchWatch
watch = record { timeout = 100; state = absent 0 false }

-- The steps of the unit test `match_watch_absence_transitions`.
lost_match_example :
    is_absent_at (run (run watch []) (updated 1 50 ∷ updated 0 60 ∷ updated 0 90 ∷ [])) 159 ≡ false
lost_match_example =
    lost_match watch 1 50 60 159 [] (updated 0 90 ∷ []) (λ e. omega arith) (omega arith)

late_notification_example :
    absence_deadline 1000 (run watch (updated 1 150 ∷ updated 0 160 ∷ notified ∷ [])) ≡ none
late_notification_example = (late_notification 1000 watch 1 150 160 300 (λ e. omega arith)).0

abbrev nobody : Heap
nobody i = none

abbrev created : World
created = record (initial nobody 0) { heap = put nobody 7 (some watch) }

abbrev registered : World
registered = record created {
  state = register created.heap created.state 7;
  pc = signal created.pc;
}

abbrev found : World
found = scanned 1000 registered

abbrev settled : World
settled = record found { pc = deciding 1 (some 100) }

abbrev asleep : World
asleep = record settled { pc = after_wait (wait_for_next settled.state settled.now 1 (some 100)) }

falls_asleep : Reach 1000 (initial nobody 0) asleep
unfolding initial put register signal scanned scan absence_deadline wait_for_next after_wait
falls_asleep =
    next
      (next (next (next (next here (creates 7 watch refl (λ m. m))) (registers 7)) (scans refl))
        (Threads.notified 1 (some 100) refl))
      (decides 1 (some 100) refl)

never_oversleeps_example : Within (some 100) 100
unfolding initial put register signal scanned scan absence_deadline wait_for_next after_wait
never_oversleeps_example =
    never_oversleeps 1000 nobody 0 asleep (some 100) 7 100 watch falls_asleep refl refl (inl refl)
      refl refl
