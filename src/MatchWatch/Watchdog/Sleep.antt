-- ===== src/MatchWatch/Watchdog/Sleep.antt =====
-- The sleep of the watchdog of cyclonedds/src/match_watch.rs among the other threads.
use cyclonedds_rs.Common.{
  ℕ, suc, ◌≤◌, ◌<◌, ◌≡◌, ◌≢◌, sym, ◌∙◌, ◌⊎◌, inl, inr, List, [], ◌∷◌, Option, none, some, arith,
  Option-cases, ==_self,
}
use native.Mathlib.Decide.{ℕ_discrete}
use cyclonedds_rs.MatchWatch.{MatchWatch, absence_deadline, mark_notified, update_at}
use cyclonedds_rs.MatchWatch.Watchdog.{
  Heap, WatchdogState, register, reschedule, scan, wait_for_next, notify_absence,
}
use cyclonedds_rs.MatchWatch.Watchdog.Scan.{In, Within, scan-Noted, scan-kept}
use cyclonedds_rs.MatchWatch.Watchdog.Threads.{
  Pc, scanning, notifying, deciding, waiting, World, signal, after_wait, put, initial, scanned,
  Step, tick, scans, notifies, panics, notified, decides, wakes, registers, creates, updates,
  reschedules, drops, Reach, here, next,
}

module _ (last : ℕ) where
  -- Every registered object that stands and has a deadline is about to be notified, or its deadline
  -- is not before the limit.
  abbrev Guarded : World → List ℕ → Option ℕ → Type 0
  Guarded s expired nearest =
      (i deadline : ℕ) (w : MatchWatch)
      → In i s.state.entries
      → s.heap i ≡ some w
      → absence_deadline last w ≡ some deadline
      → In i expired ⊎ Within nearest deadline

  abbrev Safe : World → Pc → Type 0
  Safe s scanning = Unit
  Safe s (notifying expired seen nearest) =
      (seen ≤ s.state.generation)
      × (s.state.generation ≡ seen → s.pending ≡ 0 → Guarded s expired nearest)
  Safe s (deciding seen nearest) =
      (seen ≤ s.state.generation)
      × (s.state.generation ≡ seen → s.pending ≡ 0 → Guarded s [] nearest)
  Safe s (waiting nearest) = s.pending ≡ 0 → Guarded s [] nearest

  scanned-Guarded :
      (s : World)
      → Guarded
          (scanned last s)
          (scan last s.heap s.now s.state).expired
          (scan last s.heap s.now s.state).nearest
  unfolding scanned
  scanned-Guarded s i deadline w m h e =
      elim (scan-Noted last s.heap s.now i deadline w s.state
        (scan-kept last s.heap s.now i s.state m) h e).1 [ inl x ↦ inl x.0 | inr n ↦ inr n ]

  -- A notified watch has no deadline.
  mark-deadline : (w : MatchWatch) → absence_deadline last (mark_notified w) ≡ none
  unfolding absence_deadline mark_notified
  mark-deadline w = ground arith

  notify_self :
      (heap : Heap) (i deadline : ℕ) (w : MatchWatch)
      → notify_absence heap i i ≡ some w
      → absence_deadline last w ≡ some deadline
      → ⊥
  unfolding notify_absence
  notify_self heap i deadline w h e = elim (Option-cases (heap i)) [
    | inl missing ↦ let found = rw (==_self i, missing) at h in cc
    | inr (w0, stands) ↦
        let found = rw (==_self i, stands) at h in
        let same : mark_notified w0 ≡ w = cc in cc (mark-deadline w0)
  ]

  notify_other :
      (heap : Heap) (i j : ℕ) (w : MatchWatch)
      → i ≢ j
      → notify_absence heap i j ≡ some w
      → heap j ≡ some w
  unfolding notify_absence
  notify_other heap i j w n h = ground arith

  put_other : (heap : Heap) (i j : ℕ) (o : Option MatchWatch) → i ≢ j → put heap i o j ≡ heap j
  unfolding put
  put_other heap i j o n = ground arith

  put_self : (heap : Heap) (i : ℕ) (o : Option MatchWatch) → put heap i o i ≡ o
  unfolding put
  put_self heap i o = ground arith

  -- A notification takes the object off the list of those to be notified.
  notifies-Guarded :
      (s : World) (i : ℕ) (expired : List ℕ) (nearest : Option ℕ) (pc : Pc)
      → Guarded s (i ∷ expired) nearest
      → Guarded (record s { heap = notify_absence s.heap i; pc = pc }) expired nearest
  notifies-Guarded s i expired nearest pc g j deadline w m h e = elim (ℕ_discrete i j) [
    | yes same ↦ absurd (notify_self s.heap j deadline w (rw same at h) e)
    | no other ↦ elim (g j deadline w m (notify_other s.heap i j w other h) e) [
      | inl (inl same) ↦ absurd (other same)
      | inl (inr x) ↦ inl x
      | inr n ↦ inr n
    ]
  ]

  drops-Guarded :
      (s : World) (i : ℕ) (expired : List ℕ) (nearest : Option ℕ)
      → Guarded s expired nearest
      → Guarded (record s { heap = put s.heap i none }) expired nearest
  drops-Guarded s i expired nearest g j deadline w m h e = elim (ℕ_discrete i j) [
    | yes same ↦ let gone = sym (put_self s.heap j none) ∙ (rw same at h) in cc
    | no other ↦ g j deadline w m (sym (put_other s.heap i j none other) ∙ h) e
  ]

  creates-Guarded :
      (s : World) (i : ℕ) (w : MatchWatch) (expired : List ℕ) (nearest : Option ℕ)
      → ¬ In i s.state.entries
      → Guarded s expired nearest
      → Guarded (record s { heap = put s.heap i (some w) }) expired nearest
  creates-Guarded s i w expired nearest fresh g j deadline v m h e = elim (ℕ_discrete i j) [
    | yes same ↦ absurd (fresh (rw (← same) at m))
    | no other ↦ g j deadline v m (sym (put_other s.heap i j (some w) other) ∙ h) e
  ]

  -- `wait_for_next` goes on, or nothing has changed since the scan and it waits for the nearest
  -- deadline.
  decides_lem :
      (s : World) (seen : ℕ) (nearest : Option ℕ)
      → let pc = after_wait (wait_for_next s.state s.now seen nearest) in
        (pc ≡ scanning) ⊎ ((s.state.generation ≡ seen) × (pc ≡ waiting nearest))
  unfolding wait_for_next after_wait
  decides_lem s seen none = ground arith
  decides_lem s seen (some deadline) = ground arith

  at_pc : (s : World) (p q : Pc) → p ≡ q → Safe s p → Safe s q
  at_pc s p q e v = rw e at v

  tick-Safe : (s : World) (n : ℕ) (pc : Pc) → Safe s pc → Safe (record s { now = n }) pc
  tick-Safe s n scanning v = tt
  tick-Safe s n (notifying expired seen nearest) v = v
  tick-Safe s n (deciding seen nearest) v = v
  tick-Safe s n (waiting nearest) v = v

  -- A change of the generation calls the thread back, or makes it scan again before it waits.
  signal-Safe :
      (s : World) (state : WatchdogState) (pending : ℕ) (pc : Pc)
      → s.state.generation < state.generation
      → Safe s pc
      → Safe (record s { state = state; pc = signal pc; pending = pending }) (signal pc)
  unfolding signal
  signal-Safe s state pending scanning h v = tt
  signal-Safe s state pending (notifying expired seen nearest) h v =
      (omega (arith, v.0), λ e. absurd (omega (arith, v.0)))
  signal-Safe s state pending (deciding seen nearest) h v =
      (omega (arith, v.0), λ e. absurd (omega (arith, v.0)))
  signal-Safe s state pending (waiting nearest) h v = tt

  updates-Safe :
      (s : World) (heap : Heap) (pc : Pc)
      → Safe s pc
      → Safe (record s { heap = heap; pending = suc s.pending }) pc
  updates-Safe s heap scanning v = tt
  updates-Safe s heap (notifying expired seen nearest) v = (v.0, λ e p. absurd (omega arith))
  updates-Safe s heap (deciding seen nearest) v = (v.0, λ e p. absurd (omega arith))
  updates-Safe s heap (waiting nearest) v = λ p. absurd (omega arith)

  -- A change of the heap that keeps each list of deadlines guarded keeps the thread safe.
  heap-Safe :
      (s : World) (heap : Heap) (pc : Pc)
      → ((expired : List ℕ) (nearest : Option ℕ)
          → Guarded s expired nearest
          → Guarded (record s { heap = heap }) expired nearest)
      → Safe s pc
      → Safe (record s { heap = heap }) pc
  heap-Safe s heap scanning k v = tt
  heap-Safe s heap (notifying expired seen nearest) k v = (v.0, λ e p. k expired nearest (v.1 e p))
  heap-Safe s heap (deciding seen nearest) k v = (v.0, λ e p. k [] nearest (v.1 e p))
  heap-Safe s heap (waiting nearest) k v = λ p. k [] nearest (v p)

  decides-Safe :
      (s : World) (seen : ℕ) (nearest : Option ℕ)
      → Safe s (deciding seen nearest)
      → let pc = after_wait (wait_for_next s.state s.now seen nearest) in
        Safe (record s { pc = pc }) pc
  decides-Safe s seen nearest v = elim (decides_lem s seen nearest) [
    | inl e ↦ rw e tt
    | inr (same, e) ↦ rw e (λ p. v.1 same p)
  ]

  -- Every step keeps the thread safe.
  Step-Safe : {s t : World} → Step last s t → Safe s s.pc → Safe t t.pc
  Step-Safe {s} (tick n h) v = tick-Safe s n s.pc v
  Step-Safe {s} (scans e) v = unfold scanned in (omega arith, λ same p. scanned-Guarded s)
  Step-Safe {s} (notifies i expired seen nearest e) v =
      let (le, g) = at_pc s s.pc (notifying (i ∷ expired) seen nearest) e v in
      (
        le,
        λ same p. notifies-Guarded s i expired nearest (notifying expired seen nearest) (g same p),
      )
  Step-Safe (panics i expired seen nearest e) v = tt
  Step-Safe {s} (notified seen nearest e) v = at_pc s s.pc (notifying [] seen nearest) e v
  Step-Safe {s} (decides seen nearest e) v =
      decides-Safe s seen nearest (at_pc s s.pc (deciding seen nearest) e v)
  Step-Safe (wakes nearest e) v = tt
  Step-Safe {s} (registers i) v =
      signal-Safe s (register s.heap s.state i) s.pending s.pc (unfold register in omega arith) v
  Step-Safe {s} (creates i w h f) v =
      heap-Safe s (put s.heap i (some w)) s.pc (λ x n. creates-Guarded s i w x n f) v
  Step-Safe {s} (updates i c w h) v =
      updates-Safe s (put s.heap i (some (update_at w c s.now))) s.pc v
  Step-Safe {s} (reschedules p h) v =
      signal-Safe s (reschedule s.state) p s.pc (unfold reschedule in omega arith) v
  Step-Safe {s} (drops i) v = heap-Safe s (put s.heap i none) s.pc (drops-Guarded s i) v

  Reach-Safe : {s t : World} → Safe s s.pc → Reach last s t → Safe t t.pc
  Reach-Safe v here = v
  Reach-Safe v (next r st) = Step-Safe st (Reach-Safe v r)

  -- The watchdog never sleeps past a deadline: in every state that can be reached, whatever the
  -- order of the threads' steps, if the thread waits and every listener that has updated a watch has
  -- called `reschedule`, then for each registered object that stands and has a deadline the thread
  -- waits with a limit that is not after it.
  pub never_oversleeps :
      (heap : Heap) (now : ℕ) (s : World) (limit : Option ℕ) (i deadline : ℕ) (w : MatchWatch)
      → Reach last (initial heap now) s
      → s.pc ≡ waiting limit
      → s.pending ≡ 0
      → In i s.state.entries
      → s.heap i ≡ some w
      → absence_deadline last w ≡ some deadline
      → Within limit deadline
  unfolding initial
  never_oversleeps heap now s limit i deadline w r e p m h d =
      elim (at_pc s s.pc (waiting limit) e (Reach-Safe tt r) p i deadline w m h d) [
        | inl f ↦ absurd f
        | inr n ↦ n
      ]
