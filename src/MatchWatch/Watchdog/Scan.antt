-- ===== src/MatchWatch/Watchdog/Scan.antt =====
-- What a scan of the watchdog in cyclonedds/src/match_watch.rs finds.
use cyclonedds_rs.Common.{
  ℕ, ◌≤◌, ◌<◌, ◌≡◌, refl, ◌⊎◌, inl, inr, List, [], ◌∷◌, ◌++◌, Option, none, some, arith,
}
use native.Mathlib.Decide.{dec_le}
use cyclonedds_rs.MatchWatch.{MatchWatch, absence_deadline}
use cyclonedds_rs.MatchWatch.Watchdog.{
  Heap, WatchdogState, Found, nearer, note_deadline, scan_entry, scan_loop, scan,
}

-- The value stands in the list.
abbrev pub In : ℕ → List ℕ → Type 0
In i [] = ⊥
In i (j ∷ js) = (j ≡ i) ⊎ In i js

pub In-append_left : (i : ℕ) (xs ys : List ℕ) → In i xs → In i (xs ++ ys)
In-append_left i [] ys m = elim m [ ]
In-append_left i (x ∷ xs) ys (inl e) = inl e
In-append_left i (x ∷ xs) ys (inr m) = inr (In-append_left i xs ys m)

pub In-append_last : (i : ℕ) (xs : List ℕ) → In i (xs ++ i ∷ [])
In-append_last i [] = inl refl
In-append_last i (x ∷ xs) = inr (In-append_last i xs)

-- There is a limit, not after the deadline.
abbrev pub Within : Option ℕ → ℕ → Type 0
Within none deadline = ⊥
Within (some n) deadline = n ≤ deadline

-- The object is kept, and found as expired or with its deadline.
abbrev pub Noted : ℕ → Found → ℕ → ℕ → Type 0
Noted now found i deadline =
    In i found.kept × ((In i found.expired × (deadline ≤ now)) ⊎ Within found.nearest deadline)

Within-nearer :
    (n : Option ℕ) (x deadline : ℕ) → Within n deadline → Within (some (nearer n x)) deadline
unfolding nearer
Within-nearer none x deadline h = absurd h
Within-nearer (some n) x deadline h = omega arith

nearer-le : (n : Option ℕ) (x : ℕ) → nearer n x ≤ x
unfolding nearer
nearer-le none x = omega arith
nearer-le (some n) x = omega arith

note_expired :
    (now i d : ℕ) (found : Found)
    → d ≤ now
    → note_deadline now found i (some d) ≡ record found { expired = found.expired ++ i ∷ [] }
unfolding note_deadline
note_expired now i d found h = ground arith

note_nearest :
    (now i d : ℕ) (found : Found)
    → now < d
    → note_deadline now found i (some d) ≡ record found { nearest = some (nearer found.nearest d) }
unfolding note_deadline
note_nearest now i d found h = ground arith

note_deadline-Noted :
    (now i j deadline : ℕ) (found : Found) (o : Option ℕ)
    → Noted now found i deadline
    → Noted now (note_deadline now found j o) i deadline
note_deadline-Noted now i j deadline found none n = unfold note_deadline in n
note_deadline-Noted now i j deadline found (some d) (k, m) = elim (dec_le d now) [
  | yes past ↦ rw (note_expired now j d found past) (
    k,
    elim m [ inl (e, h) ↦ inl (In-append_left i found.expired (j ∷ []) e, h) | inr w ↦ inr w ],
  )
  | no later ↦
      rw (note_nearest now j d found (omega arith))
        (k, elim m [ inl e ↦ inl e | inr w ↦ inr (Within-nearer found.nearest d deadline w) ])
]

scan_entry-Noted :
    (last now i j deadline : ℕ) (found : Found) (o : Option MatchWatch)
    → Noted now found i deadline
    → Noted now (scan_entry last now found j o) i deadline
unfolding scan_entry
scan_entry-Noted last now i j deadline found none n = n
scan_entry-Noted last now i j deadline found (some w) (k, m) =
    note_deadline-Noted now i j deadline (record found { kept = found.kept ++ j ∷ [] })
      (absence_deadline last w) (In-append_left i found.kept (j ∷ []) k, m)

note_deadline_self :
    (now i deadline : ℕ) (found : Found)
    → In i found.kept
    → Noted now (note_deadline now found i (some deadline)) i deadline
note_deadline_self now i deadline found k = elim (dec_le deadline now) [
  | yes past ↦
      rw (note_expired now i deadline found past) (k, inl (In-append_last i found.expired, past))
  | no later ↦
      rw (note_nearest now i deadline found (omega arith))
        (k, inr (nearer-le found.nearest deadline))
]

scan_entry_self :
    (last now i deadline : ℕ) (found : Found) (w : MatchWatch)
    → absence_deadline last w ≡ some deadline
    → Noted now (scan_entry last now found i (some w)) i deadline
unfolding scan_entry
scan_entry_self last now i deadline found w e = rw e (
    note_deadline_self now i deadline (record found { kept = found.kept ++ i ∷ [] })
      (In-append_last i found.kept))

scan_loop-Noted :
    (last : ℕ) (heap : Heap) (now i deadline : ℕ) (found : Found) (entries : List ℕ)
    → Noted now found i deadline
    → Noted now (scan_loop last heap now found entries) i deadline
unfolding scan_loop
scan_loop-Noted last heap now i deadline found [] n = n
scan_loop-Noted last heap now i deadline found (j ∷ entries) n =
    scan_loop-Noted last heap now i deadline (scan_entry last now found j (heap j)) entries
      (scan_entry-Noted last now i j deadline found (heap j) n)

scan_loop_finds :
    (last : ℕ) (heap : Heap) (now i deadline : ℕ) (w : MatchWatch) (found : Found)
    (entries : List ℕ)
    → In i entries
    → heap i ≡ some w
    → absence_deadline last w ≡ some deadline
    → Noted now (scan_loop last heap now found entries) i deadline
unfolding scan_loop
scan_loop_finds last heap now i deadline w found [] m h e = elim m [ ]
scan_loop_finds last heap now i deadline w found (j ∷ entries) (inl same) h e =
    scan_loop-Noted last heap now i deadline (scan_entry last now found j (heap j)) entries
      (rw (same, h) (scan_entry_self last now i deadline found w e))
scan_loop_finds last heap now i deadline w found (j ∷ entries) (inr m) h e =
    scan_loop_finds last heap now i deadline w (scan_entry last now found j (heap j)) entries m h e

-- A scan misses no registered object that stands and has a deadline: it keeps the object, and finds
-- it as expired, if the deadline has passed, or the nearest deadline is not after its own.
pub scan-Noted :
    (last : ℕ) (heap : Heap) (now i deadline : ℕ) (w : MatchWatch) (state : WatchdogState)
    → In i state.entries
    → heap i ≡ some w
    → absence_deadline last w ≡ some deadline
    → Noted now (scan last heap now state) i deadline
unfolding scan
scan-Noted last heap now i deadline w state m h e =
    scan_loop_finds last heap now i deadline w (record { kept = []; expired = []; nearest = none })
      state.entries m h e

In-append_cases : (i : ℕ) (xs ys : List ℕ) → In i (xs ++ ys) → In i xs ⊎ In i ys
In-append_cases i [] ys m = inr m
In-append_cases i (x ∷ xs) ys (inl e) = inl (inl e)
In-append_cases i (x ∷ xs) ys (inr m) = elim (In-append_cases i xs ys m) [
  | inl a ↦ inl (inr a)
  | inr b ↦ inr b
]

note_deadline-kept :
    (now j : ℕ) (found : Found) (o : Option ℕ) → (note_deadline now found j o).kept ≡ found.kept
unfolding note_deadline
note_deadline-kept now j found none = refl
note_deadline-kept now j found (some d) = ground arith

scan_entry-kept :
    (last now i j : ℕ) (found : Found) (o : Option MatchWatch)
    → In i (scan_entry last now found j o).kept
    → In i found.kept ⊎ (j ≡ i)
unfolding scan_entry
scan_entry-kept last now i j found none m = inl m
scan_entry-kept last now i j found (some w) m =
    elim (In-append_cases i found.kept (j ∷ []) (
      rw
        (note_deadline-kept now j (record found { kept = found.kept ++ j ∷ [] })
          (absence_deadline last w))
        at m)) [ inl a ↦ inl a | inr (inl e) ↦ inr e | inr (inr f) ↦ absurd f ]

scan_loop-kept :
    (last : ℕ) (heap : Heap) (now i : ℕ) (found : Found) (entries : List ℕ)
    → In i (scan_loop last heap now found entries).kept
    → In i found.kept ⊎ In i entries
unfolding scan_loop
scan_loop-kept last heap now i found [] m = inl m
scan_loop-kept last heap now i found (j ∷ entries) m =
    elim (scan_loop-kept last heap now i (scan_entry last now found j (heap j)) entries m) [
      | inl k ↦ elim (scan_entry-kept last now i j found (heap j) k) [
        | inl a ↦ inl a
        | inr e ↦ inr (inl e)
      ]
      | inr r ↦ inr (inr r)
    ]

-- A scan keeps none but registered objects.
pub scan-kept :
    (last : ℕ) (heap : Heap) (now i : ℕ) (state : WatchdogState)
    → In i (scan last heap now state).kept
    → In i state.entries
unfolding scan
scan-kept last heap now i state m =
    elim (scan_loop-kept last heap now i (record { kept = []; expired = []; nearest = none })
      state.entries m) [ inl f ↦ absurd f | inr e ↦ e ]
