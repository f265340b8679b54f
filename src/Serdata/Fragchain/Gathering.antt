-- ===== src/Serdata/Fragchain/Gathering.antt =====
-- The loop of `serdata_from_fragchain` in cyclonedds/src/serdata.rs: which bytes are gathered.
use cyclonedds_rs.Common.{
  ℕ, ◌+◌, ◌-◌, ◌≤◌, ◌<◌, ◌≡◌, refl, sym, ap, ◌∙◌, ◌⊎◌, inl, inr, List, [], ◌∷◌, ◌++◌, Option, none,
  some, length, take, drop, concat, ltb, if◌then◌else◌, arith, length-take, length-drop, take-take,
  take-take-drop, take-drop_comm, drop-drop, Bool-cases, le→leb, lt→leb, ltb→lt, ltb→ge,
}
use mathlib.Core.List.{append_assoc, append-nil}
use cyclonedds_rs.Util.{ok, unexpected_eof}
use cyclonedds_rs.Util.IntoVec.{AllFull, exact}
use cyclonedds_rs.Stats.{
  DiscardedSamples, invalid_fragchain_reason, cdr_assembly_failed_reason, count_discarded_sample,
}
use cyclonedds_rs.Serdata.{SerData}
use cyclonedds_rs.Serdata.Fragchain.{Rdata, slice_from, gather}

-- The fragment carries the bytes `min..maxp1` of the message.
abbrev pub IsPart : List ℕ → Rdata → Type 0
IsPart message f =
    (f.min ≤ f.maxp1)
    × (f.maxp1 ≤ length message)
    × (take (f.maxp1 - f.min) f.payload ≡ take (f.maxp1 - f.min) (drop f.min message))

abbrev pub AllParts : List ℕ → List Rdata → Type 0
AllParts message [] = Unit
AllParts message (f ∷ fs) = IsPart message f × AllParts message fs

-- The byte up to which a chain covers the message without a hole, from `off` on.
abbrev pub reach : ℕ → List Rdata → ℕ
reach off [] = off
reach off (f ∷ fs) = if ltb off f.maxp1 then reach f.maxp1 fs else reach off fs

-- No fragment begins behind what is covered before it, or ends behind `size`.
abbrev pub Covers : ℕ → List Rdata → ℕ → Type 0
Covers off [] size = off ≤ size
Covers off (f ∷ fs) size =
    (f.min ≤ off) × (f.maxp1 ≤ size) × Covers (if ltb off f.maxp1 then f.maxp1 else off) fs size

slice_from-eq :
    (message : List ℕ) (f : Rdata) (off : ℕ)
    → IsPart message f
    → f.min ≤ off
    → off ≤ f.maxp1
    → slice_from off f ≡ take (f.maxp1 - off) (drop off message)
slice_from-eq message f off p h lt =
    take-drop_comm (f.maxp1 - off) (off - f.min) f.payload
    ∙ ap (drop (off - f.min)) (at_width (sym width) p.2)
    ∙ sym (take-drop_comm (f.maxp1 - off) (off - f.min) (drop f.min message))
    ∙ ap (take (f.maxp1 - off)) (sym (drop-drop f.min (off - f.min) message))
    ∙ ap (λ k. take (f.maxp1 - off) (drop k message)) start
  where
    start : f.min + (off - f.min) ≡ off
    start = omega arith

    width : off - f.min + (f.maxp1 - off) ≡ f.maxp1 - f.min
    width = omega arith

    at_width :
        {k : ℕ}
        → f.maxp1 - f.min ≡ k
        → take (f.maxp1 - f.min) f.payload ≡ take (f.maxp1 - f.min) (drop f.min message)
        → take k f.payload ≡ take k (drop f.min message)
    at_width e q = rw (← e) q

-- What the loop has gathered: the first `off` bytes of the message, in slices none of which is empty.
abbrev pub Gathered : List ℕ → ℕ → List (List ℕ) → Type 0
Gathered message off sg_list = AllFull sg_list × (concat sg_list ≡ take off message)

AllFull-append : (l : List (List ℕ)) (s : List ℕ) → AllFull l → 0 < length s → AllFull (l ++ s ∷ [])
AllFull-append [] s h p = (p, tt)
AllFull-append (x ∷ l) s h p = (h.0, AllFull-append l s h.1 p)

concat-append : (l : List (List ℕ)) (s : List ℕ) → concat (l ++ s ∷ []) ≡ concat l ++ s
concat-append [] s = append-nil s
concat-append (x ∷ l) s = ap (λ t. x ++ t) (concat-append l s) ∙ sym (append_assoc x (concat l) s)

Gathered-push :
    (message : List ℕ) (f : Rdata) (off : ℕ) (sg_list : List (List ℕ))
    → IsPart message f
    → f.min ≤ off
    → off < f.maxp1
    → Gathered message off sg_list
    → Gathered message f.maxp1 (sg_list ++ slice_from off f ∷ [])
Gathered-push message f off sg_list p h lt g = (
  AllFull-append sg_list (slice_from off f) g.0 (
      rw e (
        omega
          (arith, length-take (f.maxp1 - off) (drop off message), length-drop off message, p.1))),
  concat-append sg_list (slice_from off f)
      ∙ ap (λ t. t ++ slice_from off f) g.1
      ∙ ap (λ t. take off message ++ t) e
      ∙ take-take-drop off (f.maxp1 - off) message
      ∙ ap (λ k. take k message) sum,
)
  where
    e : slice_from off f ≡ take (f.maxp1 - off) (drop off message)
    e = slice_from-eq message f off p h (omega arith)

    sum : off + (f.maxp1 - off) ≡ f.maxp1
    sum = omega arith

-- The three ways on from a fragment.
gather_taken :
    (f : Rdata) (fs : List Rdata) (off : ℕ) (sg_list : List (List ℕ)) (size : ℕ)
    → f.min ≤ off
    → off < f.maxp1
    → f.maxp1 ≤ size
    → gather off sg_list (f ∷ fs) size ≡ gather f.maxp1 (sg_list ++ slice_from off f ∷ []) fs size
unfolding gather
gather_taken f fs off sg_list size h k l = ground arith

gather_skipped :
    (f : Rdata) (fs : List Rdata) (off : ℕ) (sg_list : List (List ℕ)) (size : ℕ)
    → f.min ≤ off
    → f.maxp1 ≤ off
    → gather off sg_list (f ∷ fs) size ≡ gather off sg_list fs size
unfolding gather
gather_skipped f fs off sg_list size h k = ground arith

gather_accepts :
    (f : Rdata) (fs : List Rdata) (off : ℕ) (sg_list sg' : List (List ℕ)) (size : ℕ)
    → gather off sg_list (f ∷ fs) size ≡ some sg'
    → (f.min ≤ off) × ((f.maxp1 ≤ off) ⊎ (f.maxp1 ≤ size))
unfolding gather
gather_accepts f fs off sg_list sg' size e = ground arith

-- What the loop returns is gathered from the message, up to where the chain reaches.
pub gather-Gathered :
    (message : List ℕ) (fs : List Rdata) (off : ℕ) (sg_list sg' : List (List ℕ)) (size : ℕ)
    → AllParts message fs
    → Gathered message off sg_list
    → gather off sg_list fs size ≡ some sg'
    → Gathered message (reach off fs) sg'
gather-Gathered message [] off sg_list sg' size p g e =
    let same : sg_list ≡ sg' = unfold gather in cc in rw (← same) g
gather-Gathered message (f ∷ fs) off sg_list sg' size p g e =
    let (low, high) = gather_accepts f fs off sg_list sg' size e in
    elim (Bool-cases (ltb off f.maxp1)) [
      | inl more ↦ rw more (
          gather-Gathered message fs f.maxp1 (sg_list ++ slice_from off f ∷ []) sg' size p.1
            (Gathered-push message f off sg_list p.0 low (ltb→lt _ _ more) g)
            (sym (
                gather_taken f fs off sg_list size low (ltb→lt _ _ more)
                  (ends_inside off f.maxp1 size (ltb→lt _ _ more) high))
              ∙ e))
      | inr old ↦ rw old (
          gather-Gathered message fs off sg_list sg' size p.1 g
            (sym (gather_skipped f fs off sg_list size low (ltb→ge _ _ old)) ∙ e))
    ]
  where
    ends_inside : (a b c : ℕ) → a < b → (b ≤ a) ⊎ (b ≤ c) → b ≤ c
    ends_inside a b c h k = ground arith

-- A chain that covers is accepted.
pub gather-Covers :
    (fs : List Rdata) (off : ℕ) (sg_list : List (List ℕ)) (size : ℕ)
    → Covers off fs size
    → (sg' : List (List ℕ)) × (gather off sg_list fs size ≡ some sg')
gather-Covers [] off sg_list size c = (sg_list, unfold gather in refl)
gather-Covers (f ∷ fs) off sg_list size c = elim (Bool-cases (ltb off f.maxp1)) [
  | inl more ↦
      let (sg', e) =
        gather-Covers fs f.maxp1 (sg_list ++ slice_from off f ∷ []) size (rw more at c.2) in
      (sg', gather_taken f fs off sg_list size c.0 (ltb→lt _ _ more) c.1 ∙ e)
  | inr old ↦
      let (sg', e) = gather-Covers fs off sg_list size (rw old at c.2) in
      (sg', gather_skipped f fs off sg_list size c.0 (ltb→ge _ _ old) ∙ e)
]

pub reach-le :
    (message : List ℕ) (fs : List Rdata) (off : ℕ)
    → AllParts message fs
    → off ≤ length message
    → reach off fs ≤ length message
reach-le message [] off p h = h
reach-le message (f ∷ fs) off p h =
    ground (arith, reach-le message fs f.maxp1 p.1 p.0.1, reach-le message fs off p.1)

-- `size` bytes of the first `reached` bytes of a message.
pub exact-take :
    (message : List ℕ) (reached size : ℕ)
    → reached ≤ length message
    → size ≤ reached
    → exact size (take reached message) ≡ ok (take size message)
exact-take message reached size h le =
    rw (le→leb size (length (take reached message)) (omega (arith, length-take reached message)))
      (ap ok (take-take size reached message le))

pub exact-take_short :
    (message : List ℕ) (reached size : ℕ)
    → reached < size
    → exact size (take reached message) ≡ unexpected_eof
exact-take_short message reached size lt =
    rw (lt→leb size (length (take reached message)) (omega (arith, length-take reached message)))
      refl

-- One discarded sample is counted if there is no serdata, and none otherwise.
abbrev pub Accounted :
    {T : Type 0} → DiscardedSamples → Option (SerData T) × DiscardedSamples → Type 0
Accounted {T} stats r =
    ((r.0 ≡ none)
      × ((r.1 ≡ count_discarded_sample invalid_fragchain_reason stats)
          ⊎ (r.1 ≡ count_discarded_sample cdr_assembly_failed_reason stats)))
    ⊎ ((serdata : SerData T) × (r.0 ≡ some serdata) × (r.1 ≡ stats))
