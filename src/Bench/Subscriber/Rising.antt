-- ===== src/Bench/Subscriber/Rising.antt =====
-- bench/src/bin/subscriber.rs: the sequence numbers of samples without complaint.
use cyclonedds_rs.Common.{
  ℕ, zero, suc, ◌+◌, ◌≤◌, ◌<◌, ◌≡◌, refl, ap, ◌⊎◌, inl, inr, Option, none, some, true, false, List,
  [], ◌∷◌, ◌==◌, length, take, arith, Bool-cases, false-true,
}
use cyclonedds_rs.Bench.Subscriber.{
  Received, ReceiveState, contains, falls_behind, on_sample, on_samples, missing_of,
}
use cyclonedds_rs.Bench.Subscriber.Checks.{
  IsFine, AllRight, sequences, range, on_sample-IsFine, on_samples-IsFine,
}

-- The sequence numbers rise, each from `m` at least.
abbrev pub Rising : ℕ → List ℕ → Type 0
Rising m [] = Unit
Rising m (x ∷ xs) = (m ≤ x) × Rising (suc x) xs

-- The number from which the next sequence number has to come.
abbrev pub bound_of : Option ℕ → ℕ
bound_of none = 0
bound_of (some last) = suc last

-- The last number is among those seen, and none is greater.
abbrev pub IsBounded : ReceiveState → Type 0
IsBounded st =
    ((k : ℕ) → contains k st.seen ≡ true → k < bound_of st.last_sequence)
    × ((b : ℕ) → st.last_sequence ≡ some b → contains b st.seen ≡ true)

pub contains_self : (k : ℕ) (seen : List ℕ) → contains k (k ∷ seen) ≡ true
unfolding contains
contains_self k seen = ground arith

contains_head :
    (k s : ℕ) (seen : List ℕ) → contains k (s ∷ seen) ≡ true → (k ≡ s) ⊎ (contains k seen ≡ true)
unfolding contains
contains_head k s seen h = elim (Bool-cases (k == s)) [
  | inl e ↦ inl (ground arith)
  | inr e ↦ inr (ground arith)
]

contains_later : (k s : ℕ) (seen : List ℕ) → contains k seen ≡ true → contains k (s ∷ seen) ≡ true
unfolding contains
contains_later k s seen h = ground arith

contains_tail :
    (k s : ℕ) (seen : List ℕ) → s < k → contains k (s ∷ seen) ≡ true → contains k seen ≡ true
unfolding contains
contains_tail k s seen h c = ground arith

-- A fresh number that does not fall behind lies past the bound.
past_bound :
    (last : Option ℕ) (k : ℕ) (seen : List ℕ)
    → ((b : ℕ) → last ≡ some b → contains b seen ≡ true)
    → contains k seen ≡ false
    → falls_behind last k ≡ false
    → bound_of last ≤ k
past_bound none k seen h fresh order = omega arith
past_bound (some b) k seen h fresh order = elim (Bool-cases (b == k)) [
  | inl e ↦ absurd (ground (arith, h b refl))
  | inr e ↦ ground arith
]

next-IsBounded :
    (st after : ReceiveState) (k : ℕ)
    → IsBounded st
    → bound_of st.last_sequence ≤ k
    → after.seen ≡ k ∷ st.seen
    → after.last_sequence ≡ some k
    → IsBounded after
next-IsBounded st after k h past s l = (
  (λ j c. rw l (elim (contains_head j k st.seen (rw s at c)) [
    | inl e ↦ omega arith
    | inr old ↦ omega (arith, h.0 j old)
  ])),
  (λ b e. rw s (ground (arith, contains_self k st.seen))),
)

module _ (warmup total bytes : ℕ) where
  -- What the samples of a run without complaint are.
  pub on_samples-Rising :
      (st : ReceiveState) (items : List Received)
      → IsBounded st
      → IsFine (on_samples warmup total bytes st items)
      → Rising (bound_of st.last_sequence) (sequences items)
        × AllRight total bytes items
        × ((on_samples warmup total bytes st items).messages_received
            ≡ st.messages_received + length items)
        × ((k : ℕ)
            → contains k (on_samples warmup total bytes st items).seen ≡ true
            → (contains k st.seen ≡ true) ⊎ (contains k (sequences items) ≡ true))
  unfolding on_samples
  on_samples-Rising st [] h f = (tt, tt, omega arith, λ k c. inl c)
  on_samples-Rising st (r ∷ items) h f =
      let after = on_sample warmup total bytes st r in
      let s = r.message.sequence in
      let (f', right, fresh, order, seen', last', count') =
        on_sample-IsFine warmup total bytes st r
          (on_samples-IsFine warmup total bytes after items f) in
      let past = past_bound st.last_sequence s st.seen h.1 fresh order in
      let (rise, rights, counted, from) =
        on_samples-Rising after items (next-IsBounded st after s h past seen' last') f in
      (
        (past, rw last' at rise),
        (right, rights),
        omega arith,
        λ k c. place k s st.seen (sequences items) after.seen seen' (from k c),
      )
    where
      place :
          (k s : ℕ) (seen rest seen' : List ℕ)
          → seen' ≡ s ∷ seen
          → (contains k seen' ≡ true) ⊎ (contains k rest ≡ true)
          → (contains k seen ≡ true) ⊎ (contains k (s ∷ rest) ≡ true)
      place k s seen rest seen' e (inl c) = elim (contains_head k s seen (rw e at c)) [
        | inl same ↦ inr (rw same (contains_self s rest))
        | inr old ↦ inl old
      ]
      place k s seen rest seen' e (inr c) = inr (contains_later k s rest c)

pub missing_none :
    (n : ℕ) (seen : List ℕ) (k : ℕ) → missing_of n seen ≡ 0 → k < n → contains k seen ≡ true
unfolding missing_of
missing_none zero seen k e h = absurd (omega arith)
missing_none (suc n) seen k e h = elim (Bool-cases (n == k)) [
  | inl last ↦ ground arith
  | inr other ↦ ground (arith, missing_none n seen k)
]

Rising-ge : (m k : ℕ) (xs : List ℕ) → Rising m xs → contains k xs ≡ true → m ≤ k
unfolding contains
Rising-ge m k [] h c = absurd (false-true c)
Rising-ge m k (x ∷ xs) h c = ground (arith, Rising-ge (suc x) k xs)

head_is : (m x : ℕ) (xs : List ℕ) → Rising m (x ∷ xs) → contains m (x ∷ xs) ≡ true → x ≡ m
head_is m x xs h c = elim (contains_head m x xs c) [
  | inl e ↦ omega arith
  | inr later ↦ omega (arith, Rising-ge (suc x) m xs h.1 later)
]

-- Rising numbers, among them the `n` numbers from `m` on, begin with these.
pub Rising-range :
    (n m : ℕ) (xs : List ℕ)
    → Rising m xs
    → ((k : ℕ) → m ≤ k → k < m + n → contains k xs ≡ true)
    → take n xs ≡ range m n
unfolding contains
Rising-range zero m xs h c = refl
Rising-range (suc n) m [] h c = absurd (false-true (c m (omega arith) (omega arith)))
Rising-range (suc n) m (x ∷ xs) h c =
    let e : x ≡ m = head_is m x xs h (c m (omega arith) (omega arith)) in
    rw e (
      ap (◌∷◌ m) (
        Rising-range n (suc m) xs (rw e at (h.1)) (λ k a b.
          contains_tail k m xs (omega arith) (rw e at (c k (omega arith) (omega arith))))))
