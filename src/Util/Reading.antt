-- ===== src/Util/Reading.antt =====
-- What `read` of SGReader in cyclonedds/src/util.rs returns, and what it leaves.
use cyclonedds_rs.Common.{
  ℕ, zero, suc, ◌+◌, ◌-◌, ◌≤◌, ◌<◌, ◌≡◌, refl, sym, ap, ◌∙◌, ◌⊎◌, inl, inr, List, [], ◌∷◌, ◌++◌,
  Option, none, some, length, get_elem?, take, drop, leb, ◌==◌, arith, length-take, length-drop,
  take_all, drop_all, take-append-drop, drop-drop, Bool-cases, Option-cases, leb→le, ==_iff, false,
}
use Prim.Native.Nat.{min}
use mathlib.Core.List.{append_assoc}
use native.Mathlib.Numerals.{add-one}
use native.Mathlib.Decide.{dec_lt}
use cyclonedds_rs.Util.{SgReader, read, read_slice, next_slice}

-- The bytes that reads can deliver: those of the buffers before the first empty one.
abbrev pub reachable : List (List ℕ) → List ℕ
reachable [] = []
reachable ([] ∷ rest) = []
reachable ((b ∷ bs) ∷ rest) = (b ∷ bs) ++ reachable rest

abbrev reachable_at : ℕ → List (List ℕ) → List ℕ
reachable_at off [] = []
reachable_at off (s ∷ rest) = reachable (drop off s ∷ rest)

unread_from : Option (List (List ℕ)) → ℕ → ℕ → List ℕ
unread_from none c off = []
unread_from (some l) c off = reachable_at off (drop c l)

unfoldable pub unread : SgReader → List ℕ
unfolding unread_from
unread r = unread_from r.sc_list r.slice_cursor r.slice_offset

drop-none : (l : List (List ℕ)) (c : ℕ) → get_elem? l c ≡ none → drop c l ≡ []
drop-none [] zero e = refl
drop-none [] (suc c) e = refl
drop-none (x ∷ l) zero e = cc
drop-none (x ∷ l) (suc c) e = drop-none l c e

drop-some :
    (l : List (List ℕ)) (c : ℕ) (s : List ℕ)
    → get_elem? l c ≡ some s
    → drop c l ≡ s ∷ drop (suc c) l
drop-some [] c s e = cc
drop-some (x ∷ l) zero s e = ground arith
drop-some (x ∷ l) (suc c) s e = drop-some l c s e

-- What one read into `suc n` bytes does: it delivers nothing, and then nothing was reachable, or it
-- delivers between 1 and `suc n` of the reachable bytes.
abbrev pub Reads : SgReader → ℕ → List ℕ × SgReader → Type 0
Reads r n (bytes, r') =
    ((bytes ≡ []) × (unread r ≡ []))
    ⊎ ((0 < length bytes) × (length bytes ≤ suc n) × (unread r ≡ bytes ++ unread r'))

unread-next_slice :
    (r : SgReader) (l : List (List ℕ))
    → unread (next_slice r l) ≡ reachable (drop (r.slice_cursor + 1) l)
unfolding unread next_slice
unread-next_slice r l = elim (Bool-cases (leb (length l) (r.slice_cursor + 1))) [
  | inl past ↦ rw (past, drop_all (r.slice_cursor + 1) l (leb→le _ _ past)) refl
  | inr more ↦ rw more (reachable_at_zero (drop (r.slice_cursor + 1) l))
]
  where
    reachable_at_zero : (l : List (List ℕ)) → reachable_at 0 l ≡ reachable l
    reachable_at_zero [] = refl
    reachable_at_zero (s ∷ l) = refl

read_slice_whole :
    (r : SgReader) (l : List (List ℕ)) (s : List ℕ) (n : ℕ)
    → length s - r.slice_offset ≤ n
    → read_slice r l s n ≡ (drop r.slice_offset s, next_slice r l)
unfolding read_slice
read_slice_whole r l s n h =
    let copied : min (length s - r.slice_offset) n ≡ length s - r.slice_offset = omega arith in
    rw (copied, (==_iff _ _).1 refl)
      (ap (λ t. (t, next_slice r l))
        (take_all (length s - r.slice_offset) (drop r.slice_offset s)
          (omega (arith, length-drop r.slice_offset s))))

read_slice_part :
    (r : SgReader) (l : List (List ℕ)) (s : List ℕ) (n : ℕ)
    → n < length s - r.slice_offset
    → read_slice r l s n
      ≡ (take n (drop r.slice_offset s), record r { slice_offset = r.slice_offset + n })
unfolding read_slice
read_slice_part r l s n h =
    let copied : min (length s - r.slice_offset) n ≡ n = omega arith in
    let different : (n == length s - r.slice_offset) ≡ false = ground arith in
    rw (copied, different) refl

unread_at :
    (r : SgReader) (l : List (List ℕ)) (s : List ℕ)
    → r.sc_list ≡ some l
    → get_elem? l r.slice_cursor ≡ some s
    → unread r ≡ reachable (drop r.slice_offset s ∷ drop (suc r.slice_cursor) l)
unfolding unread
unread_at r l s e g =
    ap (λ o. unread_from o r.slice_cursor r.slice_offset) e
    ∙ ap (reachable_at r.slice_offset) (drop-some l r.slice_cursor s g)

reachable-cons :
    (piece : List ℕ) (rest : List (List ℕ))
    → 0 < length piece
    → reachable (piece ∷ rest) ≡ piece ++ reachable rest
reachable-cons [] rest h = absurd (omega arith)
reachable-cons (b ∷ bs) rest h = refl

reachable-split :
    (n : ℕ) (piece : List ℕ) (rest : List (List ℕ))
    → n < length piece
    → reachable (piece ∷ rest) ≡ take n piece ++ reachable (drop n piece ∷ rest)
reachable-split n piece rest h =
    reachable-cons piece rest (omega arith)
    ∙ ap (λ t. t ++ reachable rest) (sym (take-append-drop n piece))
    ∙ append_assoc (take n piece) (drop n piece) (reachable rest)
    ∙ ap (λ t. take n piece ++ t)
        (sym (reachable-cons (drop n piece) rest (omega (arith, length-drop n piece))))

-- The whole of a slice was read: an empty rest of it reads as the end.
whole-Reads :
    (r r' : SgReader) (n : ℕ) (piece : List ℕ) (rest : List (List ℕ))
    → length piece ≤ suc n
    → unread r ≡ reachable (piece ∷ rest)
    → unread r' ≡ reachable rest
    → Reads r n (piece, r')
whole-Reads r r' n [] rest h e e' = inl (refl, e)
whole-Reads r r' n (b ∷ bs) rest h e e' = inr (omega arith, h, e ∙ ap (λ t. (b ∷ bs) ++ t) (sym e'))

read_slice-Reads :
    (r : SgReader) (l : List (List ℕ)) (s : List ℕ) (n : ℕ)
    → r.sc_list ≡ some l
    → get_elem? l r.slice_cursor ≡ some s
    → Reads r n (read_slice r l s (suc n))
read_slice-Reads r l s n e g = elim (dec_lt (suc n) (length s - r.slice_offset)) [
  | yes part ↦ rw (read_slice_part r l s (suc n) part) (
      inr (
        omega (arith, length-take (suc n) piece, length-drop r.slice_offset s),
        omega (arith, length-take (suc n) piece),
        unread_at r l s e g
            ∙ reachable-split (suc n) piece rest (omega (arith, length-drop r.slice_offset s))
            ∙ ap (λ t. take (suc n) piece ++ t)
                (sym (
                  unread_at (record r { slice_offset = r.slice_offset + suc n }) l s e g
                  ∙ ap (λ t. reachable (t ∷ rest)) (drop-drop r.slice_offset (suc n) s))),
      ))
  | no whole ↦ rw (read_slice_whole r l s (suc n) (omega arith)) (
      whole-Reads r (next_slice r l) n piece rest (omega (arith, length-drop r.slice_offset s))
        (unread_at r l s e g)
        (unread-next_slice r l ∙ ap (λ k. reachable (drop k l)) (add-one r.slice_cursor)))
]
  where
    piece : List ℕ
    piece = drop r.slice_offset s

    rest : List (List ℕ)
    rest = drop (suc r.slice_cursor) l

read-none : (r : SgReader) (n : ℕ) → r.sc_list ≡ none → read r n ≡ ([], r)
unfolding read
read-none r n e = ground arith

read_end :
    (r : SgReader) (l : List (List ℕ)) (n : ℕ)
    → r.sc_list ≡ some l
    → get_elem? l r.slice_cursor ≡ none
    → read r n ≡ ([], record r { sc_list = none })
unfolding read
read_end r l n e g = ground arith

read-some :
    (r : SgReader) (l : List (List ℕ)) (s : List ℕ) (n : ℕ)
    → r.sc_list ≡ some l
    → get_elem? l r.slice_cursor ≡ some s
    → read r n ≡ read_slice r l s n
unfolding read
read-some r l s n e g = ground arith

pub unread-none : (r : SgReader) → r.sc_list ≡ none → unread r ≡ []
unfolding unread
unread-none r e = ap (λ o. unread_from o r.slice_cursor r.slice_offset) e

pub unread_end :
    (r : SgReader) (l : List (List ℕ))
    → r.sc_list ≡ some l
    → get_elem? l r.slice_cursor ≡ none
    → unread r ≡ []
unfolding unread
unread_end r l e g =
    ap (λ o. unread_from o r.slice_cursor r.slice_offset) e
    ∙ ap (reachable_at r.slice_offset) (drop-none l r.slice_cursor g)

-- Every read does what `Reads` says.
pub read-Reads : (r : SgReader) (n : ℕ) → Reads r n (read r (suc n))
read-Reads r n = elim (Option-cases r.sc_list) [
  | inl e ↦ rw (read-none r (suc n) e) (inl (refl, unread-none r e))
  | inr (l, e) ↦ elim (Option-cases (get_elem? l r.slice_cursor)) [
    | inl g ↦ rw (read_end r l (suc n) e g) (inl (refl, unread_end r l e g))
    | inr (s, g) ↦ rw (read-some r l s (suc n) e g) (read_slice-Reads r l s n e g)
  ]
]

-- `size` of the available bytes, or the end of file.
