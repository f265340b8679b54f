-- ===== src/Util/IntoVec.antt =====
-- What `SGReader::into_vec` of cyclonedds/src/util.rs returns, for every list of buffers.
use cyclonedds_rs.Common.{
  ℕ, zero, suc, ◌-◌, ◌≤◌, ◌<◌, ◌≡◌, refl, sym, ap, ◌∙◌, inl, inr, List, [], ◌∷◌, ◌++◌, some, length,
  take, concat, leb, if◌then◌else◌, arith, length-append, take-append_ge, Bool-cases, le→leb,
  lt→leb, leb→le, leb→lt,
}
use cyclonedds_rs.Util.{
  SgReader, IoResult, ok, unexpected_eof, new, read, read_exact, into_vec, prepend,
}
use cyclonedds_rs.Util.Reading.{reachable, unread, read-Reads}

abbrev pub exact : ℕ → List ℕ → IoResult
exact size available =
    if leb size (length available) then ok (take size available) else unexpected_eof

prepend-exact :
    (n : ℕ) (bytes rest : List ℕ)
    → length bytes ≤ n
    → prepend bytes (some (exact (n - length bytes) rest)) ≡ some (exact n (bytes ++ rest))
prepend-exact n bytes rest h = elim (Bool-cases (leb n (length (bytes ++ rest)))) [
  | inl enough ↦
      rw
        (
          enough,
          le→leb (n - length bytes) (length rest)
              (omega (arith, leb→le _ _ enough, length-append bytes rest)),
        )
        (ap (λ t. some (ok t)) (sym (take-append_ge n bytes rest h)))
  | inr short ↦
      rw
        (
          short,
          lt→leb (n - length bytes) (length rest)
              (omega (arith, leb→lt _ _ short, length-append bytes rest)),
        )
        refl
]

read_exact_step :
    (fuel : ℕ) (r : SgReader) (n : ℕ) (bytes : List ℕ)
    → (read r (suc n)).0 ≡ bytes
    → 0 < length bytes
    → read_exact (suc fuel) r (suc n)
      ≡ prepend bytes (read_exact fuel (read r (suc n)).1 (suc n - length bytes))
unfolding read_exact
read_exact_step fuel r n [] e h = absurd (omega arith)
read_exact_step fuel r n (b ∷ bs) e h = rw (e, read_exact) refl

read_exact_stop :
    (fuel : ℕ) (r : SgReader) (n : ℕ)
    → (read r (suc n)).0 ≡ []
    → read_exact (suc fuel) r (suc n) ≡ some unexpected_eof
unfolding read_exact
read_exact_stop fuel r n e = rw (e, read_exact) refl

read_exact_lem :
    (fuel : ℕ) (r : SgReader) (n : ℕ) → n < fuel → read_exact fuel r n ≡ some (exact n (unread r))
read_exact_lem zero r n h = absurd (omega arith)
read_exact_lem (suc fuel) r zero h =
    unfold read_exact in rw (le→leb 0 (length (unread r)) (omega arith)) refl
read_exact_lem (suc fuel) r (suc n) h = elim (read-Reads r n) [
  | inl (e, u) ↦ read_exact_stop fuel r n e ∙ rw (u, lt→leb (suc n) 0 (omega arith)) refl
  | inr (pos, le, u) ↦
      let bytes = (read r (suc n)).0 in
      let r' = (read r (suc n)).1 in
      read_exact_step fuel r n bytes refl pos
      ∙ ap (prepend bytes) (read_exact_lem fuel r' (suc n - length bytes) (omega arith))
      ∙ prepend-exact (suc n) bytes (unread r') le
      ∙ ap (λ t. some (exact (suc n) t)) (sym u)
]

unread-new : (l : List (List ℕ)) → unread (new l) ≡ reachable l
unfolding unread new
unread-new [] = refl
unread-new (s ∷ l) = refl

-- For every list of buffers and every size the loop ends, with the first `size` bytes of the
-- buffers before the first empty one, or with the end of file where these are fewer.
pub into_vec-eq-exact :
    (sc_list : List (List ℕ)) (size : ℕ)
    → into_vec (new sc_list) size ≡ some (exact size (reachable sc_list))
unfolding into_vec
into_vec-eq-exact sc_list size =
    read_exact_lem (suc size) (new sc_list) size (omega arith)
    ∙ ap (λ t. some (exact size t)) (unread-new sc_list)

-- No buffer is empty.
abbrev pub AllFull : List (List ℕ) → Type 0
AllFull [] = Unit
AllFull (s ∷ rest) = (0 < length s) × AllFull rest

pub reachable-concat : (l : List (List ℕ)) → AllFull l → reachable l ≡ concat l
reachable-concat [] h = refl
reachable-concat ([] ∷ rest) h = absurd (omega arith)
reachable-concat ((b ∷ bs) ∷ rest) h = ap (λ t. (b ∷ bs) ++ t) (reachable-concat rest h.1)

-- With no empty buffer the bytes gathered are those of the concatenation, and the call fails
-- exactly when the buffers hold fewer bytes than are asked for.
pub into_vec-eq-concat :
    (sc_list : List (List ℕ)) (size : ℕ)
    → AllFull sc_list
    → into_vec (new sc_list) size ≡ some (exact size (concat sc_list))
into_vec-eq-concat sc_list size full =
    into_vec-eq-exact sc_list size ∙ ap (λ t. some (exact size t)) (reachable-concat sc_list full)

reachable-append_empty :
    (l : List (List ℕ)) (rest : List (List ℕ)) → AllFull l → reachable (l ++ ([] ∷ rest)) ≡ concat l
reachable-append_empty [] rest h = refl
reachable-append_empty ([] ∷ l) rest h = absurd (omega arith)
reachable-append_empty ((b ∷ bs) ∷ l) rest h =
    ap (λ t. (b ∷ bs) ++ t) (reachable-append_empty l rest h.1)

-- An empty buffer ends the read: if the buffers before it are too short, the call fails with the
-- end of file, however many bytes stand behind it.
pub into_vec_empty_slice :
    (l rest : List (List ℕ)) (size : ℕ)
    → AllFull l
    → length (concat l) < size
    → into_vec (new (l ++ ([] ∷ rest))) size ≡ some unexpected_eof
into_vec_empty_slice l rest size full short =
    into_vec-eq-exact (l ++ ([] ∷ rest)) size
    ∙ rw (reachable-append_empty l rest full, lt→leb size (length (concat l)) short) refl
