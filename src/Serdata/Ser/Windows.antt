-- ===== src/Serdata/Ser/Windows.antt =====
-- What the serialisation callbacks of cyclonedds/src/serdata.rs show and copy.
use cyclonedds_rs.Common.{
  ℕ, zero, suc, ◌+◌, ◌-◌, ◌≤◌, ◌≡◌, refl, sym, ap, ◌∙◌, ◌⊎◌, inl, inr, List, [], ◌∷◌, ◌++◌, none,
  some, length, take, drop, replicate, concat, leb, ltb, ◌==◌, arith, length-take, length-drop,
  length-replicate, take_all, drop_all, take-take-drop, take-nil, drop-drop, take-append-drop,
  take-append_length, drop-append_add, Bool-cases, leb→le, leb→lt, ltb→lt, ltb→ge, false,
}
use Prim.Native.Nat.{min}
use mathlib.Core.List.{append_assoc, append-nil}
use cyclonedds_rs.Serdata.{sdk_data_sample, SerData, Ddsi, Codec, returned, u32}
use cyclonedds_rs.Serdata.Ser.{
  window, write, write_zeros, copy_slice, copy_cdr_data, copy_cdr, forward_serdata_to_ser, addref,
  serdata_to_ser_ref, to_ser_ref_of, cached, show_cached, serialize_sample, serdata_get_size,
  sample_size,
}

-- The cut at the end of the bytes is the one that `take` makes.
take-min :
    {A : Type 0} (size : ℕ) (offset : ℕ) (xs : List A)
    → offset ≤ length xs
    → take (min (offset + size) (length xs) - offset) (drop offset xs) ≡ take size (drop offset xs)
take-min size offset xs h = elim (Bool-cases (leb (offset + size) (length xs))) [
  | inl inside ↦ ap (λ k. take k (drop offset xs)) (fits (length xs) (leb→le _ _ inside))
  | inr past ↦
      take_all (min (offset + size) (length xs) - offset) (drop offset xs)
        (omega (arith, leb→lt _ _ past, length-drop offset xs))
      ∙ sym (take_all size (drop offset xs) (omega (arith, leb→lt _ _ past, length-drop offset xs)))
]
  where
    fits : (n : ℕ) → offset + size ≤ n → min (offset + size) n - offset ≡ size
    fits n h = omega arith

pub window-eq :
    (cdr : List ℕ) (offset size : ℕ) → window cdr offset size ≡ take size (drop offset cdr)
unfolding window
window-eq cdr offset size = elim (Bool-cases (ltb offset (length cdr))) [
  | inl inside ↦ rw inside (take-min size offset cdr (omega (arith, ltb→lt _ _ inside)))
  | inr past ↦ rw (past, drop_all offset cdr (ltb→ge _ _ past)) (sym (take-nil size))
]

-- The bytes of a request, filled up with zeros to its size.
abbrev pub padded : ℕ → List ℕ → List ℕ
padded size bytes = bytes ++ replicate (size - length bytes) 0

write_zeros-write :
    (w : List ℕ) (n : ℕ) (buf : List ℕ)
    → write_zeros (length w) n (write 0 w buf) ≡ (w ++ replicate n 0) ++ drop (length w + n) buf
unfolding write_zeros write
write_zeros-write w n buf =
    ap (λ t. t ++ (replicate n 0 ++ drop (length w + length {A = ℕ} (replicate n 0)) (w ++ rest)))
      (take-append_length w rest)
    ∙ ap (λ k. w ++ (replicate n 0 ++ drop (length w + k) (w ++ rest))) (length-replicate n 0)
    ∙ ap (λ t. w ++ (replicate n 0 ++ t)) (drop-append_add n w rest)
    ∙ ap (λ t. w ++ (replicate n 0 ++ t)) (sym (drop-drop (0 + length w) n buf))
    ∙ sym (append_assoc w (replicate n 0) (drop (0 + length w + n) buf))
    ∙ ap (λ k. (w ++ replicate n 0) ++ drop k buf) (omega arith)
  where
    rest : List ℕ
    rest = drop (0 + length w) buf

copy_slice-eq :
    (w : List ℕ) (size : ℕ) (buf : List ℕ)
    → length w ≤ size
    → copy_slice w size buf ≡ padded size w ++ drop size buf
unfolding copy_slice
copy_slice-eq w size buf h = elim (Bool-cases (ltb (length w) size)) [
  | inl short ↦ rw short (
      write_zeros-write w (size - length w) buf
      ∙ ap (λ k. padded size w ++ drop k buf) (omega arith))
  | inr full ↦ rw full (
      ap (λ k. w ++ drop k buf) (exactly (length w) h (ltb→ge _ _ full))
      ∙ ap (λ t. t ++ drop size buf)
          (sym
            (ap (λ k. w ++ replicate k 0) (none_left (length w) (ltb→ge _ _ full)) ∙ append-nil w)))
]
  where
    exactly : (n : ℕ) → n ≤ size → size ≤ n → 0 + n ≡ size
    exactly n h k = omega arith

    none_left : (n : ℕ) → size ≤ n → size - n ≡ 0
    none_left n k = omega arith

-- What is put at the destination: the requested bytes, zeros up to the requested size, and behind
-- them the buffer as it was.
pub copy_cdr_data-eq :
    (s : List ℕ) (size offset : ℕ) (buf : List ℕ)
    → copy_cdr_data s size offset buf ≡ padded size (take size (drop offset s)) ++ drop size buf
unfolding copy_cdr_data
copy_cdr_data-eq s zero offset buf = refl
copy_cdr_data-eq s (suc size) offset buf = elim (Bool-cases (leb (length s) offset)) [
  | inl past ↦
      rw (nonzero, past, drop_all offset s (leb→le _ _ past))
        (ap (λ k. replicate (suc size) 0 ++ drop k buf) (length_zeros (suc size))
          ∙ ap (λ k. replicate k 0 ++ drop (suc size) buf) (none_cut (suc size)))
  | inr inside ↦
      rw (nonzero, inside, take-min (suc size) offset s (omega (arith, leb→lt _ _ inside)))
        (copy_slice-eq (take (suc size) (drop offset s)) (suc size) buf
          (omega (arith, length-take (suc size) (drop offset s))))
]
  where
    nonzero : (suc size == 0) ≡ false
    nonzero = ground arith

    none_cut : (n : ℕ) → n ≡ n - 0
    none_cut n = omega arith

    length_zeros : (n : ℕ) → 0 + length {A = ℕ} (replicate n 0) ≡ n
    length_zeros n = omega (arith, length-replicate {0} {A = ℕ} n 0)

module _ {T : Type 0} where
  -- A copy out of a serdata that holds its CDR writes the requested bytes behind `offset` in the
  -- buffer, filled up with zeros, and leaves the rest of the buffer as it was.
  pub forward_to_ser_lem :
      (serdata : SerData T) (cdr : List ℕ) (size offset : ℕ) (buf : List ℕ)
      → serdata.cdr ≡ some cdr
      → forward_serdata_to_ser serdata size offset buf
        ≡ take offset buf ++ (padded size (take size (drop offset cdr)) ++ drop (offset + size) buf)
  unfolding forward_serdata_to_ser
  forward_to_ser_lem serdata cdr zero offset buf e =
      sym (take-append-drop offset buf) ∙ ap (λ k. take offset buf ++ drop k buf) (omega arith)
  forward_to_ser_lem serdata cdr (suc size) offset buf e = rw (nonzero) (
      ap (λ o. take offset buf ++ copy_cdr o (suc size) offset (drop offset buf)) e
      ∙ ap (λ t. take offset buf ++ t)
          (copy_cdr_data-eq cdr (suc size) offset (drop offset buf)
            ∙ ap (λ t. padded (suc size) (take (suc size) (drop offset cdr)) ++ t)
                (sym (drop-drop offset (suc size) buf))))
    where
      nonzero : (suc size == 0) ≡ false
      nonzero = ground arith

-- The serdata of a sample `v` that serialises to `bytes`, before or after it was serialised.
abbrev pub HasBytes : {T : Type 0} → Codec T → SerData T → T → List ℕ → Type 0
HasBytes codec serdata v bytes =
    (serdata.sample ≡ sdk_data_sample v)
    × (codec.serialize v ≡ some bytes)
    × ((serdata.cdr ≡ none) ⊎ (serdata.cdr ≡ some bytes))

abbrev pub sum : List ℕ → ℕ
sum [] = 0
sum (n ∷ ns) = n + sum ns

module _ {T : Type 0} (ddsi : Ddsi) (codec : Codec T) where
  cached_lem :
      (serdata : SerData T) (v : T) (bytes : List ℕ)
      → codec.serialize v ≡ some bytes
      → ((serdata.cdr ≡ none) ⊎ (serdata.cdr ≡ some bytes))
      → cached ddsi codec serdata v serdata.cdr ≡ some (record serdata { cdr = some bytes })
  unfolding cached
  cached_lem serdata v bytes serialized (inl e) =
      ap (cached ddsi codec serdata v) e ∙ rw (serialized, serialize_sample) refl
  cached_lem serdata v bytes serialized (inr e) =
      ap (cached ddsi codec serdata v) e ∙ ap (λ c. some (record serdata { cdr = c })) e

  -- A reference shows the requested bytes of the serialised sample, cut off at their end. The
  -- sample is serialised at the first request, and the bytes are kept; a reference is counted.
  pub to_ser_ref_lem :
      (serdata : SerData T) (v : T) (bytes : List ℕ) (offset size : ℕ)
      → HasBytes codec serdata v bytes
      → serdata_to_ser_ref ddsi codec serdata offset size
        ≡ returned (
          some (take size (drop offset bytes)),
          addref ddsi (record serdata { cdr = some bytes }),
        )
  unfolding serdata_to_ser_ref
  to_ser_ref_lem serdata v bytes offset size (is_sample, serialized, held) =
      ap (λ sm. to_ser_ref_of ddsi codec serdata sm offset size) is_sample
      ∙ ap (λ r. returned (show_cached ddsi codec serdata r offset size))
          (cached_lem serdata v bytes serialized held)
      ∙ ap (λ t. returned (some t, addref ddsi (record serdata { cdr = some bytes })))
          (window-eq bytes offset size)

  -- A run of requests, each from the end of the one before: the sizes asked for and the bytes shown.
  pub data Shows : SerData T → ℕ → List ℕ → List (List ℕ) → Type 0 where
    done : (serdata : SerData T) (offset : ℕ) → Shows serdata offset [] []
    request :
        {serdata serdata' : SerData T} {offset size : ℕ} {sizes : List ℕ} {iov : List ℕ}
        {iovs : List (List ℕ)}
        → serdata_to_ser_ref ddsi codec serdata offset size ≡ returned (some iov, serdata')
        → Shows serdata' (offset + size) sizes iovs
        → Shows serdata offset (size ∷ sizes) (iov ∷ iovs)

  shown-eq :
      (serdata serdata' : SerData T) (v : T) (bytes iov : List ℕ) (offset size : ℕ)
      → HasBytes codec serdata v bytes
      → serdata_to_ser_ref ddsi codec serdata offset size ≡ returned (some iov, serdata')
      → (iov ≡ take size (drop offset bytes)) × HasBytes codec serdata' v bytes
  shown-eq serdata serdata' v bytes iov offset size h e =
      let same = sym (to_ser_ref_lem serdata v bytes offset size h) ∙ e in
      let after : addref ddsi (record serdata { cdr = some bytes }) ≡ serdata' = cc in
      (cc, rw (← after) (unfold addref in (h.0, h.1, inr refl)))

  -- However the serialised sample is cut into requests, the bytes shown are, put together, the
  -- bytes of the sample from the first offset on, as many as were asked for.
  pub Shows-concat :
      {serdata : SerData T} {v : T} {bytes : List ℕ} {offset : ℕ} {sizes : List ℕ}
      {iovs : List (List ℕ)}
      → HasBytes codec serdata v bytes
      → Shows serdata offset sizes iovs
      → concat iovs ≡ take (sum sizes) (drop offset bytes)
  Shows-concat h (done serdata offset) = refl
  Shows-concat {v} {bytes} h (request {serdata} {serdata'} {offset} {size} {sizes} {iov} e rest) =
      let (shown, h') = shown-eq serdata serdata' v bytes iov offset size h e in
      rw (shown, Shows-concat h' rest, drop-drop offset size bytes)
        (take-take-drop size (sum sizes) (drop offset bytes))

  -- The size that is announced is the number of serialised bytes, before and after the sample was
  -- serialised.
  pub get_size_lem :
      (serdata : SerData T) (v : T) (bytes : List ℕ)
      → HasBytes codec serdata v bytes
      → serdata_get_size codec serdata ≡ u32 (length bytes)
  unfolding serdata_get_size
  get_size_lem serdata v bytes (is_sample, serialized, inl e) =
      ap (λ sm. sample_size codec sm serdata.cdr serdata.key_hash) is_sample
      ∙ ap (λ c. sample_size codec (sdk_data_sample v) c serdata.key_hash) e
      ∙ ap u32 (sym (codec.serialize_size v bytes serialized))
  get_size_lem serdata v bytes (is_sample, serialized, inr e) =
      ap (λ sm. sample_size codec sm serdata.cdr serdata.key_hash) is_sample
      ∙ ap (λ c. sample_size codec (sdk_data_sample v) c serdata.key_hash) e
