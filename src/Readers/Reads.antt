-- ===== src/Readers/Reads.antt =====
-- What a read of cyclonedds/src/dds_reader.rs makes visible in the buffer.
use cyclonedds_rs.Common.{
  ℕ, zero, suc, ◌≤◌, ◌≡◌, refl, ap, List, [], ◌∷◌, ◌||◌, true, Option, some, ◌==◌, length,
  get_elem?, take, arith, Bool-cases, inl, inr, map,
}
use cyclonedds_rs.Error.{ReturnCode, non_negative, negative, Result, ok, err}
use cyclonedds_rs.Samples.{
  Refs, Sample, SampleBuffer, set_serdata, begin_read, iter_sample, is_valid_sample,
}
use cyclonedds_rs.Readers.{
  CdrAnswer, Answer, overwrite, is_valid_first, set_samples, receive_cdr, readcdrn_from_entity_now,
  receive, readn_from_entity_now,
}

-- The serdata that a read shows: on an error none.
abbrev pub shown : Result ℕ → List ℕ → List (Option ℕ)
shown (ok n) received = map some (take n received)
shown (err e) received = []

-- The contract of `dds_readcdr` and `dds_takecdr`: a count that is not negative is at most that of
-- the serdata written, which is at most the capacity.
abbrev pub IsAnswered : ReturnCode → ℕ → ℕ → Type 0
IsAnswered (negative n) received caps = Unit {0}
IsAnswered (non_negative n) received caps = (n ≤ received) × (received ≤ caps)

-- The size that goes with a result.
abbrev pub size_of : Result ℕ → ℕ
size_of (ok n) = n
size_of (err e) = 0

pub serdatas : {T : Type 0} → List (Sample T) → List (Option ℕ)
serdatas [] = []
serdatas (sample ∷ samples) = sample.serdata ∷ serdatas samples

module _ {T : Type 0} {S : Type 0} where
  set_samples_lem :
      (refs : Refs S) (n : ℕ) (ps : List ℕ) (samples : List (Sample T)) (s : S)
      → n ≤ length ps
      → length ps ≤ length samples
      → serdatas (take n (set_samples refs (take n ps) samples s).0) ≡ map some (take n ps)
  unfolding set_samples serdatas set_serdata
  set_samples_lem refs zero ps samples s h k = refl
  set_samples_lem refs (suc n) [] samples s h k = absurd (omega arith)
  set_samples_lem refs (suc n) (p ∷ ps) [] s h k = absurd (omega arith)
  set_samples_lem refs (suc n) (p ∷ ps) (sample ∷ samples) s h k =
      ap (◌∷◌ (some p)) (set_samples_lem refs n ps samples _ (omega arith) (omega arith))

  receive_cdr_lem :
      (refs : Refs S) (code : ReturnCode) (a : CdrAnswer S) (b : SampleBuffer T)
      → b.size ≡ 0
      → IsAnswered code (length a.received) (length b.buffer)
      → serdatas (iter_sample (receive_cdr refs code a b).1)
        ≡ shown (receive_cdr refs code a b).0 a.received
  unfolding receive_cdr iter_sample serdatas
  receive_cdr_lem refs (negative n) a b z c = rw (z) refl
  receive_cdr_lem refs (non_negative zero) a b z c = rw (z) refl
  receive_cdr_lem refs (non_negative (suc n)) a b z c =
      set_samples_lem refs (suc n) a.received b.buffer a.state c.0 c.1

  -- A read of serialised samples, whether it takes them or not: if the answer keeps the contract of
  -- the C library, the buffer then shows just the serdata received, in order, as many as the count
  -- that is returned, and after every error, an empty buffer and no data included, it shows no
  -- sample, not even one of an earlier read.
  pub readcdrn_from_entity_now_lem :
      (refs : Refs S) (call : ℕ → S → CdrAnswer S) (b : SampleBuffer T) (s : S)
      → IsAnswered
          (call (length b.buffer) s).code
          (length (call (length b.buffer) s).received)
          (length b.buffer)
      → serdatas (iter_sample (readcdrn_from_entity_now refs call b s).1)
        ≡ shown (readcdrn_from_entity_now refs call b s).0 (call (length b.buffer) s).received
  unfolding readcdrn_from_entity_now begin_read
  readcdrn_from_entity_now_lem refs call b s c = elim (Bool-cases (length b.buffer == 0)) [
    | inl e ↦ rw (e) (unfold iter_sample serdatas in refl)
    | inr e ↦ rw (e) (
        receive_cdr_lem refs (call (length b.buffer) s).code (call (length b.buffer) s)
          (record b { size = 0 }) refl c)
  ]

  receive_lem :
      (code : ReturnCode) (a : Answer T S) (b : SampleBuffer T)
      → b.size ≡ 0
      → ((receive code a b).1.size ≡ size_of (receive code a b).0)
        × ((((receive code a b).1.size == 0)
              || is_valid_first (is_valid_sample (receive code a b).1 0))
            ≡ true)
  unfolding receive is_valid_sample
  receive_lem (negative n) a b z = (z, rw (z) refl)
  receive_lem (non_negative zero) a b z = (z, rw (z) refl)
  receive_lem (non_negative (suc n)) a b z =
      elim (Bool-cases (is_valid_first (get_elem? (overwrite a.infos b.sample_info) 0))) [
        | inl v ↦ rw (v) (refl, ground arith)
        | inr i ↦ rw (i) (z, rw (z) refl)
      ]

  -- A read of samples, whether it takes them or not: the size of the buffer is the count that is
  -- returned, 0 after every error, and if it is not 0, the first sample holds valid data. So a
  -- notice that an instance is gone, which comes without data, is never shown as a sample when it
  -- stands first.
  pub readn_from_entity_now_lem :
      (call : ℕ → S → Answer T S) (b : SampleBuffer T) (s : S)
      → ((readn_from_entity_now call b s).1.size ≡ size_of (readn_from_entity_now call b s).0)
        × ((((readn_from_entity_now call b s).1.size == 0)
              || is_valid_first (is_valid_sample (readn_from_entity_now call b s).1 0))
            ≡ true)
  unfolding readn_from_entity_now begin_read
  readn_from_entity_now_lem call b s = elim (Bool-cases (length b.buffer == 0)) [
    | inl e ↦ rw (e) (refl, refl)
    | inr e ↦ rw (e) (
        receive_lem (call (length b.buffer) s).code (call (length b.buffer) s)
          (record b { size = 0 }) refl)
  ]
