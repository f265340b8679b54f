-- ===== src/Readers.antt =====
-- cyclonedds/src/dds_reader.rs: the reads that fill a buffer of samples. What the C library answers
-- to a read is a parameter, a function of the capacity and of the state of the serdata.
pub mod Reads
pub mod Building
mod Examples
use cyclonedds_rs.Common.{
  ℕ, zero, suc, List, [], ◌∷◌, ◌++◌, Bool, true, false, Option, none, some, ◌==◌, if◌then◌else◌,
  length, take, drop,
}
use cyclonedds_rs.Error.{
  DdsError, bad_parameter, no_data, ReturnCode, non_negative, negative, from_code, Result, ok, err,
}
use cyclonedds_rs.Samples.{Refs, Sample, SampleBuffer, set_serdata, begin_read, is_valid_sample}

-- What `dds_readcdr` or `dds_takecdr` answers: the code, the serdata and the infos that it writes,
-- and the state that it leaves.
pub record CdrAnswer (S : Type 0) : Type 0 where
  pub code : ReturnCode
  pub received : List ℕ
  pub infos : List Bool
  pub state : S

-- What `dds_read` or `dds_take` answers: the samples are filled by the operations of the sertype.
pub record Answer (T : Type 0) (S : Type 0) : Type 0 where
  pub code : ReturnCode
  pub filled : List (Sample T)
  pub infos : List Bool
  pub state : S

-- The front of an array is written over.
abbrev pub overwrite : {A : Type 0} → List A → List A → List A
overwrite new old = new ++ drop (length new) old

abbrev pub is_valid_first : Option Bool → Bool
is_valid_first none = false
is_valid_first (some valid) = valid

abbrev pub with_buffer : {T : Type 0} → List (Sample T) → List Bool → ℕ → SampleBuffer T
with_buffer samples infos size = record { buffer = samples; sample_info = infos; size = size }

module _ {T : Type 0} {S : Type 0} where
  -- The loop that hands the serdata to the samples.
  unfoldable pub set_samples : Refs S → List ℕ → List (Sample T) → S → List (Sample T) × S
  set_samples refs [] samples s = (samples, s)
  set_samples refs (p ∷ ps) [] s = ([], s)
  set_samples refs (p ∷ ps) (sample ∷ samples) s =
      let (sample', s') = set_serdata refs p sample s in
      let (samples', s'') = set_samples refs ps samples s' in (sample' ∷ samples', s'')

  -- The match on the code, with the buffer as `begin_read` leaves it.
  unfoldable pub receive_cdr :
      Refs S → ReturnCode → CdrAnswer S → SampleBuffer T → Result ℕ × SampleBuffer T × S
  receive_cdr refs (negative n) a b = (
    err (from_code (negative n)),
    with_buffer b.buffer (overwrite a.infos b.sample_info) b.size,
    a.state,
  )
  receive_cdr refs (non_negative zero) a b =
      (err no_data, with_buffer b.buffer (overwrite a.infos b.sample_info) b.size, a.state)
  receive_cdr refs (non_negative (suc n)) a b =
      let (samples, s) = set_samples refs (take (suc n) a.received) b.buffer a.state in
      (ok (suc n), with_buffer samples (overwrite a.infos b.sample_info) (suc n), s)

  unfoldable pub readcdrn_from_entity_now :
      Refs S → (ℕ → S → CdrAnswer S) → SampleBuffer T → S → Result ℕ × SampleBuffer T × S
  readcdrn_from_entity_now refs call b s =
      let (max_caps, begun) = begin_read b in
      if max_caps == 0
      then (err bad_parameter, begun, s)
      else receive_cdr refs (call max_caps s).code (call max_caps s) begun

  unfoldable pub receive : ReturnCode → Answer T S → SampleBuffer T → Result ℕ × SampleBuffer T × S
  receive (negative n) a b = (
    err (from_code (negative n)),
    with_buffer a.filled (overwrite a.infos b.sample_info) b.size,
    a.state,
  )
  receive (non_negative zero) a b =
      (err no_data, with_buffer a.filled (overwrite a.infos b.sample_info) b.size, a.state)
  receive (non_negative (suc n)) a b =
      let filled = with_buffer a.filled (overwrite a.infos b.sample_info) b.size in
      if is_valid_first (is_valid_sample filled 0)
      then (ok (suc n), with_buffer a.filled (overwrite a.infos b.sample_info) (suc n), a.state)
      else (err no_data, filled, a.state)

  unfoldable pub readn_from_entity_now :
      (ℕ → S → Answer T S) → SampleBuffer T → S → Result ℕ × SampleBuffer T × S
  readn_from_entity_now call b s =
      let (maxs, begun) = begin_read b in
      if maxs == 0
      then (err bad_parameter, begun, s)
      else receive (call maxs s).code (call maxs s) begun
