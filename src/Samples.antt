-- ===== src/Samples.antt =====
-- cyclonedds/src/serdes.rs and cyclonedds/src/sertype.rs: the samples that the C library fills, the
-- buffer that they are read into, and the arrays of samples that it asks for. The reference counts
-- of the serdata are a state `S` that the functions of `Refs` change; an address stands for a
-- serdata.
pub mod Sharing
mod Examples
use cyclonedds_rs.Common.{
  ℕ, zero, suc, ◌+◌, ◌-◌, ◌≡◌, Bool, true, false, not, List, [], ◌∷◌, ◌++◌, Option, none, some, ltb,
  ◌==◌, if◌then◌else◌, length, take, drop, replicate, get_elem?,
}
use cyclonedds_rs.Serdata.{
  SerData, SampleData, uninitialized, sdk_key_sample, sdk_data_sample, Outcome, returned, panicked,
}
use cyclonedds_rs.Serdata.Convert.{SampleStorage}

-- `ddsi_serdata_addref`, `ddsi_serdata_removeref`, and the end of a box.
pub record Refs (S : Type 0) : Type 0 where
  pub addref : ℕ → S → S
  pub removeref : ℕ → S → S
  pub free : ℕ → S → S
  pub removeref-addref : (p : ℕ) (s : S) → removeref p (addref p s) ≡ s

pub record Sample (T : Type 0) : Type 0 where
  pub serdata : Option ℕ
  pub sample : Option (SampleStorage T)

unfoldable pub default : {T : Type 0} → Sample T
default = record { serdata = none; sample = none }

deref_data : {T : Type 0} → SampleData T → Option T
deref_data uninitialized = none
deref_data sdk_key_sample = none
deref_data (sdk_data_sample t) = some t

deref_at : {T : Type 0} → (ℕ → SerData T) → Option ℕ → Option T
unfolding deref_data
deref_at heap none = none
deref_at heap (some p) = deref_data (heap p).sample

unfoldable pub try_deref : {T : Type 0} → (ℕ → SerData T) → Sample T → Option T
unfolding deref_at
try_deref heap sample = deref_at heap sample.serdata

cdr_at : {T : Type 0} → (ℕ → SerData T) → Option ℕ → Option (List ℕ)
cdr_at heap none = none
cdr_at heap (some p) = (heap p).cdr

unfoldable pub cdr : {T : Type 0} → (ℕ → SerData T) → Sample T → Option (List ℕ)
unfolding cdr_at
cdr heap sample = cdr_at heap sample.serdata

module _ {S : Type 0} (refs : Refs S) where
  open refs use {removeref, free}

  -- An old serdata ends as a box, whatever its reference count.
  unfoldable pub free_old : Option ℕ → S → S
  free_old none s = s
  free_old (some old) s = free old s

  unfoldable pub remove : Option ℕ → S → S
  remove none s = s
  remove (some serdata) s = removeref serdata s

module _ {S T : Type 0} (refs : Refs S) where
  open refs use {addref}

  unfoldable pub set_serdata : ℕ → Sample T → S → Sample T × S
  set_serdata serdata sample s =
      (record sample { serdata = some serdata }, addref serdata (free_old refs sample.serdata s))

  unfoldable pub free_contents : Sample T → S → Sample T × S
  free_contents sample s = (default, remove refs sample.serdata s)

  unfoldable pub drop_sample : Sample T → S → S
  drop_sample sample s = remove refs sample.serdata s

  unfoldable pub drop_samples : List (Sample T) → S → S
  drop_samples [] s = s
  drop_samples (sample ∷ samples) s = drop_samples samples (drop_sample sample s)

  unfoldable pub free_all_contents : List (Sample T) → S → List (Sample T) × S
  free_all_contents [] s = ([], s)
  free_all_contents (sample ∷ samples) s =
      let (sample', s') = free_contents sample s in
      let (samples', s'') = free_all_contents samples s' in (sample' ∷ samples', s'')

  -- The old array, cut or filled up to the new length.
  unfoldable pub resize : List (Sample T) → ℕ → S → List (Sample T) × S
  resize old new_count s =
      if ltb new_count (length old)
      then (take new_count old, drop_samples (drop new_count old) s)
      else (old ++ replicate (new_count - length old) default, s)

  -- `sertype_realloc_samples`: the array that is left; none is a null pointer, and an old array of no
  -- samples is refused.
  unfoldable pub realloc_samples : Option (List (Sample T)) → ℕ → S → Outcome (List (Sample T) × S)
  realloc_samples none new_count s = returned (replicate new_count default, s)
  realloc_samples (some []) new_count s = panicked
  realloc_samples (some (sample ∷ old)) new_count s = returned (resize (sample ∷ old) new_count s)

  -- `sertype_free_samples`: the bits `DDS_FREE_ALL_BIT` and `DDS_FREE_CONTENTS_BIT` of the operation
  -- are two Booleans, and the array that is left is missing once it is released.
  unfoldable pub free_samples :
      Bool → Bool → Option (List (Sample T)) → S → Outcome (Option (List (Sample T)) × S)
  free_samples all contents none s = returned (none, s)
  free_samples all contents (some []) s = returned (some [], s)
  free_samples true contents (some (sample ∷ samples)) s =
      returned (none, drop_samples (sample ∷ samples) s)
  free_samples false false (some (sample ∷ samples)) s = panicked
  free_samples false true (some (sample ∷ samples)) s =
      let (samples', s') = free_all_contents (sample ∷ samples) s in returned (some samples', s')

-- `sample_info` keeps, for each sample, whether its data is valid.
pub record SampleBuffer (T : Type 0) : Type 0 where
  pub buffer : List (Sample T)
  pub sample_info : List Bool
  pub size : ℕ

module _ {T : Type 0} where
  unfoldable pub new : ℕ → SampleBuffer T
  new len = record { buffer = replicate len default; sample_info = replicate len false; size = 0 }

  -- `none` out of range, where the code panics.
  unfoldable pub is_valid_sample : SampleBuffer T → ℕ → Option Bool
  is_valid_sample b index = get_elem? b.sample_info index

  unfoldable pub iter_of : (ℕ → SerData T) → List (Sample T) → List T
  iter_of heap [] = []
  iter_of heap (sample ∷ samples) =
      let rest = iter_of heap samples in
      elim (try_deref heap sample) [ none ↦ rest | some t ↦ t ∷ rest ]

  unfoldable pub iter : (ℕ → SerData T) → SampleBuffer T → List T
  iter heap b = iter_of heap (take b.size b.buffer)

  unfoldable pub iter_sample : SampleBuffer T → List (Sample T)
  iter_sample b = take b.size b.buffer

  unfoldable pub get : SampleBuffer T → ℕ → Option (Sample T)
  get b index = get_elem? b.buffer index

  unfoldable pub clear : {S : Type 0} → Refs S → SampleBuffer T → S → SampleBuffer T × S
  clear refs b s =
      let (samples, s') = free_all_contents refs b.buffer s in
      (record b { buffer = samples; size = 0 }, s')

  unfoldable pub begin_read : SampleBuffer T → ℕ × SampleBuffer T
  begin_read b = (length b.buffer, record b { size = 0 })
