-- ===== src/Serdata/Convert.antt =====
-- cyclonedds/src/serdata.rs: serdata from a sample to be written, and samples out of serdata that
-- were received.
pub mod RoundTrip
use cyclonedds_rs.Common.{
  ℕ, zero, suc, ◌+◌, ◌≡◌, List, [], ◌∷◌, Option, none, some, Bool, true, false, not, ◌||◌, ◌==◌,
  take, if◌then◌else◌,
}
use cyclonedds_rs.Serdata.{
  Kind, sdk_empty, sdk_key, sdk_data, DdsiSerdata, SampleData, uninitialized, sdk_key_sample,
  sdk_data_sample, SerData, Ddsi, Codec, Outcome, returned, panicked, new,
}

-- `Sample::sample`: what the writer put into the sample.
pub data SampleStorage (T : Type 0) : Type 0 where
  owned : T → SampleStorage T
  loaned : T → SampleStorage T

set_hash : DdsiSerdata → ℕ → DdsiSerdata
set_hash header hash = record header { hash = hash }

module _ {T : Type 0} where
  -- `Sample::get_expected`, which panics unless the sample owns its data.
  unfoldable pub get_expected : Option (SampleStorage T) → Outcome T
  get_expected (some (owned t)) = returned t
  get_expected (some (loaned t)) = panicked
  get_expected none = panicked

  -- The branch for `SDK_DATA`, with the hash of the sample over the base hash of its type.
  from_expected : (T → ℕ → ℕ) → ℕ → SerData T → Outcome T → Outcome (SerData T)
  unfolding set_hash
  from_expected hash basehash serdata panicked = panicked
  from_expected hash basehash serdata (returned sample) = returned (record serdata {
    serdata = set_hash serdata.serdata (hash sample basehash);
    sample = sdk_data_sample sample;
  })

  of_kind : Kind → Outcome (SerData T) → Outcome (SerData T)
  of_kind sdk_data made = made
  of_kind sdk_key made = panicked
  of_kind sdk_empty made = panicked

  unfoldable pub serdata_from_sample :
      Ddsi → (T → ℕ → ℕ) → Option ℕ → ℕ → Kind → Option (SampleStorage T) → Outcome (SerData T)
  unfolding from_expected of_kind
  serdata_from_sample ddsi hash sertype basehash kind sample =
      of_kind kind (from_expected hash basehash (new ddsi sertype kind) (get_expected sample))

-- The value of `to_sample`: the serdata after the call, whether it was bound to the sample
-- (`set_serdata`), and the result.
pub record ToSample (T : Type 0) : Type 0 where
  pub serdata : SerData T
  pub is_bound : Bool
  pub result : Bool

module _ {T : Type 0} (codec : Codec T) where
  is_sdk_data : SampleData T → Bool
  is_sdk_data (sdk_data_sample v) = true
  is_sdk_data sdk_key_sample = false
  is_sdk_data uninitialized = false

  -- The end of the function: a serdata with a sample is bound.
  bind_sample : SerData T → ToSample T
  unfolding is_sdk_data
  bind_sample serdata = record {
    serdata = serdata;
    is_bound = is_sdk_data serdata.sample;
    result = true;
  }

  failed : SerData T → ToSample T
  failed serdata = record { serdata = serdata; is_bound = false; result = false }

  decoded : SerData T → Option T → ToSample T
  unfolding bind_sample failed
  decoded serdata none = failed serdata
  decoded serdata (some v) = bind_sample (record serdata { sample = sdk_data_sample v })

  decode_cdr : SerData T → Option (List ℕ) → ToSample T
  unfolding failed decoded
  decode_cdr serdata none = failed serdata
  decode_cdr serdata (some cdr) = decoded serdata (codec.deserialize_from cdr)

  to_sample_of : SerData T → SampleData T → ToSample T
  unfolding decode_cdr bind_sample
  to_sample_of serdata uninitialized = decode_cdr serdata serdata.cdr
  to_sample_of serdata sdk_key_sample = bind_sample serdata
  to_sample_of serdata (sdk_data_sample v) = bind_sample serdata

  unfoldable pub serdata_to_sample : SerData T → ToSample T
  unfolding to_sample_of
  serdata_to_sample serdata = to_sample_of serdata serdata.sample

pub data SampleState : Type 0 where
  unitialized raw_key raw_data serialized_key serialized_data : SampleState

-- The fields of `dds_psmx_metadata` that the code reads.
pub record PsmxMetadata : Type 0 where
  pub sample_state : SampleState
  pub sample_size : ℕ
  pub timestamp : ℕ
  pub statusinfo : ℕ
  pub cdr_identifier : ℕ
  pub cdr_options : ℕ

-- A loaned sample: its metadata and the bytes behind `sample_ptr`, either of which may be null.
pub record LoanedSample : Type 0 where
  pub metadata : Option PsmxMetadata
  pub sample_ptr : Option (List ℕ)

psmx_kind : SampleState → Option Kind
psmx_kind serialized_data = some sdk_data
psmx_kind serialized_key = some sdk_key
psmx_kind unitialized = none
psmx_kind raw_key = none
psmx_kind raw_data = none

psmx_header : DdsiSerdata → PsmxMetadata → DdsiSerdata
psmx_header header metadata = record header {
  statusinfo = metadata.statusinfo;
  timestamp = metadata.timestamp;
}

module _ {T : Type 0} (ddsi : Ddsi) where
  psmx_of_kind : ℕ → PsmxMetadata → List ℕ → Option Kind → Option (SerData T)
  unfolding psmx_header
  psmx_of_kind sertype metadata bytes none = none
  psmx_of_kind sertype metadata bytes (some kind) =
      let serdata = new ddsi (some sertype) kind in
      if not (metadata.cdr_identifier == 0) || not (metadata.cdr_options == 0)
      then none
      else some (record serdata {
        serdata = psmx_header serdata.serdata metadata;
        cdr = some (take metadata.sample_size bytes);
      })

  psmx_of_loan : ℕ → Option PsmxMetadata → Option (List ℕ) → Option (SerData T)
  unfolding psmx_of_kind psmx_kind
  psmx_of_loan sertype none sample_ptr = none
  psmx_of_loan sertype (some metadata) none = none
  psmx_of_loan sertype (some metadata) (some bytes) =
      psmx_of_kind sertype metadata bytes (psmx_kind metadata.sample_state)

  -- `none` is a null pointer, among the arguments and as the result.
  unfoldable pub serdata_from_psmx : Option ℕ → Option LoanedSample → Option (SerData T)
  unfolding psmx_of_loan
  serdata_from_psmx none loan = none
  serdata_from_psmx (some sertype) none = none
  serdata_from_psmx (some sertype) (some loan) = psmx_of_loan sertype loan.metadata loan.sample_ptr
