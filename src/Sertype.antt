-- ===== src/Sertype.antt =====
-- cyclonedds/src/sertype.rs: the type that Cyclone DDS works with, its table of callbacks, and those of
-- them that serialize a sample for the shared memory. The parameter `cdr::serialize_into` of the codec
-- writes at the front of the buffer; what a call that fails leaves there is `spoiled`. The reader of
-- `murmur3_32` and `size_of` are parameters.
pub mod Psmx
mod Examples
use cyclonedds_rs.Common.{
  ℕ, ◌<◌, Bool, true, false, not, List, [], ◌∷◌, ◌++◌, Option, none, some, length, drop, ltb,
  if◌then◌else◌, Text,
}
use cyclonedds_rs.Util.{SgReader, new}
use cyclonedds_rs.Serdata.{Codec, Outcome, returned, panicked}
use cyclonedds_rs.Serdata.Convert.{SampleStorage, get_expected}

-- The entry of the table for the size, and for the bytes, of a serialized sample.
pub data SerializeOp : Type 0 where
  no_serialize : SerializeOp
  dummy_serialize : SerializeOp
  codec_serialize : SerializeOp

-- The entries that the two tables have in common: free, zero_samples, realloc_samples, free_samples,
-- equal and hash are always set, type_id, type_map, type_info and derive_sertype never.
pub record SertypeOps : Type 0 where
  pub get_serialized_size : SerializeOp
  pub serialize_into : SerializeOp

pub data SerdataOps : Type 0 where
  serdata_ops_base serdata_ops_serdes : SerdataOps

pub record SerType : Type 0 where
  pub type_name : Option Text
  pub ops : SertypeOps
  pub serdata_ops : SerdataOps
  pub topickind_no_key : Bool
  pub is_memcpy_safe : Bool

-- `shm` is the feature of that name.
unfoldable pub create_sertype_ops_base : Bool → SertypeOps
create_sertype_ops_base true = record {
  get_serialized_size = dummy_serialize;
  serialize_into = dummy_serialize;
}
create_sertype_ops_base false = record {
  get_serialized_size = no_serialize;
  serialize_into = no_serialize;
}

unfoldable pub create_sertype_ops_ser : Bool → SertypeOps
unfolding create_sertype_ops_base
create_sertype_ops_ser shm = record (create_sertype_ops_base shm) {
  get_serialized_size = codec_serialize;
  serialize_into = codec_serialize;
}

unfoldable pub untyped : Bool → Text → SerType
unfolding create_sertype_ops_base
untyped shm type_name = record {
  type_name = some type_name;
  ops = create_sertype_ops_base shm;
  serdata_ops = serdata_ops_base;
  topickind_no_key = true;
  is_memcpy_safe = false;
}

-- `SerType::new`, of a type with that name.
unfoldable pub typed : Bool → Text → Bool → SerType
unfolding create_sertype_ops_ser
typed shm typename has_key = record {
  type_name = some typename;
  ops = create_sertype_ops_ser shm;
  serdata_ops = serdata_ops_serdes;
  topickind_no_key = not has_key;
  is_memcpy_safe = false;
}

-- `CStr::to_bytes` of the name, then the bytes of the size of the type, through the reader.
unfoldable pub sertype_hash : (SgReader → Option ℕ) → Text → List ℕ → ℕ
sertype_hash murmur3_32 type_name type_size = elim (murmur3_32 (new (type_name ∷ type_size ∷ []))) [
  | none ↦ 0
  | some hash ↦ hash
]

module _ {T : Type 0} (codec : Codec T) (spoiled : T → List ℕ → List ℕ) where
  -- The size and the encoding identifier that are written.
  unfoldable pub size_of_expected : Outcome T → Outcome (ℕ × ℕ)
  size_of_expected panicked = panicked
  size_of_expected (returned sample) = returned (codec.calc_serialized_size sample, 0)

  unfoldable pub sertype_get_serialized_size : Option (SampleStorage T) → Outcome (ℕ × ℕ)
  unfolding size_of_expected
  sertype_get_serialized_size sample = size_of_expected (get_expected sample)

  -- The result and the buffer afterwards.
  unfoldable pub written_into : T → List ℕ → Option (List ℕ) → Outcome (Bool × List ℕ)
  written_into sample dst none = returned (false, spoiled sample dst)
  written_into sample dst (some bytes) = returned (true, bytes ++ drop (length bytes) dst)

  unfoldable pub into_buffer : List ℕ → Outcome T → Outcome (Bool × List ℕ)
  unfolding written_into
  into_buffer dst panicked = panicked
  into_buffer dst (returned sample) =
      if ltb (length dst) (codec.calc_serialized_size sample)
      then returned (false, dst)
      else written_into sample dst (codec.serialize sample)

  unfoldable pub sertype_serialize_into :
      Option (SampleStorage T) → List ℕ → Outcome (Bool × List ℕ)
  unfolding into_buffer
  sertype_serialize_into sample dst = into_buffer dst (get_expected sample)
