-- ===== src/Serdata.antt =====
-- cyclonedds/src/serdata.rs: the structure that carries a sample through Cyclone DDS. Its header
-- `ddsi_serdata` is a C structure (cyclonedds-sys/src/generated.rs); a pointer is an address or
-- nothing. What `ddsi_serdata_init` and the reference count functions do is the C library's, and
-- the parameter `Ddsi`; the `cdr` crate is the parameter `Codec`.
pub mod Fragchain
pub mod Ser
pub mod Keys
pub mod Convert
pub mod Examples
use cyclonedds_rs.Common.{
  ℕ, zero, suc, ◌+◌, ◌%◌, ◌^◌, ◌≡◌, List, [], ◌∷◌, Option, none, some, length, leb, if◌then◌else◌,
}

pub data Kind : Type 0 where
  sdk_empty : Kind
  sdk_key : Kind
  sdk_data : Kind

pub record DdsiSerdata : Type 0 where
  pub hash : ℕ
  pub refc : ℕ
  pub kind : Kind
  pub type_ : Option ℕ
  pub timestamp : ℕ
  pub statusinfo : ℕ
  pub loan : Option ℕ

pub data KeyHash : Type 0 where
  none_key : KeyHash
  cdr_key : List ℕ → KeyHash

unfoldable pub key_length : KeyHash → ℕ
key_length (cdr_key k) = length k
key_length none_key = 0

-- The array of `CdrKey` has 20 bytes.
abbrev pub IsKeyHash : KeyHash → Type 0
IsKeyHash none_key = Unit
IsKeyHash (cdr_key k) = length k ≡ 20

pub data SampleData (T : Type 0) : Type 0 where
  uninitialized : SampleData T
  sdk_key_sample : SampleData T
  sdk_data_sample : T → SampleData T

pub record SerData (T : Type 0) : Type 0 where
  pub serdata : DdsiSerdata
  pub sample : SampleData T
  pub cdr : Option (List ℕ)
  pub key_hash : KeyHash

-- The functions of the C library on the header, with what its documentation says of them.
pub record Ddsi : Type 0 where
  pub serdata_init : Option ℕ → Kind → DdsiSerdata
  pub serdata_addref : DdsiSerdata → DdsiSerdata
  pub init_kind : (t : Option ℕ) (k : Kind) → (serdata_init t k).kind ≡ k
  pub init_type : (t : Option ℕ) (k : Kind) → (serdata_init t k).type_ ≡ t
  pub init_refc : (t : Option ℕ) (k : Kind) → (serdata_init t k).refc ≡ 1
  pub addref_refc : (d : DdsiSerdata) → (serdata_addref d).refc ≡ d.refc + 1

-- The `cdr` crate at the type `T`, big endian with its encapsulation header: serialising can fail,
-- what it writes is as long as was computed, a bound only refuses what is longer, and reading back
-- gives the value.
pub record Codec (T : Type 0) : Type 0 where
  pub serialize : T → Option (List ℕ)
  pub serialize_bounded : T → ℕ → Option (List ℕ)
  pub deserialize_from : List ℕ → Option T
  pub calc_serialized_size : T → ℕ
  pub serialize_size :
      (v : T) (bytes : List ℕ) → serialize v ≡ some bytes → length bytes ≡ calc_serialized_size v
  pub serialize_within :
      (v : T) (bytes : List ℕ) (n : ℕ)
      → serialize v ≡ some bytes
      → serialize_bounded v n ≡ (if leb (length bytes) n then some bytes else none)
  pub deserialize-serialize :
      (v : T) (bytes : List ℕ) → serialize v ≡ some bytes → deserialize_from bytes ≡ some v

-- `SerData::new`.
unfoldable pub new : {T : Type 0} → Ddsi → Option ℕ → Kind → SerData T
new ddsi sertype kind = record {
  serdata = ddsi.serdata_init sertype kind;
  sample = uninitialized;
  cdr = none;
  key_hash = none_key;
}

-- The outcome of a callback that may panic.
pub data Outcome (A : Type 0) : Type 0 where
  returned : A → Outcome A
  panicked : Outcome A

-- A `usize` or a `u64` as a `u32`.
abbrev pub u32 : ℕ → ℕ
u32 n = n % 2 ^ 32
