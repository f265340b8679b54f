-- ===== src/Serdata/Keys.antt =====
-- cyclonedds/src/serdata.rs: key hashes, and the serdata that carry a key only. A `ddsi_keyhash` is
-- its 16 bytes.
pub mod Laws
use cyclonedds_rs.Common.{
  ℕ, zero, suc, ◌+◌, ◌-◌, ◌≡◌, List, [], ◌∷◌, ◌++◌, Option, none, some, Bool, true, false, ◌&&◌,
  length, drop, replicate, bytes_eq, ◌==◌, if◌then◌else◌,
}
use cyclonedds_rs.Serdata.{
  Kind, sdk_key, DdsiSerdata, KeyHash, none_key, cdr_key, SampleData, sdk_key_sample, SerData, Ddsi,
  new,
}

-- The derived `PartialEq` of `KeyHash`.
key_hash_eq : KeyHash → KeyHash → Bool
key_hash_eq none_key none_key = true
key_hash_eq (cdr_key a) (cdr_key b) = bytes_eq a b
key_hash_eq none_key (cdr_key b) = false
key_hash_eq (cdr_key a) none_key = false

-- `copy_from_slice` into the 16 bytes of a key hash, if there are any.
copy_keyhash : List ℕ → List ℕ → List ℕ
copy_keyhash [] keyhash = keyhash
copy_keyhash (b ∷ src) keyhash = b ∷ src

keyhash_source : KeyHash → List ℕ
keyhash_source none_key = []
keyhash_source (cdr_key k) = drop 4 k

-- The header of the untyped serdata has no type, and the hash of the typed one.
untyped_header : DdsiSerdata → ℕ → DdsiSerdata
untyped_header header hash = record header { type_ = none; hash = hash }

module _ {T : Type 0} where
  unfoldable pub serdata_eqkey : SerData T → SerData T → Bool
  unfolding key_hash_eq
  serdata_eqkey a b = key_hash_eq a.key_hash b.key_hash

  -- The value of the key hash after the call.
  unfoldable pub serdata_get_keyhash : SerData T → List ℕ → List ℕ
  unfolding copy_keyhash keyhash_source
  serdata_get_keyhash serdata keyhash = copy_keyhash (keyhash_source serdata.key_hash) keyhash

  module _ (ddsi : Ddsi) where
    -- `[0u8; 20]` with the key hash behind its first four bytes.
    unfoldable pub serdata_from_keyhash : Option ℕ → List ℕ → SerData T
    serdata_from_keyhash sertype keyhash =
        let serdata = new ddsi sertype sdk_key in
        record serdata { sample = sdk_key_sample; key_hash = cdr_key (replicate 4 0 ++ keyhash) }

    unfoldable pub serdata_to_untyped : SerData T → SerData T
    unfolding untyped_header
    serdata_to_untyped serdata =
        let untyped_serdata : SerData T = new ddsi serdata.serdata.type_ sdk_key in
        record untyped_serdata {
          serdata = untyped_header untyped_serdata.serdata serdata.serdata.hash;
          sample = sdk_key_sample;
          key_hash = serdata.key_hash;
        }
