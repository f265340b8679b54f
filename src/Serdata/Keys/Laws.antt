-- ===== src/Serdata/Keys/Laws.antt =====
-- Keys of serdata in cyclonedds/src/serdata.rs: equality, round trips, and the untyped copies.
use cyclonedds_rs.Common.{
  bytes_eq_iff, ℕ, ◌<◌, ◌≡◌, ◌↔◌, refl, ap, List, [], ◌∷◌, Option, none, true, length, arith,
}
use cyclonedds_rs.Serdata.{
  sdk_key, KeyHash, none_key, cdr_key, IsKeyHash, sdk_key_sample, SerData, Ddsi, new,
}
use cyclonedds_rs.Serdata.Keys.{
  key_hash_eq, copy_keyhash, serdata_eqkey, serdata_get_keyhash, serdata_from_keyhash,
  serdata_to_untyped,
}

key_hash_eq_iff : (a b : KeyHash) → (key_hash_eq a b ≡ true) ↔ (a ≡ b)
unfolding key_hash_eq
key_hash_eq_iff none_key none_key = ((λ h. refl), λ h. refl)
key_hash_eq_iff (cdr_key a) (cdr_key b) =
    ((λ h. ap cdr_key ((bytes_eq_iff a b).0 h)), λ h. (bytes_eq_iff a b).1 (ground arith))
key_hash_eq_iff none_key (cdr_key b) = ((λ h. cc), λ h. cc)
key_hash_eq_iff (cdr_key a) none_key = ((λ h. cc), λ h. cc)

module _ {T : Type 0} where
  -- Two serdata have equal keys exactly when their key hashes are the same, byte by byte.
  pub eqkey_iff : (a b : SerData T) → (serdata_eqkey a b ≡ true) ↔ (a.key_hash ≡ b.key_hash)
  unfolding serdata_eqkey
  eqkey_iff a b = key_hash_eq_iff a.key_hash b.key_hash

copy_keyhash_lem : (src keyhash : List ℕ) → 0 < length src → copy_keyhash src keyhash ≡ src
unfolding copy_keyhash
copy_keyhash_lem [] keyhash h = absurd (omega arith)
copy_keyhash_lem (b ∷ src) keyhash h = refl

module _ (T : Type 0) (ddsi : Ddsi) (sertype : Option ℕ) (keyhash : List ℕ)
    (h : length keyhash ≡ 16) where
  -- The serdata of a key hash of 16 bytes has a key of 20 bytes, and is a key without a sample. The
  -- key hash comes back out of it and out of its untyped copy, whatever was in the destination, and
  -- the two have equal keys.
  pub keyhash_survives :
      (old : List ℕ)
      → let serdata : SerData T = serdata_from_keyhash ddsi sertype keyhash in
        IsKeyHash serdata.key_hash
        × (serdata.serdata.kind ≡ sdk_key)
        × (serdata.sample ≡ sdk_key_sample)
        × (serdata_get_keyhash serdata old ≡ keyhash)
        × (serdata_get_keyhash (serdata_to_untyped ddsi serdata) old ≡ keyhash)
        × (serdata_eqkey serdata (serdata_to_untyped ddsi serdata) ≡ true)
  unfolding serdata_get_keyhash serdata_from_keyhash serdata_to_untyped new
  keyhash_survives old = (
    omega (arith, h),
    ddsi.init_kind sertype sdk_key,
    refl,
    copy_keyhash_lem keyhash old (omega arith),
    copy_keyhash_lem keyhash old (omega arith),
    (eqkey_iff _ _).1 refl,
  )

-- An untyped copy keeps the key and the hash of the serdata, has no type and no CDR, and holds one
-- reference of its own.
pub to_untyped_lem :
    {T : Type 0} (ddsi : Ddsi) (serdata : SerData T)
    → let untyped = serdata_to_untyped ddsi serdata in
      (untyped.key_hash ≡ serdata.key_hash)
      × (untyped.serdata.hash ≡ serdata.serdata.hash)
      × (untyped.serdata.type_ ≡ none)
      × (untyped.serdata.kind ≡ sdk_key)
      × (untyped.serdata.refc ≡ 1)
      × (untyped.cdr ≡ none)
unfolding serdata_to_untyped new
to_untyped_lem ddsi serdata = (
  refl,
  refl,
  refl,
  ddsi.init_kind serdata.serdata.type_ sdk_key,
  ddsi.init_refc serdata.serdata.type_ sdk_key,
  refl,
)
