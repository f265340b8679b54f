-- ===== src/Serdata/Ser.antt =====
-- cyclonedds/src/serdata.rs: the serialised form of a serdata, by reference (`to_ser_ref`), by copy
-- (`to_ser`) and its size. An iovec is the bytes that it shows; a buffer is the bytes from its
-- pointer on, and a write through the pointer replaces some of them. Sums of offsets and sizes stay
-- below the range of `usize`.
pub mod Windows
pub mod Requests
use cyclonedds_rs.Common.{
  ℕ, zero, suc, ◌+◌, ◌-◌, List, [], ◌∷◌, ◌++◌, Option, none, some, length, take, drop, replicate,
  leb, ltb, ◌==◌, if◌then◌else◌,
}
use Prim.Native.Nat.{min}
use cyclonedds_rs.Serdata.{
  KeyHash, none_key, cdr_key, key_length, SampleData, uninitialized, sdk_key_sample,
  sdk_data_sample, SerData, Ddsi, Codec, Outcome, returned, panicked, u32,
}

-- The part of the serialised bytes that a request shows, cut off at their end.
pub window : List ℕ → ℕ → ℕ → List ℕ
window cdr offset size =
    if ltb offset (length cdr)
    then take (min (offset + size) (length cdr) - offset) (drop offset cdr)
    else []

-- `buf[pos..pos + bytes.len()] = bytes`.
write : ℕ → List ℕ → List ℕ → List ℕ
write pos bytes buf = take pos buf ++ (bytes ++ drop (pos + length bytes) buf)

-- `write_bytes(buf + pos, 0, n)`.
write_zeros : ℕ → ℕ → List ℕ → List ℕ
unfolding write
write_zeros pos n buf = write pos (replicate n 0) buf

-- Copies the slice, and fills what it leaves of the `size` bytes with zeros.
copy_slice : List ℕ → ℕ → List ℕ → List ℕ
unfolding write write_zeros
copy_slice cdr size buf =
    let copied = write 0 cdr buf in
    if ltb (length cdr) size then write_zeros (length cdr) (size - length cdr) copied else copied

unfoldable pub copy_cdr_data : List ℕ → ℕ → ℕ → List ℕ → List ℕ
unfolding copy_slice write_zeros
copy_cdr_data s size offset buf =
    if size == 0
    then buf
    else if leb (length s) offset
    then write_zeros 0 size buf
    else copy_slice (take (min (offset + size) (length s) - offset) (drop offset s)) size buf

-- `buf.add(offset)`: a write goes to the bytes behind `offset`.
abbrev behind : ℕ → (List ℕ → List ℕ) → List ℕ → List ℕ
behind offset f buf = take offset buf ++ f (drop offset buf)

copy_cdr : Option (List ℕ) → ℕ → ℕ → List ℕ → List ℕ
copy_cdr none size offset buf = buf
copy_cdr (some v) size offset buf = copy_cdr_data v size offset buf

key_bytes : KeyHash → List ℕ
key_bytes none_key = []
key_bytes (cdr_key k) = k

copy_key : KeyHash → ℕ → ℕ → List ℕ → List ℕ
unfolding write_zeros
copy_key none_key size offset buf = write_zeros 0 size buf
copy_key (cdr_key k) size offset buf = copy_cdr_data k size offset buf

module _ {T : Type 0} where
  unfoldable pub forward_serdata_to_ser : SerData T → ℕ → ℕ → List ℕ → List ℕ
  unfolding copy_cdr
  forward_serdata_to_ser serdata size offset buf =
      if size == 0 then buf else behind offset (copy_cdr serdata.cdr size offset) buf

  unfoldable pub forward_serdata_get_size : SerData T → ℕ
  forward_serdata_get_size serdata = elim serdata.cdr [ none ↦ 0 | some cdr ↦ u32 (length cdr) ]

module _ {T : Type 0} (codec : Codec T) where
  write_sample : Option (List ℕ) → List ℕ → Outcome (List ℕ)
  unfolding write
  write_sample none buf = panicked
  write_sample (some bytes) buf = returned (write 0 bytes buf)

  -- The branches of `serdata_to_ser` behind the test of `size`, at the destination.
  to_ser_at : Option (List ℕ) → SampleData T → KeyHash → ℕ → ℕ → List ℕ → Outcome (List ℕ)
  unfolding write_sample copy_key
  to_ser_at (some v) sample key_hash size offset buf = returned (copy_cdr_data v size offset buf)
  to_ser_at none uninitialized key_hash size offset buf = panicked
  to_ser_at none sdk_key_sample key_hash size offset buf =
      returned (copy_key key_hash size offset buf)
  to_ser_at none (sdk_data_sample v) key_hash size offset buf =
      write_sample (codec.serialize_bounded v size) buf

  prefixed : List ℕ → Outcome (List ℕ) → Outcome (List ℕ)
  prefixed front panicked = panicked
  prefixed front (returned buf) = returned (front ++ buf)

  unfoldable pub serdata_to_ser : SerData T → ℕ → ℕ → List ℕ → Outcome (List ℕ)
  unfolding to_ser_at prefixed
  serdata_to_ser serdata size offset buf =
      if size == 0
      then returned buf
      else prefixed (take offset buf)
          (to_ser_at serdata.cdr serdata.sample serdata.key_hash size offset (drop offset buf))

  sample_size : SampleData T → Option (List ℕ) → KeyHash → ℕ
  sample_size sdk_key_sample cdr key_hash = u32 (key_length key_hash)
  sample_size (sdk_data_sample v) (some cdr) key_hash = u32 (length cdr)
  sample_size (sdk_data_sample v) none key_hash = u32 (codec.calc_serialized_size v)
  sample_size uninitialized cdr key_hash = 0

  unfoldable pub serdata_get_size : SerData T → ℕ
  unfolding sample_size key_length
  serdata_get_size serdata = sample_size serdata.sample serdata.cdr serdata.key_hash

  -- `SerData::serialize_sample` with no size given: `none` is the error of the codec.
  serialize_sample : SerData T → T → Option (SerData T)
  serialize_sample serdata v = elim (codec.serialize v) [
    | none ↦ none
    | some bytes ↦ some (record serdata { cdr = some bytes })
  ]

-- The value of `to_ser_ref`: the bytes that the iovec shows, or nothing for the null pointer, and
-- the serdata after the call.
abbrev pub Shown : Type 0 → Type 0
Shown T = Option (List ℕ) × SerData T

module _ {T : Type 0} (ddsi : Ddsi) where
  unfoldable pub addref : SerData T → SerData T
  addref serdata = record serdata { serdata = ddsi.serdata_addref serdata.serdata }

  show_cdr : SerData T → Option (List ℕ) → ℕ → ℕ → Shown T
  unfolding addref window
  show_cdr serdata none offset size = (none, serdata)
  show_cdr serdata (some cdr) offset size = (some (window cdr offset size), addref serdata)

  unfoldable pub forward_serdata_to_ser_ref : SerData T → ℕ → ℕ → Shown T
  unfolding show_cdr
  forward_serdata_to_ser_ref serdata offset size = show_cdr serdata serdata.cdr offset size

  module _ (codec : Codec T) where
    -- Serialises on the first use, and keeps the bytes.
    cached : SerData T → T → Option (List ℕ) → Option (SerData T)
    unfolding serialize_sample
    cached serdata v (some cdr) = some serdata
    cached serdata v none = serialize_sample codec serdata v

    show_cached : SerData T → Option (SerData T) → ℕ → ℕ → Shown T
    unfolding show_cdr
    show_cached serdata none offset size = (none, serdata)
    show_cached serdata (some serdata') offset size = show_cdr serdata' serdata'.cdr offset size

    to_ser_ref_of : SerData T → SampleData T → ℕ → ℕ → Outcome (Shown T)
    unfolding cached show_cached addref key_bytes
    to_ser_ref_of serdata uninitialized offset size = panicked
    to_ser_ref_of serdata sdk_key_sample offset size =
        returned (some (key_bytes serdata.key_hash), addref serdata)
    to_ser_ref_of serdata (sdk_data_sample v) offset size =
        returned (show_cached serdata (cached serdata v serdata.cdr) offset size)

    unfoldable pub serdata_to_ser_ref : SerData T → ℕ → ℕ → Outcome (Shown T)
    unfolding to_ser_ref_of
    serdata_to_ser_ref serdata offset size = to_ser_ref_of serdata serdata.sample offset size

-- The entries `to_ser` and `to_ser_ref` of a table. The C library passes the offset first and the
-- size second to both, as `ddsi_serdata_to_ser_t` and `ddsi_serdata_to_ser_ref_t` of
-- cyclonedds-sys/src/generated.rs say.
pub record ToSerOps (T : Type 0) : Type 0 where
  pub to_ser : SerData T → ℕ → ℕ → List ℕ → Outcome (List ℕ)
  pub to_ser_ref : SerData T → ℕ → ℕ → Outcome (Shown T)

-- The table of a type that is forwarded only, and that of a type that is serialised.
pub data Table : Type 0 where
  base : Table
  ser : Table

module _ {T : Type 0} (ddsi : Ddsi) (codec : Codec T) where
  unfoldable pub to_ser_ops : Table → ToSerOps T
  to_ser_ops base = record {
    to_ser = λ serdata x y buf. returned (forward_serdata_to_ser serdata x y buf);
    to_ser_ref = λ serdata x y. returned (forward_serdata_to_ser_ref ddsi serdata x y);
  }
  to_ser_ops ser = record {
    to_ser = serdata_to_ser codec;
    to_ser_ref = serdata_to_ser_ref ddsi codec;
  }
