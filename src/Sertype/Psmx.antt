-- ===== src/Sertype/Psmx.antt =====
-- From a sample over the shared memory to a serdata: cyclonedds/src/sertype.rs on the side of the
-- writer, cyclonedds/src/serdata.rs on the side of the reader.
use cyclonedds_rs.Common.{
  ℕ, ◌≤◌, ◌≡◌, refl, ap, sym, true, false, List, ◌++◌, some, length, take, drop, ltb, arith,
  take-append_length,
}
use cyclonedds_rs.Serdata.{SerData, Ddsi, Codec, returned, sdk_data, new}
use cyclonedds_rs.Serdata.Convert.{
  owned, get_expected, serialized_data, PsmxMetadata, serdata_from_psmx,
}
use cyclonedds_rs.Serdata.Convert.RoundTrip.{Reads, decodes-Reads}
use cyclonedds_rs.Sertype.{
  sertype_get_serialized_size, sertype_serialize_into, into_buffer, written_into,
}

-- The metadata that goes with a serialized sample of that size and encoding.
abbrev pub described : ℕ × ℕ → ℕ → ℕ → PsmxMetadata
described (size, enc_identifier) timestamp statusinfo = record {
  sample_state = serialized_data;
  sample_size = size;
  timestamp = timestamp;
  statusinfo = statusinfo;
  cdr_identifier = enc_identifier;
  cdr_options = 0;
}

module _ {T : Type 0} (codec : Codec T) (spoiled : T → List ℕ → List ℕ) (ddsi : Ddsi) where
  into_buffer-fits :
      (t : T) (bytes dst : List ℕ)
      → codec.serialize t ≡ some bytes
      → length bytes ≤ length dst
      → into_buffer codec spoiled dst (returned t)
        ≡ returned (true, bytes ++ drop (length bytes) dst)
  unfolding into_buffer written_into
  into_buffer-fits t bytes dst s h = ground (arith, codec.serialize_size t bytes s)

  -- For a sample that owns a value `t` that the codec serializes, and a buffer of at least the bytes
  -- that sertype_get_serialized_size reports: sertype_serialize_into returns true, and
  -- serdata_from_psmx, on the buffer with that size and encoding, gives a serdata out of which
  -- to_sample reads `t`.
  pub psmx_roundtrip :
      (t : T) (bytes dst : List ℕ) (sertype timestamp statusinfo : ℕ)
      → codec.serialize t ≡ some bytes
      → length bytes ≤ length dst
      → (size : ℕ × ℕ) × (buffer : List ℕ) × (received : SerData T) × (sertype_get_serialized_size
            codec spoiled
            (some (owned t))
          ≡ returned size)
        × (size.0 ≡ length bytes)
        × (sertype_serialize_into codec spoiled (some (owned t)) dst ≡ returned (true, buffer))
        × (serdata_from_psmx ddsi (some sertype) (
              some (record {
                metadata = some (described size timestamp statusinfo);
                sample_ptr = some buffer;
              }))
            ≡ some received)
        × Reads codec received t
  unfolding sertype_get_serialized_size sertype_serialize_into get_expected serdata_from_psmx
  psmx_roundtrip t bytes dst sertype timestamp statusinfo s h =
      let buffer = bytes ++ drop (length bytes) dst in
      let fresh : SerData T = new ddsi (some sertype) sdk_data in
      let received : SerData T = record fresh {
        serdata = record fresh.serdata { statusinfo = statusinfo; timestamp = timestamp };
        cdr = some (take (length bytes) buffer);
      } in
      (
        (length bytes, 0),
        buffer,
        received,
        ap (λ n. returned (n, 0)) (sym (codec.serialize_size t bytes s)),
        refl,
        into_buffer-fits t bytes dst s h,
        refl,
        decodes-Reads codec received t bytes (unfold new in refl)
            (ap some (take-append_length bytes (drop (length bytes) dst))) s,
      )

  -- A buffer that is too short is left as it is, and the call returns false.
  pub short_buffer :
      (t : T) (dst : List ℕ) (size : ℕ × ℕ)
      → sertype_get_serialized_size codec spoiled (some (owned t)) ≡ returned size
      → ltb (length dst) size.0 ≡ true
      → sertype_serialize_into codec spoiled (some (owned t)) dst ≡ returned (false, dst)
  unfolding sertype_get_serialized_size sertype_serialize_into get_expected
  short_buffer t dst size e h = ground arith
