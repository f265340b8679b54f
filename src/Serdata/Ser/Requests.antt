-- ===== src/Serdata/Ser/Requests.antt =====
-- What the C library gets from `to_ser` and `to_ser_ref` of cyclonedds/src/serdata.rs when it calls
-- them through the table of a type.
use cyclonedds_rs.Common.{
  ℕ, zero, suc, ◌+◌, ◌≡◌, refl, sym, ap, ◌∙◌, List, ◌++◌, some, take, drop, ◌==◌, false, arith,
}
use cyclonedds_rs.Serdata.{sdk_data_sample, SerData, Ddsi, Codec, returned}
use cyclonedds_rs.Serdata.Ser.{
  copy_cdr, forward_serdata_to_ser, addref, forward_serdata_to_ser_ref, show_cdr, serdata_to_ser,
  to_ser_at, prefixed, serdata_to_ser_ref, to_ser_ref_of, cached, show_cached, Table, base, ser,
  to_ser_ops,
}
use cyclonedds_rs.Serdata.Ser.Windows.{window-eq, padded, forward_to_ser_lem}

module _ {T : Type 0} (ddsi : Ddsi) (codec : Codec T) where
  same_copy :
      (serdata : SerData T) (cdr : List ℕ) (size offset : ℕ) (buf : List ℕ)
      → serdata.cdr ≡ some cdr
      → serdata_to_ser codec serdata size offset buf
        ≡ returned (forward_serdata_to_ser serdata size offset buf)
  unfolding serdata_to_ser forward_serdata_to_ser
  same_copy serdata cdr zero offset buf e = refl
  same_copy serdata cdr (suc size) offset buf e = rw (nonzero) (
      ap
        (λ c.
          prefixed codec (take offset buf)
            (to_ser_at codec c serdata.sample serdata.key_hash (suc size) offset (drop offset buf)))
        e
      ∙ sym (
          ap (λ c. returned (take offset buf ++ copy_cdr c (suc size) offset (drop offset buf))) e))
    where
      nonzero : (suc size == 0) ≡ false
      nonzero = ground arith

  shown_cdr :
      (serdata : SerData T) (cdr : List ℕ) (offset size : ℕ)
      → serdata.cdr ≡ some cdr
      → show_cdr ddsi serdata serdata.cdr offset size
        ≡ (some (take size (drop offset cdr)), addref ddsi serdata)
  unfolding show_cdr
  shown_cdr serdata cdr offset size e =
      ap (λ c. show_cdr ddsi serdata c offset size) e
      ∙ ap (λ t. (some t, addref ddsi serdata)) (window-eq cdr offset size)

  shown_sample :
      (serdata : SerData T) (v : T) (cdr : List ℕ) (offset size : ℕ)
      → serdata.cdr ≡ some cdr
      → serdata.sample ≡ sdk_data_sample v
      → serdata_to_ser_ref ddsi codec serdata offset size
        ≡ returned (some (take size (drop offset cdr)), addref ddsi serdata)
  unfolding serdata_to_ser_ref to_ser_ref_of show_cached cached
  shown_sample serdata v cdr offset size e d =
      ap (λ sample. to_ser_ref_of ddsi codec serdata sample offset size) d
      ∙ ap
          (λ c.
            returned (show_cached ddsi codec serdata (cached ddsi codec serdata v c) offset size))
          e
      ∙ ap returned (shown_cdr serdata cdr offset size e)

  -- A request for the `sz` bytes from `off` on, made by the C library through the table of a type,
  -- forwarded or serialised, of a serdata of a sample that holds its CDR. By reference it shows these
  -- bytes, as many as there are, and the reference is counted. By copy it does not give them: the
  -- callback takes the offset for the size and the size for the offset, so that it writes, `sz` bytes
  -- behind the pointer, the `off` bytes from `sz` on, filled up with zeros, and for a request from the
  -- beginning nothing at all.
  pub requests_differ :
      (table : Table) (serdata : SerData T) (v : T) (cdr : List ℕ) (off sz : ℕ) (buf : List ℕ)
      → serdata.cdr ≡ some cdr
      → serdata.sample ≡ sdk_data_sample v
      → let ops = to_ser_ops ddsi codec table in
        (ops.to_ser_ref serdata off sz
          ≡ returned (some (take sz (drop off cdr)), addref ddsi serdata))
        × (ops.to_ser serdata off sz buf
            ≡ returned
                (take sz buf ++ (padded off (take off (drop sz cdr)) ++ drop (sz + off) buf)))
        × (ops.to_ser serdata 0 sz buf ≡ returned buf)
  unfolding to_ser_ops forward_serdata_to_ser_ref forward_serdata_to_ser serdata_to_ser
  requests_differ base serdata v cdr off sz buf e d = (
    ap returned (shown_cdr serdata cdr off sz e),
    ap returned (forward_to_ser_lem serdata cdr off sz buf e),
    refl,
  )
  requests_differ ser serdata v cdr off sz buf e d = (
    shown_sample serdata v cdr off sz e d,
    same_copy serdata cdr off sz buf e ∙ ap returned (forward_to_ser_lem serdata cdr off sz buf e),
    refl,
  )
