-- ===== src/Serdata/Convert/RoundTrip.antt =====
-- From the writer's sample over the transport to the reader's sample, through the callbacks of
-- cyclonedds/src/serdata.rs.
use cyclonedds_rs.Common.{
  ℕ, ◌≤◌, ◌≡◌, refl, ap, ◌∙◌, inl, List, ◌∷◌, Option, some, true, length, take, concat, arith,
  take_all, le→leb,
}
use cyclonedds_rs.Util.IntoVec.{AllFull}
use cyclonedds_rs.Stats.{DiscardedSamples}
use cyclonedds_rs.Serdata.{
  sdk_data, uninitialized, sdk_data_sample, SerData, Ddsi, Codec, returned, new,
}
use cyclonedds_rs.Serdata.Fragchain.{Rdata, serdata_from_fragchain, serdata_from_ser_iov}
use cyclonedds_rs.Serdata.Fragchain.Assembly.{fragchain_assembles, ser_iov_lem}
use cyclonedds_rs.Serdata.Fragchain.Gathering.{AllParts, Covers, reach}
use cyclonedds_rs.Serdata.Ser.Windows.{Shows, HasBytes, sum, Shows-concat}
use cyclonedds_rs.Serdata.Convert.{
  owned, get_expected, serdata_from_sample, set_hash, serdata_to_sample, to_sample_of, decode_cdr,
  decoded, bind_sample,
}

module _ {T : Type 0} (codec : Codec T) where
  -- The reader has the sample: the call succeeds and binds it.
  abbrev pub Reads : SerData T → T → Type 0
  Reads serdata t =
      let r = serdata_to_sample codec serdata in
      (r.result ≡ true) × (r.is_bound ≡ true) × (r.serdata.sample ≡ sdk_data_sample t)

  decodes :
      (serdata : SerData T) (t : T) (bytes : List ℕ)
      → serdata.sample ≡ uninitialized
      → serdata.cdr ≡ some bytes
      → codec.serialize t ≡ some bytes
      → serdata_to_sample codec serdata
        ≡ bind_sample codec (record serdata { sample = sdk_data_sample t })
  unfolding serdata_to_sample
  decodes serdata t bytes u c e =
      ap (to_sample_of codec serdata) u
      ∙ ap (decode_cdr codec serdata) c
      ∙ ap (decoded codec serdata) (codec.deserialize-serialize t bytes e)

  pub decodes-Reads :
      (serdata : SerData T) (t : T) (bytes : List ℕ)
      → serdata.sample ≡ uninitialized
      → serdata.cdr ≡ some bytes
      → codec.serialize t ≡ some bytes
      → Reads serdata t
  decodes-Reads serdata t bytes u c e =
      rw (decodes serdata t bytes u c e) (unfold bind_sample in (refl, refl, refl))

  -- A second call decodes nothing: it finds the sample of the first, with the same result.
  pub to_sample_twice :
      (serdata : SerData T)
      → (serdata_to_sample codec serdata).result ≡ true
      → serdata_to_sample codec (serdata_to_sample codec serdata).serdata
        ≡ serdata_to_sample codec serdata
  unfolding serdata_to_sample
  to_sample_twice serdata h = ground arith

  module _ (ddsi : Ddsi) (stats : DiscardedSamples) (hash : T → ℕ → ℕ) (wtype rtype : Option ℕ)
      (basehash : ℕ) where
    from_sample_lem :
        (t : T)
        → serdata_from_sample ddsi hash wtype basehash sdk_data (some (owned t))
          ≡ returned (record (new ddsi wtype sdk_data) {
            serdata = set_hash (ddsi.serdata_init wtype sdk_data) (hash t basehash);
            sample = sdk_data_sample t;
          })
    unfolding serdata_from_sample get_expected new
    from_sample_lem t = refl

    from_sample-HasBytes :
        (t : T) (bytes : List ℕ) (serdata : SerData T)
        → serdata_from_sample ddsi hash wtype basehash sdk_data (some (owned t)) ≡ returned serdata
        → codec.serialize t ≡ some bytes
        → HasBytes codec serdata t bytes
    unfolding new
    from_sample-HasBytes t bytes serdata e s =
        let same : record (new ddsi wtype sdk_data) {
          serdata = set_hash (ddsi.serdata_init wtype sdk_data) (hash t basehash);
          sample = sdk_data_sample t;
        }
            ≡ serdata =
          unfold serdata_from_sample get_expected in cc in
        rw (← same) (refl, s, inl refl)

    -- A sample is written, its serialised form is cut by any run of requests that reaches its end
    -- and shows no empty piece, and the pieces are received: the reader gets the sample back, and
    -- nothing is counted as discarded.
    pub ser_iov_roundtrip :
        (t : T) (bytes : List ℕ) (written : SerData T) (sizes : List ℕ) (iovs : List (List ℕ))
        → serdata_from_sample ddsi hash wtype basehash sdk_data (some (owned t)) ≡ returned written
        → codec.serialize t ≡ some bytes
        → Shows ddsi codec written 0 sizes iovs
        → AllFull iovs
        → length bytes ≤ sum sizes
        → (received : SerData T) × (serdata_from_ser_iov ddsi stats rtype sdk_data iovs
              (length bytes)
            ≡ (some received, stats))
          × Reads received t
    ser_iov_roundtrip t bytes written sizes iovs w s shows full enough =
        let whole : concat iovs ≡ bytes =
          Shows-concat ddsi codec (from_sample-HasBytes t bytes written w s) shows
          ∙ take_all (sum sizes) bytes enough in
        (
          record (new ddsi rtype sdk_data) { cdr = some bytes },
          ser_iov_lem ddsi stats rtype sdk_data iovs (length bytes) full
              ∙ rw
                  (
                    whole,
                    le→leb (length bytes) (length bytes) (omega arith),
                    take_all (length bytes) bytes (omega arith),
                  )
                  refl,
          decodes-Reads _ t bytes (unfold new in refl) refl s,
        )

    -- A sample is serialised and received as a chain of fragments: if these hold parts of its bytes,
    -- begin at byte 0, leave no hole (they may overlap) and reach the end, the reader gets the sample
    -- back, and nothing is counted as discarded.
    pub fragchain_roundtrip :
        (t : T) (bytes : List ℕ) (first : Rdata) (rest : List Rdata)
        → codec.serialize t ≡ some bytes
        → AllParts bytes (first ∷ rest)
        → first.min ≡ 0
        → Covers 0 (first ∷ rest) (length bytes)
        → length bytes ≤ reach 0 (first ∷ rest)
        → (received : SerData T) × (serdata_from_fragchain ddsi stats rtype sdk_data first rest
              (length bytes)
            ≡ (some received, stats))
          × Reads received t
    fragchain_roundtrip t bytes first rest s parts z covers r = (
      record (new ddsi rtype sdk_data) { cdr = some (take (length bytes) bytes) },
      fragchain_assembles ddsi stats rtype sdk_data bytes first rest (length bytes) parts z covers
          r,
      decodes-Reads _ t bytes (unfold new in refl)
          (ap some (take_all (length bytes) bytes (omega arith))) s,
    )
