-- ===== src/Serdata/Fragchain/Assembly.antt =====
-- Reassembly in cyclonedds/src/serdata.rs: which chains of fragments of one message make a serdata,
-- and with which CDR. The fragments may overlap.
use cyclonedds_rs.Common.{
  ℕ, ◌≤◌, ◌≡◌, refl, ap, ◌∙◌, inl, inr, ◌≢◌, List, [], ◌∷◌, Option, none, some, length, take,
  concat, leb, if◌then◌else◌, arith, Bool-cases, Option-cases, leb→le, leb→lt,
}
use native.Mathlib.Decide.{ℕ_discrete}
use cyclonedds_rs.Util.{SgReader, IoResult, ok, unexpected_eof, into_vec}
use cyclonedds_rs.Util
use cyclonedds_rs.Util.IntoVec.{AllFull, exact, into_vec-eq-concat}
use cyclonedds_rs.Stats.{
  DiscardedSamples, invalid_fragchain_reason, cdr_assembly_failed_reason, count_discarded_sample,
}
use cyclonedds_rs.Serdata.{Kind, SerData, Ddsi, new}
use cyclonedds_rs.Serdata.Fragchain.{
  Rdata, gather, serdata_from_fragchain, serdata_from_ser_iov, from_sg_list, assemble,
}
use cyclonedds_rs.Serdata.Fragchain.Gathering.{
  AllParts, reach, Covers, Gathered, gather-Gathered, gather-Covers, reach-le, exact-take,
  exact-take_short, Accounted,
}

module _ {T : Type 0} (ddsi : Ddsi) (stats : DiscardedSamples) (sertype : Option ℕ)
    (kind : Kind) where
  -- What is made of slices that were gathered from a message.
  from_sg_list-Gathered :
      (message : List ℕ) (reached : ℕ) (sg_list : List (List ℕ)) (size : ℕ)
      → Gathered message reached sg_list
      → from_sg_list {T = T} ddsi stats (new ddsi sertype kind) (some sg_list) size
        ≡ assemble ddsi stats (new ddsi sertype kind) (some (exact size (take reached message)))
  unfolding from_sg_list
  from_sg_list-Gathered message reached sg_list size g =
      ap (assemble ddsi stats (new ddsi sertype kind))
        (into_vec-eq-concat sg_list size g.0 ∙ ap (λ t. some (exact size t)) g.1)

  fragchain_starts :
      (first : Rdata) (rest : List Rdata) (size : ℕ)
      → first.min ≡ 0
      → serdata_from_fragchain {T = T} ddsi stats sertype kind first rest size
        ≡ from_sg_list ddsi stats (new ddsi sertype kind) (gather 0 [] (first ∷ rest) size) size
  unfolding serdata_from_fragchain
  fragchain_starts first rest size e = ground arith

  fragchain_none :
      (first : Rdata) (rest : List Rdata) (size : ℕ)
      → first.min ≢ 0
      → serdata_from_fragchain {T = T} ddsi stats sertype kind first rest size
        ≡ (none, count_discarded_sample invalid_fragchain_reason stats)
  unfolding serdata_from_fragchain
  fragchain_none first rest size e = ground arith

  -- A chain of fragments of one message, in any overlap, that begins at byte 0, leaves no hole and
  -- reaches `size` without ending behind it, makes a serdata with the first `size` bytes of the
  -- message as its CDR; nothing is counted as discarded.
  pub fragchain_assembles :
      (message : List ℕ) (first : Rdata) (rest : List Rdata) (size : ℕ)
      → AllParts message (first ∷ rest)
      → first.min ≡ 0
      → Covers 0 (first ∷ rest) size
      → size ≤ reach 0 (first ∷ rest)
      → serdata_from_fragchain {T = T} ddsi stats sertype kind first rest size
        ≡ (some (record (new ddsi sertype kind) { cdr = some (take size message) }), stats)
  fragchain_assembles message first rest size p z c r =
      let (sg', e) = gather-Covers (first ∷ rest) 0 [] size c in
      let g = gather-Gathered message (first ∷ rest) 0 [] sg' size p (tt, refl) e in
      fragchain_starts first rest size z
      ∙ ap (λ o. from_sg_list ddsi stats (new ddsi sertype kind) o size) e
      ∙ from_sg_list-Gathered message (reach 0 (first ∷ rest)) sg' size g
      ∙ ap (λ t. assemble ddsi stats (new ddsi sertype kind) (some t))
          (exact-take message (reach 0 (first ∷ rest)) size
            (reach-le message (first ∷ rest) 0 p (omega arith)) r)
      ∙ unfold assemble in refl

  assembled :
      (message : List ℕ) (reached size : ℕ) (serdata : SerData T)
      → reached ≤ length message
      → (assemble ddsi stats (new ddsi sertype kind) (some (exact size (take reached message)))).0
        ≡ some serdata
      → serdata.cdr ≡ some (take size message)
  unfolding assemble
  assembled message reached size serdata h e = elim (Bool-cases (leb size reached)) [
    | inl enough ↦
        let at = exact-take message reached size h (leb→le _ _ enough) in
        let found = rw at at e in ground arith
    | inr short ↦
        let at = exact-take_short message reached size (leb→lt _ _ short) in
        let found = rw at at e in cc
  ]

  -- Whatever the order and the overlap of the fragments of a message, a serdata that is made has
  -- the first `size` bytes of the message as its CDR.
  pub fragchain_sound :
      (message : List ℕ) (first : Rdata) (rest : List Rdata) (size : ℕ) (serdata : SerData T)
      → AllParts message (first ∷ rest)
      → (serdata_from_fragchain {T = T} ddsi stats sertype kind first rest size).0 ≡ some serdata
      → serdata.cdr ≡ some (take size message)
  fragchain_sound message first rest size serdata p e = elim (ℕ_discrete first.min 0) [
    | no behind ↦ let made = rw (fragchain_none first rest size behind) at e in cc
    | yes z ↦
        let started = rw (fragchain_starts first rest size z) at e in
        elim (Option-cases (gather 0 [] (first ∷ rest) size)) [
          | inl refused ↦ let made = rw refused at started in unfold from_sg_list in cc
          | inr (sg', g) ↦
              assembled message (reach 0 (first ∷ rest)) size serdata
                (reach-le message (first ∷ rest) 0 p (omega arith))
                (rw
                  (
                    g,
                    from_sg_list-Gathered message (reach 0 (first ∷ rest)) sg' size
                        (gather-Gathered message (first ∷ rest) 0 [] sg' size p (tt, refl) g),
                  )
                  at started)
        ]
  ]

  assemble-Accounted :
      (serdata : SerData T) (o : Option IoResult) → Accounted stats (assemble ddsi stats serdata o)
  unfolding assemble
  assemble-Accounted serdata none = inl (refl, inr refl)
  assemble-Accounted serdata (some (ok cdr)) = inr (record serdata { cdr = some cdr }, refl, refl)
  assemble-Accounted serdata (some unexpected_eof) = inl (refl, inr refl)

  from_sg_list-Accounted :
      (serdata : SerData T) (o : Option (List (List ℕ))) (size : ℕ)
      → Accounted stats (from_sg_list ddsi stats serdata o size)
  unfolding from_sg_list
  from_sg_list-Accounted serdata none size = inl (refl, inl refl)
  from_sg_list-Accounted serdata (some sg_list) size =
      assemble-Accounted serdata (into_vec (Util.new sg_list) size)

  -- For every chain, whatever its fragments: a null pointer is returned exactly when one sample is
  -- counted as discarded, under one of the two reasons; with a serdata the counters stay as they
  -- were.
  pub fragchain-Accounted :
      (first : Rdata) (rest : List Rdata) (size : ℕ)
      → Accounted {T = T} stats (serdata_from_fragchain ddsi stats sertype kind first rest size)
  fragchain-Accounted first rest size = elim (ℕ_discrete first.min 0) [
    | no behind ↦ rw (fragchain_none first rest size behind) (inl (refl, inl refl))
    | yes z ↦
        rw (fragchain_starts first rest size z)
          (from_sg_list-Accounted (new ddsi sertype kind) (gather 0 [] (first ∷ rest) size) size)
  ]

  -- From buffers none of which is empty, the serdata has the first `size` of their bytes as its
  -- CDR; where they hold fewer bytes the sample is discarded and counted.
  pub ser_iov_lem :
      (iovs : List (List ℕ)) (size : ℕ)
      → AllFull iovs
      → serdata_from_ser_iov {T = T} ddsi stats sertype kind iovs size ≡ (
          if leb size (length (concat iovs))
          then (
            some (record (new ddsi sertype kind) { cdr = some (take size (concat iovs)) }),
            stats,
          )
          else (none, count_discarded_sample cdr_assembly_failed_reason stats))
  unfolding serdata_from_ser_iov
  ser_iov_lem iovs size full =
      rw (into_vec-eq-concat iovs size full) (elim (Bool-cases (leb size (length (concat iovs)))) [
        | inl enough ↦ rw enough refl
        | inr short ↦ rw short refl
      ])
