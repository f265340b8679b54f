-- ===== src/Sertype/Examples.antt =====
-- A sample that goes through the shared memory, at the codec of the examples of the serdata.
use cyclonedds_rs.Common.{ℕ, ◌≡◌, refl, List, some, true, replicate, arith}
use cyclonedds_rs.Serdata.{SerData, returned}
use cyclonedds_rs.Serdata.Examples.{ddsi, codec, header}
use cyclonedds_rs.Serdata.Convert.{owned, serdata_from_psmx}
use cyclonedds_rs.Serdata.Convert.RoundTrip.{Reads}
use cyclonedds_rs.Sertype.{sertype_get_serialized_size, sertype_serialize_into}
use cyclonedds_rs.Sertype.Psmx.{described, psmx_roundtrip}

abbrev unchanged : ℕ → List ℕ → List ℕ
unchanged sample dst = dst

psmx_roundtrip_example :
    (size : ℕ × ℕ) × (buffer : List ℕ) × (received : SerData ℕ) × (sertype_get_serialized_size codec
        unchanged
        (some (owned 9))
      ≡ returned size)
    × (size.0 ≡ 5)
    × (sertype_serialize_into codec unchanged (some (owned 9)) (replicate 8 255)
        ≡ returned (true, buffer))
    × (serdata_from_psmx ddsi
          (some 3)
          (some (record { metadata = some (described size 7 0); sample_ptr = some buffer }))
        ≡ some received)
    × Reads codec received 9
psmx_roundtrip_example =
    psmx_roundtrip codec unchanged ddsi 9 (header 9) (replicate 8 255) 3 7 0 refl (omega arith)
