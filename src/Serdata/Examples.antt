-- ===== src/Serdata/Examples.antt =====
-- Tests and instances for cyclonedds/src/serdata.rs, with a C library and a codec that meet the
-- hypotheses: a sample is a byte, and is serialised with the four bytes of its encapsulation header.
use cyclonedds_rs.Common.{
  ℕ, ◌+◌, ◌≡◌, refl, ap, List, [], ◌∷◌, Option, none, some, length, take, drop, ◌++◌, leb,
  if◌then◌else◌, arith,
}
use cyclonedds_rs.Stats.{DiscardedSamples}
use cyclonedds_rs.Serdata.{sdk_data, none_key, sdk_data_sample, SerData, Ddsi, Codec, returned, new}
use cyclonedds_rs.Serdata.Fragchain.{Rdata, serdata_from_fragchain, serdata_from_ser_iov}
use cyclonedds_rs.Serdata.Fragchain.Assembly.{
  fragchain_assembles, fragchain_sound, fragchain-Accounted,
}
use cyclonedds_rs.Serdata.Fragchain.Gathering.{Accounted}
use cyclonedds_rs.Serdata.Ser.{serdata_to_ser_ref, addref, ser, to_ser_ops}
use cyclonedds_rs.Serdata.Ser.Windows.{Shows, done, request, padded}
use cyclonedds_rs.Serdata.Ser.Requests.{requests_differ}
use cyclonedds_rs.Serdata.Convert.{owned, serdata_from_sample, get_expected}
use cyclonedds_rs.Serdata.Convert.RoundTrip.{Reads, ser_iov_roundtrip, fragchain_roundtrip}

abbrev pub ddsi : Ddsi
ddsi = record {
  serdata_init = λ t k. record {
    hash = 0;
    refc = 1;
    kind = k;
    type_ = t;
    timestamp = 0;
    statusinfo = 0;
    loan = none;
  };
  serdata_addref = λ d. record d { refc = d.refc + 1 };
  init_kind = λ t k. refl;
  init_type = λ t k. refl;
  init_refc = λ t k. refl;
  addref_refc = λ d. refl;
}

abbrev pub header : ℕ → List ℕ
header v = 0 ∷ 0 ∷ 0 ∷ 0 ∷ v ∷ []

abbrev pub fifth : List ℕ → Option ℕ
fifth (a ∷ b ∷ c ∷ d ∷ v ∷ rest) = some v
fifth _ = none

pub fifth-header : (v : ℕ) (bytes : List ℕ) → some (header v) ≡ some bytes → fifth bytes ≡ some v
fifth-header v bytes e = let same : header v ≡ bytes = cc in rw (← same) refl

pub length-header : (v : ℕ) (bytes : List ℕ) → some (header v) ≡ some bytes → length bytes ≡ 5
length-header v bytes e = let same : header v ≡ bytes = cc in rw (← same) refl

pub bounded-header :
    (v : ℕ) (bytes : List ℕ) (n : ℕ)
    → some (header v) ≡ some bytes
    → (if leb 5 n then some (header v) else none)
      ≡ (if leb (length bytes) n then some bytes else none)
bounded-header v bytes n e = let same : header v ≡ bytes = cc in rw (← same) refl

abbrev pub codec : Codec ℕ
codec = record {
  serialize = λ v. some (header v);
  serialize_bounded = λ v n. if leb 5 n then some (header v) else none;
  deserialize_from = fifth;
  calc_serialized_size = λ v. 5;
  serialize_size = length-header;
  serialize_within = bounded-header;
  deserialize-serialize = fifth-header;
}

abbrev no_discards : DiscardedSamples
no_discards = record { invalid_fragchain = 0; cdr_assembly_failed = 0 }

-- Two overlapping fragments of the serialised sample 9.
abbrev front : Rdata
front = record { min = 0; maxp1 = 3; payload = 0 ∷ 0 ∷ 0 ∷ [] }

abbrev back : Rdata
back = record { min = 2; maxp1 = 5; payload = 0 ∷ 0 ∷ 9 ∷ [] }

abbrev written : SerData ℕ
written = record {
  serdata = record {
    hash = 9;
    refc = 1;
    kind = sdk_data;
    type_ = some 1;
    timestamp = 0;
    statusinfo = 0;
    loan = none;
  };
  sample = sdk_data_sample 9;
  cdr = none;
  key_hash = none_key;
}

fragchain_assembles_example :
    serdata_from_fragchain {T = ℕ} ddsi no_discards (some 1) sdk_data front (back ∷ []) 5
    ≡ (some (record (new ddsi (some 1) sdk_data) { cdr = some (header 9) }), no_discards)
fragchain_assembles_example =
    fragchain_assembles ddsi no_discards (some 1) sdk_data (header 9) front (back ∷ []) 5
      ((omega arith, omega arith, refl), ((omega arith, omega arith, refl), tt)) refl (omega arith)
      (omega arith)

fragchain_sound_example :
    (record (new {T = ℕ} ddsi (some 1) sdk_data) { cdr = some (header 9) }).cdr ≡ some (header 9)
fragchain_sound_example =
    fragchain_sound ddsi no_discards (some 1) sdk_data (header 9) front (back ∷ []) 5
      (record (new ddsi (some 1) sdk_data) { cdr = some (header 9) })
      ((omega arith, omega arith, refl), ((omega arith, omega arith, refl), tt))
      (ap (λ r. r.0) fragchain_assembles_example)

fragchain-Accounted_example :
    Accounted {T = ℕ} no_discards
      (serdata_from_fragchain ddsi no_discards (some 1) sdk_data back (front ∷ []) 5)
fragchain-Accounted_example =
    fragchain-Accounted ddsi no_discards (some 1) sdk_data back (front ∷ []) 5

abbrev held : SerData ℕ
held = record written { cdr = some (header 9) }

-- The four bytes from the second on.
requests_differ_example :
    let ops = to_ser_ops ddsi codec ser in
    (ops.to_ser_ref held 2 4 ≡ returned (some (take 4 (drop 2 (header 9))), addref ddsi held))
    × (ops.to_ser held 2 4 (1 ∷ 1 ∷ 1 ∷ 1 ∷ 1 ∷ 1 ∷ 1 ∷ [])
        ≡ returned ((1 ∷ 1 ∷ 1 ∷ 1 ∷ []) ++ (padded 2 (take 2 (drop 4 (header 9))) ++ (1 ∷ []))))
    × (ops.to_ser held 0 4 (1 ∷ 1 ∷ 1 ∷ 1 ∷ 1 ∷ 1 ∷ 1 ∷ [])
        ≡ returned (1 ∷ 1 ∷ 1 ∷ 1 ∷ 1 ∷ 1 ∷ 1 ∷ []))
requests_differ_example =
    requests_differ ddsi codec ser held 9 (header 9) 2 4 (1 ∷ 1 ∷ 1 ∷ 1 ∷ 1 ∷ 1 ∷ 1 ∷ []) refl refl

abbrev referenced : SerData ℕ
referenced = record written {
  serdata = record {
    hash = 9;
    refc = 2;
    kind = sdk_data;
    type_ = some 1;
    timestamp = 0;
    statusinfo = 0;
    loan = none;
  };
  cdr = some (header 9);
}

two_requests : Shows ddsi codec written 0 (4 ∷ 4 ∷ []) ((0 ∷ 0 ∷ 0 ∷ 0 ∷ []) ∷ (9 ∷ []) ∷ [])
unfolding serdata_to_ser_ref addref
two_requests = request {serdata' = referenced} refl (request refl (done _ _))

written_lem :
    serdata_from_sample ddsi (λ t b. t + b) (some 1) 0 sdk_data (some (owned 9)) ≡ returned written
unfolding serdata_from_sample get_expected new
written_lem = refl

ser_iov_roundtrip_example :
    (received : SerData ℕ) × (serdata_from_ser_iov ddsi no_discards
        (some 2)
        sdk_data
        ((0 ∷ 0 ∷ 0 ∷ 0 ∷ []) ∷ (9 ∷ []) ∷ [])
        5
      ≡ (some received, no_discards))
    × Reads codec received 9
ser_iov_roundtrip_example =
    ser_iov_roundtrip codec ddsi no_discards (λ t b. t + b) (some 1) (some 2) 0 9 (header 9) written
      (4 ∷ 4 ∷ []) ((0 ∷ 0 ∷ 0 ∷ 0 ∷ []) ∷ (9 ∷ []) ∷ []) written_lem refl two_requests
      (omega arith) (omega arith)

fragchain_roundtrip_example :
    (received : SerData ℕ) × (serdata_from_fragchain ddsi no_discards
        (some 2)
        sdk_data
        front
        (back ∷ [])
        5
      ≡ (some received, no_discards))
    × Reads codec received 9
fragchain_roundtrip_example =
    fragchain_roundtrip codec ddsi no_discards (λ t b. t + b) (some 1) (some 2) 0 9 (header 9) front
      (back ∷ []) refl ((omega arith, omega arith, refl), ((omega arith, omega arith, refl), tt))
      refl (omega arith) (omega arith)
