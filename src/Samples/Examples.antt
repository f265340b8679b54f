-- ===== src/Samples/Examples.antt =====
-- Concrete samples for the theorems on cyclonedds/src/serdes.rs and cyclonedds/src/sertype.rs: the
-- reference counts are the list of the references held.
use cyclonedds_rs.Common.{ℕ, refl, List, [], ◌∷◌, none, some}
use cyclonedds_rs.Samples
use Samples.{Refs, Sample}

abbrev tail : List ℕ → List ℕ
tail [] = []
tail (p ∷ ps) = ps

abbrev refs : Refs (List ℕ)
refs = record {
  addref = λ p held. p ∷ held;
  removeref = λ p held. tail held;
  free = λ p held. held;
  removeref-addref = λ p held. refl;
}

abbrev bound : Sample ℕ
bound = record { serdata = some 5; sample = none }

abbrev second : Sample ℕ
second = record { serdata = some 6; sample = none }
