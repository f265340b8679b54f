-- ===== src/Util/Examples.antt =====
-- Tests and instances for cyclonedds/src/util.rs.
use cyclonedds_rs.Common.{ℕ, ◌≡◌, refl, List, [], ◌∷◌, some}
use cyclonedds_rs.Util.{ok, new, read, into_vec}
use cyclonedds_rs.Util.IntoVec.{into_vec-eq-exact, exact}
use cyclonedds_rs.Util.Reading.{reachable}

abbrev slices : List (List ℕ)
slices = (1 ∷ 2 ∷ 3 ∷ 4 ∷ 5 ∷ 6 ∷ []) ∷ (7 ∷ 8 ∷ []) ∷ []

-- The unit test `scatter_gather`: the second read ends at the end of its buffer.
scatter_gather : (read (read (new slices) 5).1 5).0 ≡ 6 ∷ []
unfolding read new
scatter_gather = refl

across : into_vec (new slices) 7 ≡ some (ok (1 ∷ 2 ∷ 3 ∷ 4 ∷ 5 ∷ 6 ∷ 7 ∷ []))
unfolding into_vec read new
across = refl

into_vec-eq-exact_example :
    into_vec (new ([] ∷ slices)) 2 ≡ some (exact 2 (reachable ([] ∷ slices)))
into_vec-eq-exact_example = into_vec-eq-exact ([] ∷ slices) 2
