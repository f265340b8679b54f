-- ===== src/Status/Examples.antt =====
-- Status bits: the one of the matched subscription, next to that of the missed deadline.
use cyclonedds_rs.Common.{ℕ, ◌≡◌, Bool, false, some, ◌||◌, ◌==◌, arith}
use cyclonedds_rs.Status.{default, set, is_set}
use cyclonedds_rs.Status.Bits.{set-is_set}

set-is_set_example :
    (before : Bool) × (after : ℕ) × (is_set 2 1 ≡ some before)
    × (set 2 13 ≡ some after)
    × (is_set after 1 ≡ some (13 == 1 || before))
    × (is_set default 1 ≡ some false)
set-is_set_example = set-is_set 2 13 1 (omega arith) (omega arith)
