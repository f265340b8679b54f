-- ===== src/Builtin/Examples.antt =====
-- A buffer of cyclonedds/src/dds_builtin.rs that two readers fill.
use cyclonedds_rs.Common.{◌≡◌, List, [], ◌∷◌}
use cyclonedds_rs.Error.{non_negative, negative}
use cyclonedds_rs.Builtin.{Lent, new, drop_samples}
use cyclonedds_rs.Builtin.Loans.{Use, read_from, cleared, use_all, loans_returned}

-- Reader 9 has lent two samples to another buffer.
abbrev elsewhere : Lent
elsewhere = (9, 2) ∷ []

abbrev uses : List Use
uses =
    read_from (non_negative 3) 1
    ∷ read_from (non_negative 2) 9
    ∷ read_from (negative 3) 1
    ∷ cleared
    ∷ read_from (non_negative 1) 1
    ∷ []

loans_returned_example :
    drop_samples (use_all uses (new 8, elsewhere)).0 (use_all uses (new 8, elsewhere)).1 ≡ elsewhere
loans_returned_example = loans_returned elsewhere 8 uses
