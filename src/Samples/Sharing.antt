-- ===== src/Samples/Sharing.antt =====
-- What the arrays of samples of cyclonedds/src/sertype.rs keep when they are reallocated.
use cyclonedds_rs.Common.{List}
use cyclonedds_rs.Samples
