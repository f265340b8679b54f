-- ===== src/InterfaceGen/Types/Examples.antt =====
-- An array of 16 points, written and read back.
use cyclonedds_rs.Common.{codes, ◌≡◌, refl, some}
use cyclonedds_rs.Derive.Names.{
  valid, check_letters, ends_with_underscore, validate_lower_snake_case, check_alphanumeric,
  validate_ros_type_name,
}
use cyclonedds_rs.Derive.Names.Grammar.{validate_lower_snake_case_iff, validate_ros_type_name_iff}
use cyclonedds_rs.InterfaceGen.Types.{RefType, array_of, struct_elem, msg_ref_of}
use cyclonedds_rs.InterfaceGen.Types.Parser.{parse_msg_ref}
use cyclonedds_rs.InterfaceGen.Types.Parsing.{msg_ref_roundtrip}

abbrev points : RefType
points = array_of (struct_elem (codes "geometry_msgs") (codes "Point")) 15

package_valid : validate_lower_snake_case (codes "geometry_msgs") ≡ valid
unfolding validate_lower_snake_case check_letters ends_with_underscore
package_valid = refl

point_valid : validate_ros_type_name (codes "Point") ≡ valid
unfolding validate_ros_type_name check_alphanumeric
point_valid = refl

msg_ref_roundtrip_example : parse_msg_ref (msg_ref_of points) ≡ some points
msg_ref_roundtrip_example = msg_ref_roundtrip points (
  (validate_lower_snake_case_iff (codes "geometry_msgs")).0 package_valid,
  (validate_ros_type_name_iff (codes "Point")).0 point_valid,
)
