-- ===== src/InterfaceGen/Namespaces.antt =====
-- cyclonedds/src/interface_gen.rs: `NsMode`, the namespaces around a definition.
pub mod Braces
pub mod Balance
use cyclonedds_rs.Common.{
  codes, ℕ, zero, suc, ◌+◌, Bool, true, false, List, [], ◌∷◌, ◌++◌, ◌&&◌, Option, none, some, ◌==◌,
  if◌then◌else◌, length, concat,
}
use cyclonedds_rs.InterfaceGen.{Text}

pub data NsMode : Type 0 where
  raw : NsMode
  with_middle : Text → NsMode
  with_middle_suffix : Text → Text → NsMode

abbrev pub colons : Text
colons = codes "::"

abbrev pub newline : Text
newline = 10 ∷ []

abbrev pub module_text : Text
module_text = codes "module "

abbrev pub open_text : Text
open_text = codes " {"

abbrev pub close_text : Text
close_text = codes "};"

abbrev pub msg_text : Text
msg_text = codes "msg"

abbrev pub dds_text : Text
dds_text = codes "dds_"

abbrev pub ros2idl : NsMode
ros2idl = with_middle msg_text

abbrev pub ros2dds : NsMode
ros2dds = with_middle_suffix (msg_text ++ colons ++ dds_text) (95 ∷ [])

unfoldable pub middle : NsMode → Option Text
middle raw = none
middle (with_middle mid) = some mid
middle (with_middle_suffix mid suffix) = some mid

unfoldable pub cons_head : ℕ → List Text → List Text
cons_head c [] = (c ∷ []) ∷ []
cons_head c (part ∷ parts) = (c ∷ part) ∷ parts

-- `split("::")`.
unfoldable pub split : Text → List Text
unfolding cons_head
split [] = [] ∷ []
split (c ∷ []) = (c ∷ []) ∷ []
split (c ∷ d ∷ rest) = elim ((c == 58) && (d == 58)) [
  | true ↦ [] ∷ split rest
  | false ↦ cons_head c (split (d ∷ rest))
]

unfoldable pub drop_empty : List Text → List Text
drop_empty [] = []
drop_empty ([] ∷ parts) = drop_empty parts
drop_empty ((c ∷ part) ∷ parts) = (c ∷ part) ∷ drop_empty parts

unfoldable pub segments_of : Option Text → List Text
segments_of none = []
segments_of (some mid) = drop_empty (split mid)

unfoldable pub middle_segments : NsMode → List Text
middle_segments mode = segments_of (middle mode)

unfoldable pub type_suffix : NsMode → Text
type_suffix raw = []
type_suffix (with_middle mid) = []
type_suffix (with_middle_suffix mid suffix) = suffix

unfoldable pub idl_type_name : NsMode → Text → Text
idl_type_name mode name = name ++ type_suffix mode

unfoldable pub ref_of : Option Text → Text → Text → Text
ref_of none pkg type_name = pkg ++ colons ++ type_name
ref_of (some mid) pkg type_name = pkg ++ colons ++ mid ++ colons ++ type_name

unfoldable pub idl_type_ref : NsMode → Text → Text → Text
unfolding ref_of
idl_type_ref mode pkg name = ref_of (middle mode) pkg (idl_type_name mode name)

unfoldable pub open_segments : List Text → Text
open_segments [] = []
open_segments (segment ∷ segments) =
    32 ∷ module_text ++ segment ++ open_text ++ open_segments segments

unfoldable pub idl_module_open : NsMode → Text → Text
idl_module_open mode pkg =
    module_text ++ pkg ++ open_text ++ open_segments (middle_segments mode) ++ newline

unfoldable pub repeat : Text → ℕ → Text
repeat text zero = []
repeat text (suc n) = text ++ repeat text n

unfoldable pub idl_module_close : NsMode → Text
idl_module_close mode = repeat close_text (1 + length (middle_segments mode)) ++ newline
