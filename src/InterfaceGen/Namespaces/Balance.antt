-- ===== src/InterfaceGen/Namespaces/Balance.antt =====
-- The text that opens the modules closes nothing, and the text that closes them opens nothing.
use cyclonedds_rs.Common.{
  ℕ, zero, suc, ◌+◌, ◌≡◌, refl, List, [], ◌∷◌, ◌++◌, Option, none, some, arith, length,
}
use cyclonedds_rs.InterfaceGen.{Text}
use cyclonedds_rs.InterfaceGen.Namespaces.{
  NsMode, module_text, open_text, close_text, newline, middle, split, segments_of, middle_segments,
  open_segments, idl_module_open, repeat, idl_module_close,
}
use cyclonedds_rs.InterfaceGen.Namespaces.Braces.{
  count, count-append, count-newline, count_all, count_nothing, split_lem, drop_empty_lem,
  IsBraceless, braces_match,
}

-- No closing brace in the middle namespaces.
abbrev pub IsUnclosed : Option Text → Type 0
IsUnclosed none = Unit
IsUnclosed (some mid) = count 125 mid ≡ 0

segments_of-none : (mid : Option Text) → IsUnclosed mid → count_all 125 (segments_of mid) ≡ 0
unfolding segments_of count_all
segments_of-none none h = refl
segments_of-none (some mid) h = ground (arith, drop_empty_lem 125 (split mid), split_lem 125 mid)

count-module_text : (x : Text) → count 125 (32 ∷ module_text ++ x) ≡ count 125 x
unfolding count
count-module_text x = refl

count_module : (x : Text) → count 125 (module_text ++ x) ≡ count 125 x
unfolding count
count_module x = refl

count_open : (x : Text) → count 125 (open_text ++ x) ≡ count 125 x
unfolding count
count_open x = refl

open_segments-count :
    (segments : List Text) → count 125 (open_segments segments) ≡ count_all 125 segments
unfolding open_segments count_all
open_segments-count [] = count_nothing 125
open_segments-count (segment ∷ segments) =
    let rest = open_segments segments in
    ground (
      arith,
      count-module_text (segment ++ open_text ++ rest),
      count-append 125 (segment ++ open_text) rest,
      count-append 125 segment open_text,
      count_open [],
      count_nothing 125,
      open_segments-count segments,
    )

module_open_none :
    (mode : NsMode) (pkg : Text)
    → count 125 pkg ≡ 0
    → IsUnclosed (middle mode)
    → count 125 (idl_module_open mode pkg) ≡ 0
unfolding idl_module_open middle_segments
module_open_none mode pkg p m =
    let segments = segments_of (middle mode) in
    ground (
      arith,
      count_module (pkg ++ open_text ++ open_segments segments ++ newline),
      count-newline 125 (pkg ++ open_text ++ open_segments segments) (λ h. omega arith),
      count-append 125 (pkg ++ open_text) (open_segments segments),
      count-append 125 pkg open_text,
      count_open [],
      count_nothing 125,
      open_segments-count segments,
      segments_of-none (middle mode) m,
    )

count_close : (x : Text) → count 123 (close_text ++ x) ≡ count 123 x
unfolding count
count_close x = refl

repeat_close : (n : ℕ) → count 123 (repeat close_text n) ≡ 0
unfolding repeat
repeat_close zero = count_nothing 123
repeat_close (suc n) = omega (arith, count_close (repeat close_text n), repeat_close n)

module_close_none : (mode : NsMode) → count 123 (idl_module_close mode) ≡ 0
unfolding idl_module_close
module_close_none mode =
    let n = 1 + length (middle_segments mode) in
    omega (arith, count-newline 123 (repeat close_text n) (λ h. omega arith), repeat_close n)

-- The braces around a text between the opening and the closing of the modules.
pub modules_balance :
    (mode : NsMode) (pkg body : Text)
    → count 123 pkg ≡ 0
    → count 125 pkg ≡ 0
    → IsBraceless (middle mode)
    → IsUnclosed (middle mode)
    → count 123 body ≡ count 125 body
    → count 123 (idl_module_open mode pkg ++ (body ++ idl_module_close mode))
      ≡ count 125 (idl_module_open mode pkg ++ (body ++ idl_module_close mode))
modules_balance mode pkg body o c m n b =
    let match = braces_match mode pkg o m in
    omega (
      arith,
      match.0,
      match.1,
      module_open_none mode pkg c n,
      module_close_none mode,
      count-append 123 (idl_module_open mode pkg) (body ++ idl_module_close mode),
      count-append 125 (idl_module_open mode pkg) (body ++ idl_module_close mode),
      count-append 123 body (idl_module_close mode),
      count-append 125 body (idl_module_close mode),
    )
