-- ===== src/InterfaceGen/Namespaces/Braces.antt =====
-- Every module that cyclonedds/src/interface_gen.rs opens is closed.
use cyclonedds_rs.Common.{
  ℕ, zero, suc, ◌+◌, ◌≤◌, ◌≡◌, refl, ap, ◌∙◌, List, [], ◌∷◌, ◌++◌, Option, none, some, ◌==◌,
  if◌then◌else◌, length, arith,
}
use cyclonedds_rs.InterfaceGen.{Text}
use cyclonedds_rs.InterfaceGen.Namespaces.{
  NsMode, module_text, open_text, close_text, newline, middle, cons_head, split, drop_empty,
  segments_of, middle_segments, open_segments, idl_module_open, repeat, idl_module_close,
}

-- How often a byte stands in a text.
unfoldable pub count : ℕ → Text → ℕ
count b [] = 0
count b (c ∷ text) = let rest = count b text in if b == c then suc rest else rest

pub count-append : (b : ℕ) (x y : Text) → count b (x ++ y) ≡ count b x + count b y
unfolding count
count-append b [] y = omega arith
count-append b (c ∷ x) y = ground (arith, count-append b x y)

unfoldable pub count_all : ℕ → List Text → ℕ
count_all b [] = 0
count_all b (part ∷ parts) = count b part + count_all b parts

cons_head_lem :
    (b c : ℕ) (parts : List Text)
    → count_all b (cons_head c parts) ≡ count b (c ∷ []) + count_all b parts
unfolding count_all cons_head count
cons_head_lem b c [] = ground arith
cons_head_lem b c (part ∷ parts) = ground arith

pub split_lem : (b : ℕ) (text : Text) → count_all b (split text) ≤ count b text
unfolding count_all split count
split_lem b [] = omega arith
split_lem b (c ∷ []) = ground arith
split_lem b (c ∷ d ∷ rest) =
    ground (arith, split_lem b rest, split_lem b (d ∷ rest), cons_head_lem b c (split (d ∷ rest)))

pub drop_empty_lem :
    (b : ℕ) (parts : List Text) → count_all b (drop_empty parts) ≡ count_all b parts
unfolding count_all drop_empty count
drop_empty_lem b [] = refl
drop_empty_lem b ([] ∷ parts) = ground (arith, drop_empty_lem b parts)
drop_empty_lem b ((c ∷ part) ∷ parts) = ap (λ n. count b (c ∷ part) + n) (drop_empty_lem b parts)

count_open : (x : Text) → count 123 (open_text ++ x) ≡ suc (count 123 x)
unfolding count
count_open x = refl

count_module : (x : Text) → count 123 (module_text ++ x) ≡ count 123 x
unfolding count
count_module x = refl

count_segment : (x : Text) → count 123 (32 ∷ module_text ++ x) ≡ count 123 x
unfolding count
count_segment x = refl

count_close : (x : Text) → count 125 (close_text ++ x) ≡ suc (count 125 x)
unfolding count
count_close x = refl

pub count-newline : (b : ℕ) (x : Text) → (b ≡ 10 → ⊥) → count b (x ++ newline) ≡ count b x
unfolding count
count-newline b x h = ground (arith, count-append b x newline)

pub count_nothing : (b : ℕ) → count b [] ≡ 0
unfolding count
count_nothing b = refl

open_segments_lem :
    (segments : List Text)
    → count 123 (open_segments segments) ≡ length segments + count_all 123 segments
unfolding open_segments count_all
open_segments_lem [] = unfold count in refl
open_segments_lem (segment ∷ segments) =
    let rest = open_segments segments in
    ground (
      arith,
      count_segment (segment ++ open_text ++ rest),
      count-append 123 (segment ++ open_text) rest,
      count-append 123 segment open_text,
      count_open [],
      count_nothing 123,
      open_segments_lem segments,
    )

close_lem : (n : ℕ) → count 125 (repeat close_text n) ≡ n
unfolding repeat
close_lem zero = count_nothing 125
close_lem (suc n) = count_close (repeat close_text n) ∙ ap suc (close_lem n)

abbrev pub IsBraceless : Option Text → Type 0
IsBraceless none = Unit
IsBraceless (some mid) = count 123 mid ≡ 0

segments_of_lem : (mid : Option Text) → IsBraceless mid → count_all 123 (segments_of mid) ≡ 0
unfolding segments_of count_all
segments_of_lem none h = refl
segments_of_lem (some mid) h = ground (arith, drop_empty_lem 123 (split mid), split_lem 123 mid)

-- If neither the name of the package nor the middle namespaces hold a brace, the text that opens the
-- modules of a definition has as many opening braces as the text that closes them has closing
-- braces: one for the package and one for each middle namespace that is not empty.
pub braces_match :
    (mode : NsMode) (pkg : Text)
    → count 123 pkg ≡ 0
    → IsBraceless (middle mode)
    → (count 123 (idl_module_open mode pkg) ≡ 1 + length (middle_segments mode))
      × (count 125 (idl_module_close mode) ≡ 1 + length (middle_segments mode))
unfolding idl_module_open idl_module_close middle_segments
braces_match mode pkg p m =
    let segments = segments_of (middle mode) in
    (
      ground (
        arith,
        count_module (pkg ++ open_text ++ open_segments segments ++ newline),
        count-newline 123 (pkg ++ open_text ++ open_segments segments) (λ h. omega arith),
        count-append 123 (pkg ++ open_text) (open_segments segments),
        count-append 123 pkg open_text,
        count_open [],
        count_nothing 123,
        open_segments_lem segments,
        segments_of_lem (middle mode) m,
      ),
      count-newline 125 (repeat close_text (1 + length segments)) (λ h. omega arith)
          ∙ close_lem (1 + length segments),
    )
