-- ===== src/InterfaceGen/Types/Parsing.antt =====
-- The .msg reference of a type, in cyclonedds/src/interface_gen.rs, read back.
use cyclonedds_rs.Common.{
  codes, Text, ℕ, suc, ◌≡◌, ◌≢◌, refl, sym, ap, ◌∙◌, [], ◌∷◌, ◌++◌, false, Option, none, some, ◌==◌,
  ==_self, arith, Bool-cases, inl, inr, bytes_eq, bytes_eq_iff,
}
use cyclonedds_rs.Derive.Names.Grammar.{IsLowerSnakeCase, IsUpperCamelCase}
use cyclonedds_rs.Derive.Names.Letters.{snake_lacks, camel_lacks}
use cyclonedds_rs.InterfaceGen.Namespaces.Braces.{count, count-append}
use cyclonedds_rs.InterfaceGen.Types.{
  Primitive, boolean, u8, i8, i16, u16, i32, u32, i64, u64, f32, f64, string, primitive_msg,
  ElemType, primitive_elem, struct_elem, RefType, elem, vec_of, array_of, elem_msg, decimal,
  msg_ref_of,
}
use cyclonedds_rs.InterfaceGen.Types.Decimals.{
  value_from, decimal_value, AllDigits, no_digits, one_digit, decimal-AllDigits,
}
use cyclonedds_rs.InterfaceGen.Types.Parser.{
  until, primitive_of, struct_of, elem_or, parse_elem, parse_suffix, with_suffix, parse_msg_ref,
}

no_suc : (n : ℕ) → suc n ≢ 0
no_suc n h = omega arith

until_differs :
    (c d : ℕ) (text : Text) → count c (d ∷ text) ≡ 0 → ((c == d) ≡ false) × (count c text ≡ 0)
unfolding count
until_differs c d text h = elim (Bool-cases (c == d)) [
  | inl e ↦ absurd (no_suc _ (rw (e) at h))
  | inr e ↦ (e, rw (e) at h)
]

until-append : (c : ℕ) (xs ys : Text) → count c xs ≡ 0 → until c (xs ++ (c ∷ ys)) ≡ (xs, c ∷ ys)
unfolding until
until-append c [] ys h = rw (==_self c) refl
until-append c (d ∷ xs) ys h =
    let u = until_differs c d xs h in
    rw (u.0) (ap (λ (r : Text × Text). (d ∷ r.0, r.1)) (until-append c xs ys u.1))

until_all : (c : ℕ) (xs : Text) → count c xs ≡ 0 → until c xs ≡ (xs, [])
unfolding until
until_all c [] h = refl
until_all c (d ∷ xs) h =
    let u = until_differs c d xs h in
    rw (u.0) (ap (λ (r : Text × Text). (d ∷ r.0, r.1)) (until_all c xs u.1))

primitive_roundtrip : (p : Primitive) → primitive_of (primitive_msg p) ≡ some p
unfolding primitive_of primitive_msg bytes_eq
primitive_roundtrip boolean = refl
primitive_roundtrip u8 = refl
primitive_roundtrip i8 = refl
primitive_roundtrip i16 = refl
primitive_roundtrip u16 = refl
primitive_roundtrip i32 = refl
primitive_roundtrip u32 = refl
primitive_roundtrip i64 = refl
primitive_roundtrip u64 = refl
primitive_roundtrip f32 = refl
primitive_roundtrip f64 = refl
primitive_roundtrip string = refl

primitive_lacks : (p : Primitive) → count b'[' (primitive_msg p) ≡ 0
unfolding count primitive_msg
primitive_lacks boolean = refl
primitive_lacks u8 = refl
primitive_lacks i8 = refl
primitive_lacks i16 = refl
primitive_lacks u16 = refl
primitive_lacks i32 = refl
primitive_lacks u32 = refl
primitive_lacks i64 = refl
primitive_lacks u64 = refl
primitive_lacks f32 = refl
primitive_lacks f64 = refl
primitive_lacks string = refl

-- A struct that derives `DdsInterface` has a package and a name that the macro accepts.
abbrev pub IsNamedElem : ElemType → Type 0
IsNamedElem (primitive_elem p) = Unit {0}
IsNamedElem (struct_elem pkg name) = IsLowerSnakeCase pkg × IsUpperCamelCase name

abbrev pub elem_of : RefType → ElemType
elem_of (elem t) = t
elem_of (vec_of t) = t
elem_of (array_of t n) = t

slash_counted : (pkg name : Text) → count b'/' (pkg ++ (codes "/" ++ name)) ≢ 0
unfolding count
slash_counted pkg name h = ground (arith, count-append b'/' pkg (codes "/" ++ name))

not_equal :
    (text name : Text) → count b'/' text ≢ 0 → count b'/' name ≡ 0 → bytes_eq text name ≡ false
not_equal text name h z = elim (Bool-cases (bytes_eq text name)) [
  | inl e ↦ absurd (h (ap (count b'/') ((bytes_eq_iff text name).0 e) ∙ z))
  | inr e ↦ e
]

primitive_of-none : (text : Text) → count b'/' text ≢ 0 → primitive_of text ≡ none
unfolding primitive_of count
primitive_of-none text h =
    rw
      (
        not_equal text (codes "bool") h refl,
        not_equal text (codes "uint8") h refl,
        not_equal text (codes "int8") h refl,
        not_equal text (codes "int16") h refl,
        not_equal text (codes "uint16") h refl,
        not_equal text (codes "int32") h refl,
        not_equal text (codes "uint32") h refl,
        not_equal text (codes "int64") h refl,
        not_equal text (codes "uint64") h refl,
        not_equal text (codes "float32") h refl,
        not_equal text (codes "float64") h refl,
        not_equal text (codes "string") h refl,
      )
      refl

struct_of_lem : (pkg name : Text) → struct_of (pkg, b'/' ∷ name) ≡ some (struct_elem pkg name)
unfolding struct_of
struct_of_lem pkg name = refl

struct_roundtrip :
    (pkg name : Text)
    → IsLowerSnakeCase pkg
    → parse_elem (pkg ++ (codes "/" ++ name)) ≡ some (struct_elem pkg name)
unfolding parse_elem
struct_roundtrip pkg name s =
    ap (λ o. elem_or o (pkg ++ (codes "/" ++ name))) (primitive_of-none _ (slash_counted pkg name))
    ∙ ap struct_of (until-append b'/' pkg name (snake_lacks b'/' pkg refl s))
    ∙ struct_of_lem pkg name

elem_roundtrip : (t : ElemType) → IsNamedElem t → parse_elem (elem_msg t) ≡ some t
unfolding parse_elem elem_msg
elem_roundtrip (primitive_elem p) h = ap (λ o. elem_or o (primitive_msg p)) (primitive_roundtrip p)
elem_roundtrip (struct_elem pkg name) h = struct_roundtrip pkg name h.0

struct_lacks :
    (pkg name : Text)
    → IsLowerSnakeCase pkg
    → IsUpperCamelCase name
    → count b'[' (pkg ++ (codes "/" ++ name)) ≡ 0
unfolding count
struct_lacks pkg name s c = omega (
  arith,
  count-append b'[' pkg (codes "/" ++ name),
  snake_lacks b'[' pkg refl s,
  camel_lacks b'[' name refl c,
)

elem_lacks : (t : ElemType) → IsNamedElem t → count b'[' (elem_msg t) ≡ 0
unfolding elem_msg
elem_lacks (primitive_elem p) h = primitive_lacks p
elem_lacks (struct_elem pkg name) h = struct_lacks pkg name h.0 h.1

digits_lack : (text : Text) → AllDigits text → count b']' text ≡ 0
unfolding count
digits_lack [] no_digits = refl
digits_lack (c ∷ text) (one_digit _ _ l h a) = ground (arith, digits_lack text a)

-- A reference whose part before the bracket is that of an element.
suffix_roundtrip :
    (t : ElemType) (text suffix : Text)
    → IsNamedElem t
    → until b'[' text ≡ (elem_msg t, suffix)
    → parse_msg_ref text ≡ some (parse_suffix t suffix)
unfolding parse_msg_ref
suffix_roundtrip t text suffix h u =
    ap (λ (r : Text × Text). with_suffix (parse_elem r.0) r.1) u
    ∙ ap (λ o. with_suffix o suffix) (elem_roundtrip t h)

vec_lem :
    (t : ElemType) → ◌≡◌ {A = Option RefType} (some (parse_suffix t (codes "[]"))) (some (vec_of t))
unfolding parse_suffix bytes_eq
vec_lem t = refl

bracket_differs :
    (text : Text)
    → AllDigits text
    → value_from 0 text ≢ 0
    → bytes_eq (text ++ codes "]") (codes "]") ≡ false
unfolding bytes_eq value_from
bracket_differs [] no_digits v = absurd (v refl)
bracket_differs (c ∷ text) (one_digit _ _ l h a) v = ground arith

array_lem :
    (t : ElemType) (text : Text) (n : ℕ)
    → AllDigits text
    → value_from 0 text ≡ suc n
    → parse_suffix t (codes "[" ++ (text ++ codes "]")) ≡ array_of t n
unfolding parse_suffix
array_lem t text n a v =
    rw
      (
        bracket_differs text a (λ z. no_suc n (sym v ∙ z)),
        until-append b']' text [] (digits_lack text a),
        v,
      )
      (ap (array_of t) (omega arith))

length_lem :
    (t : ElemType) (n : ℕ)
    → parse_suffix t (codes "[" ++ (decimal (suc n) ++ codes "]")) ≡ array_of t n
length_lem t n =
    let d = decimal-AllDigits (suc n) in
    let v = decimal_value (suc n) in array_lem t (decimal (suc n)) n d v

-- A type of a field is determined by its .msg reference, if its struct, where it has one, has a
-- package and a name that the macro accepts: a parser that knows only the form of references, those
-- of primitives, `pkg/Name`, `T[]` and `T[N]` with a decimal number, reads the type back.
pub msg_ref_roundtrip :
    (t : RefType) → IsNamedElem (elem_of t) → parse_msg_ref (msg_ref_of t) ≡ some t
unfolding msg_ref_of
msg_ref_roundtrip (elem t) h =
    suffix_roundtrip t (elem_msg t) [] h (until_all b'[' (elem_msg t) (elem_lacks t h))
    ∙ unfold parse_suffix in refl
msg_ref_roundtrip (vec_of t) h =
    suffix_roundtrip t (elem_msg t ++ codes "[]") (codes "[]") h
      (until-append b'[' (elem_msg t) (codes "]") (elem_lacks t h))
    ∙ vec_lem t
msg_ref_roundtrip (array_of t n) h =
    suffix_roundtrip t (elem_msg t ++ (codes "[" ++ (decimal (suc n) ++ codes "]")))
      (codes "[" ++ (decimal (suc n) ++ codes "]")) h
      (until-append b'[' (elem_msg t) (decimal (suc n) ++ codes "]") (elem_lacks t h))
    ∙ ap some (length_lem t n)
