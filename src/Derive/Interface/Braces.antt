-- ===== src/Derive/Interface/Braces.antt =====
-- The definitions that `derive_dds_interface_impl` of dds_derive/src/lib.rs generates have balanced
-- braces.
use cyclonedds_rs.Common.{
  Text, List, [], ◌∷◌, ◌++◌, Bool, true, false, ◌≡◌, refl, inl, inr, accepted, arith, codes,
  Bool-cases,
}
use cyclonedds_rs.Derive.Keywords.{is_reserved_keyword}
use cyclonedds_rs.Derive.Names.{escape_idl_identifier}
use cyclonedds_rs.Derive.Names.Grammar.{IsLowerSnakeCase, IsUpperCamelCase}
use cyclonedds_rs.Derive.Names.Letters.{snake_lacks, camel_lacks}
use cyclonedds_rs.Derive.Syntax.{SynType, ItemStruct}
use cyclonedds_rs.Derive.Interface.{
  FieldCode, InterfaceCode, key_prefix, line_end, idl_fields, idl_body, idl_def,
  derive_dds_interface_impl,
}
use cyclonedds_rs.Derive.Interface.Laws.{wire_code}
use cyclonedds_rs.Derive.Interface.WireFields.{AllFields}
use cyclonedds_rs.InterfaceGen.Namespaces.{NsMode, middle, type_suffix, idl_type_name}
use cyclonedds_rs.InterfaceGen.Namespaces.Braces.{count, count-append, IsBraceless}
use cyclonedds_rs.InterfaceGen.Namespaces.Balance.{IsUnclosed, modules_balance}

-- A text without braces.
pub record HasNoBrace (text : Text) : Type 0 where
  pub opening : count 123 text ≡ 0
  pub closing : count 125 text ≡ 0

no_brace_underscore : (text : Text) → HasNoBrace text → HasNoBrace (b'_' ∷ text)
unfolding count
no_brace_underscore text h = record { opening = h.opening; closing = h.closing }

pub snake_no_brace : (text : Text) → IsLowerSnakeCase text → HasNoBrace text
snake_no_brace text s = record {
  opening = snake_lacks 123 text refl s;
  closing = snake_lacks 125 text refl s;
}

pub camel_no_brace : (text : Text) → IsUpperCamelCase text → HasNoBrace text
camel_no_brace text s = record {
  opening = camel_lacks 123 text refl s;
  closing = camel_lacks 125 text refl s;
}

pub escape_no_brace : (name : Text) → HasNoBrace name → HasNoBrace (escape_idl_identifier name)
unfolding escape_idl_identifier
escape_no_brace name h = elim (Bool-cases (is_reserved_keyword name)) [
  | inl r ↦ rw (r) (no_brace_underscore name h)
  | inr f ↦ rw (f) h
]

-- As many opening braces as closing ones.
abbrev pub Balances : Text → Type 0
Balances text = count 123 text ≡ count 125 text

pub Balances-append : (x y : Text) → Balances x → Balances y → Balances (x ++ y)
Balances-append x y p q = omega (arith, count-append 123 x y, count-append 125 x y)

pub no_brace-Balances : (text : Text) → HasNoBrace text → Balances text
no_brace-Balances text h = omega (arith, h.opening, h.closing)

key_prefix_lem : (key : Bool) → Balances (key_prefix key)
unfolding count
key_prefix_lem true = refl
key_prefix_lem false = refl

idl_fields_lem :
    (idl_field : SynType → Text → Text)
    → ((ty : SynType) (name : Text) → HasNoBrace name → Balances (idl_field ty name))
    → (fields : List FieldCode) → AllFields fields
    → Balances (idl_fields idl_field fields)
unfolding idl_fields count
idl_fields_lem idl_field h [] a = refl
idl_fields_lem idl_field h (field ∷ fields) a =
    let rest = idl_fields idl_field fields in
    let own = idl_field field.ty field.name in
    Balances-append (codes "  ") (key_prefix field.key ++ (own ++ (line_end ++ rest))) refl (
      Balances-append (key_prefix field.key) (own ++ (line_end ++ rest)) (key_prefix_lem field.key)
        (Balances-append own (line_end ++ rest)
          (h field.ty field.name (snake_no_brace field.name a.0.snake_case))
          (Balances-append line_end rest refl (idl_fields_lem idl_field h fields a.1))))

type_name_lem :
    (mode : NsMode) (name : Text)
    → IsUpperCamelCase name
    → HasNoBrace (type_suffix mode)
    → Balances (idl_type_name mode name)
unfolding idl_type_name
type_name_lem mode name n s =
    Balances-append name (type_suffix mode) (no_brace-Balances name (camel_no_brace name n))
      (no_brace-Balances (type_suffix mode) s)

-- The braces of the struct around its fields.
struct_braces :
    (name fields : Text)
    → Balances name
    → Balances fields
    → Balances (
        codes "struct "
        ++ (name ++ (codes " {" ++ (line_end ++ (fields ++ (codes "};" ++ line_end))))))
unfolding count
struct_braces name fields n f = omega (
  arith,
  n,
  f,
  count-append 123 name (codes " {" ++ (line_end ++ (fields ++ (codes "};" ++ line_end)))),
  count-append 125 name (codes " {" ++ (line_end ++ (fields ++ (codes "};" ++ line_end)))),
  count-append 123 fields (codes "};" ++ line_end),
  count-append 125 fields (codes "};" ++ line_end),
)

body_lem :
    (idl_field : SynType → Text → Text) (code : InterfaceCode) (mode : NsMode)
    → ((ty : SynType) (name : Text) → HasNoBrace name → Balances (idl_field ty name))
    → AllFields code.fields
    → IsUpperCamelCase code.struct_name
    → HasNoBrace (type_suffix mode)
    → Balances (idl_body idl_field code mode)
unfolding idl_body
body_lem idl_field code mode h a n s =
    struct_braces (idl_type_name mode code.struct_name) (idl_fields idl_field code.fields)
      (type_name_lem mode code.struct_name n s) (idl_fields_lem idl_field h code.fields a)

-- If code is generated for a struct, the types of the fields give texts with balanced
-- braces to names without any, and
-- the middle namespaces and the suffix of the mode hold no brace, then the IDL definition has as
-- many opening braces as closing ones: the checks keep braces out of all names.
pub idl_def_lem :
    (item : ItemStruct) (code : InterfaceCode) (idl_field : NsMode → SynType → Text → Text)
    (mode : NsMode)
    → derive_dds_interface_impl item ≡ accepted code
    → ((ty : SynType) (name : Text)
        → HasNoBrace name
        → count 123 (idl_field mode ty name) ≡ count 125 (idl_field mode ty name))
    → IsBraceless (middle mode)
    → IsUnclosed (middle mode)
    → HasNoBrace (type_suffix mode)
    → count 123 (idl_def idl_field code mode) ≡ count 125 (idl_def idl_field code mode)
unfolding idl_def
idl_def_lem item code idl_field mode d h o c s =
    let w = wire_code item code d in
    let p : HasNoBrace code.escaped_package =
      rw (w.escaped_lem) (escape_no_brace code.pkg (snake_no_brace code.pkg w.package_lem)) in
    modules_balance mode code.escaped_package (idl_body (idl_field mode) code mode) p.opening
      p.closing o c (body_lem (idl_field mode) code mode h w.fields_lem w.struct_lem s)
