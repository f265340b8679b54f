-- ===== src/Derive/Interface/Resolved.antt =====
-- The definitions that dds_derive/src/lib.rs generates, with the types of fields written as
-- cyclonedds/src/interface_gen.rs does.
use cyclonedds_rs.Common.{
  codes, Text, ℕ, suc, [], ◌∷◌, ◌++◌, ◌≡◌, refl, Option, none, some, accepted, arith,
}
use cyclonedds_rs.Derive.Names.{escape_idl_identifier}
use cyclonedds_rs.Derive.Syntax.{SynType, ItemStruct}
use cyclonedds_rs.Derive.Interface.{InterfaceCode, idl_def, derive_dds_interface_impl}
use cyclonedds_rs.Derive.Interface.Braces.{
  HasNoBrace, Balances, Balances-append, no_brace-Balances, escape_no_brace, snake_no_brace,
  camel_no_brace, idl_def_lem,
}
use cyclonedds_rs.InterfaceGen.Namespaces.{
  NsMode, middle, type_suffix, colons, idl_type_name, ref_of, idl_type_ref,
}
use cyclonedds_rs.InterfaceGen.Namespaces.Braces.{count, IsBraceless}
use cyclonedds_rs.InterfaceGen.Namespaces.Balance.{IsUnclosed}
use cyclonedds_rs.InterfaceGen.Types.{
  Primitive, boolean, u8, i8, i16, u16, i32, u32, i64, u64, f32, f64, string, primitive_idl,
  ElemType, primitive_elem, struct_elem, RefType, elem, vec_of, array_of, elem_idl, decimal,
  idl_ref_of, idl_field_of,
}
use cyclonedds_rs.InterfaceGen.Types.Decimals.{AllDigits, no_digits, one_digit, decimal-AllDigits}
use cyclonedds_rs.InterfaceGen.Types.Parsing.{IsNamedElem, elem_of}

primitive-Balances : (p : Primitive) → Balances (primitive_idl p)
unfolding count primitive_idl
primitive-Balances boolean = refl
primitive-Balances u8 = refl
primitive-Balances i8 = refl
primitive-Balances i16 = refl
primitive-Balances u16 = refl
primitive-Balances i32 = refl
primitive-Balances u32 = refl
primitive-Balances i64 = refl
primitive-Balances u64 = refl
primitive-Balances f32 = refl
primitive-Balances f64 = refl
primitive-Balances string = refl

digits-Balances : (text : Text) → AllDigits text → Balances text
unfolding count
digits-Balances [] no_digits = refl
digits-Balances (c ∷ text) (one_digit _ _ l h a) = ground (arith, digits-Balances text a)

module _ (mode : NsMode) (o : IsBraceless (middle mode)) (c : IsUnclosed (middle mode))
    (s : HasNoBrace (type_suffix mode)) where
  ref_of-Balances :
      (mid : Option Text) (pkg name : Text)
      → IsBraceless mid
      → IsUnclosed mid
      → Balances pkg
      → Balances name
      → Balances (ref_of mid pkg name)
  unfolding ref_of count
  ref_of-Balances none pkg name b u p n =
      Balances-append (pkg ++ colons) name (Balances-append pkg colons p refl) n
  ref_of-Balances (some mid) pkg name b u p n =
      Balances-append (((pkg ++ colons) ++ mid) ++ colons) name
        (Balances-append ((pkg ++ colons) ++ mid) colons
          (Balances-append (pkg ++ colons) mid (Balances-append pkg colons p refl)
            (omega (arith, b, u)))
          refl)
        n

  elem_idl-Balances : (t : ElemType) → IsNamedElem t → Balances (elem_idl mode t)
  unfolding elem_idl idl_type_ref idl_type_name
  elem_idl-Balances (primitive_elem p) h = primitive-Balances p
  elem_idl-Balances (struct_elem pkg name) h =
      ref_of-Balances (middle mode) (escape_idl_identifier pkg) (name ++ type_suffix mode) o c
        (no_brace-Balances (escape_idl_identifier pkg)
          (escape_no_brace pkg (snake_no_brace pkg h.0)))
        (Balances-append name (type_suffix mode) (no_brace-Balances name (camel_no_brace name h.1))
          (no_brace-Balances (type_suffix mode) s))

  sequence-Balances : (t : ElemType) → IsNamedElem t → Balances (idl_ref_of mode (vec_of t))
  unfolding idl_ref_of count
  sequence-Balances t h =
      Balances-append (codes "sequence<") (elem_idl mode t ++ codes ">") refl
        (Balances-append (elem_idl mode t) (codes ">") (elem_idl-Balances t h) refl)

  named-Balances :
      (ty name end : Text)
      → Balances ty
      → HasNoBrace name
      → Balances end
      → Balances (ty ++ (codes " " ++ (name ++ end)))
  unfolding count
  named-Balances ty name end t n e = Balances-append ty (codes " " ++ (name ++ end)) t (
      Balances-append (codes " ") (name ++ end) refl
        (Balances-append name end (no_brace-Balances name n) e))

  length-Balances : (n : ℕ) → Balances (codes "[" ++ (decimal (suc n) ++ codes "];"))
  unfolding count
  length-Balances n = Balances-append (codes "[") (decimal (suc n) ++ codes "];") refl (
      Balances-append (decimal (suc n)) (codes "];")
        (digits-Balances (decimal (suc n)) (decimal-AllDigits (suc n))) refl)

  idl_field_of-Balances :
      (t : RefType) (name : Text)
      → IsNamedElem (elem_of t)
      → HasNoBrace name
      → Balances (idl_field_of mode t name)
  unfolding idl_field_of count
  idl_field_of-Balances (elem t) name h n =
      named-Balances (elem_idl mode t) name (codes ";") (elem_idl-Balances t h) n refl
  idl_field_of-Balances (vec_of t) name h n =
      named-Balances (idl_ref_of mode (vec_of t)) name (codes ";") (sequence-Balances t h) n refl
  idl_field_of-Balances (array_of t k) name h n =
      named-Balances (elem_idl mode t) name (codes "[" ++ (decimal (suc k) ++ codes "];"))
        (elem_idl-Balances t h) n (length-Balances k)

-- Whatever the fields of a struct: if code is generated for it, the structs that its fields name
-- have packages and names that the macro accepts, and the middle namespaces and the suffix of the
-- mode hold no brace, then the IDL definition, with its modules, its struct and its fields, has as
-- many opening braces as closing ones.
pub idl_def-Balances :
    (item : ItemStruct) (code : InterfaceCode) (resolve : SynType → RefType) (mode : NsMode)
    → derive_dds_interface_impl item ≡ accepted code
    → ((ty : SynType) → IsNamedElem (elem_of (resolve ty)))
    → IsBraceless (middle mode)
    → IsUnclosed (middle mode)
    → HasNoBrace (type_suffix mode)
    → count 123 (idl_def (λ m ty name. idl_field_of m (resolve ty) name) code mode)
      ≡ count 125 (idl_def (λ m ty name. idl_field_of m (resolve ty) name) code mode)
idl_def-Balances item code resolve mode d r o c s =
    idl_def_lem item code (λ m ty name. idl_field_of m (resolve ty) name) mode d
      (λ ty name n. idl_field_of-Balances mode o c s (resolve ty) name (r ty) n) o c s
