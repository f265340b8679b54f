-- ===== src/Derive/Attributes/Given.antt =====
-- What stands in the attributes that `parse_cdds_attrs` of dds_derive/src/lib.rs reads.
use mathlib.Core.List.{append-nil, append_assoc}
use cyclonedds_rs.Common.{
  Text, ℕ, List, [], ◌∷◌, ◌++◌, Bool, true, false, ◌≡◌, refl, sym, ap, ◌∙◌, Option, none, some,
  if◌then◌else◌, Bool-cases, inl, inr, arith, codes, length, length-append, ◌+◌, suc,
}
use cyclonedds_rs.Derive.Syntax.{
  SynExpr, lit_str, Meta, path_meta, list_meta, name_value, ArgInput, AttributeMeta, meta_list,
  other_meta, Attribute,
}
use cyclonedds_rs.Derive.Attributes.{is_ident, CddsAttrs, fixed_size_key, package_key, name_key}

-- The arguments of the attributes `cdds`, in order, as far as they can be parsed.
unfoldable pub metas_of_inputs : List ArgInput → List Meta
metas_of_inputs [] = []
metas_of_inputs (input ∷ inputs) = elim input.parsed [
  | none ↦ metas_of_inputs inputs
  | some meta ↦ meta ∷ metas_of_inputs inputs
]

unfoldable pub metas_of_meta : AttributeMeta → List Meta
metas_of_meta (meta_list inputs) = metas_of_inputs inputs
metas_of_meta other_meta = []

unfoldable pub cdds_metas : List Attribute → List Meta
cdds_metas [] = []
cdds_metas (attribute ∷ attributes) =
    (if is_ident attribute.path (codes "cdds") then metas_of_meta attribute.meta else [])
    ++ cdds_metas attributes

-- The values that stand under a key.
unfoldable pub values : Text → List Meta → List SynExpr
values key [] = []
values key (path_meta path ∷ metas) = values key metas
values key (list_meta path ∷ metas) = values key metas
values key (name_value path value ∷ metas) =
    let rest = values key metas in if is_ident path key then value ∷ rest else rest

-- How often a key stands alone.
unfoldable pub flags : Text → List Meta → ℕ
flags key [] = 0
flags key (path_meta path ∷ metas) =
    let rest = flags key metas in if is_ident path key then suc rest else rest
flags key (list_meta path ∷ metas) = flags key metas
flags key (name_value path value ∷ metas) = flags key metas

abbrev pub strings : Option Text → List SynExpr
strings none = []
strings (some text) = lit_str text ∷ []

abbrev pub flag_count : Bool → ℕ
flag_count true = 1
flag_count false = 0

unfoldable pub size : CddsAttrs → ℕ
size attrs = flag_count attrs.fixed_size + length (strings attrs.pkg) + length (strings attrs.name)

-- What stands in the result before, with what the arguments say, is what stands in it after.
pub record IsRead (before : CddsAttrs) (metas : List Meta) (after : CddsAttrs) : Type 0 where
  pub package_read : strings before.pkg ++ values package_key metas ≡ strings after.pkg
  pub name_read : strings before.name ++ values name_key metas ≡ strings after.name
  pub flag_read :
      flag_count before.fixed_size + flags fixed_size_key metas ≡ flag_count after.fixed_size
  pub size_read : size before + length metas ≡ size after

values-append :
    (key : Text) (xs ys : List Meta) → values key (xs ++ ys) ≡ values key xs ++ values key ys
unfolding values
values-append key [] ys = refl
values-append key (path_meta path ∷ xs) ys = values-append key xs ys
values-append key (list_meta path ∷ xs) ys = values-append key xs ys
values-append key (name_value path value ∷ xs) ys = elim (Bool-cases (is_ident path key)) [
  | inl e ↦ rw (e) (ap (◌∷◌ value) (values-append key xs ys))
  | inr e ↦ rw (e) (values-append key xs ys)
]

flags-append : (key : Text) (xs ys : List Meta) → flags key (xs ++ ys) ≡ flags key xs + flags key ys
unfolding flags
flags-append key [] ys = omega arith
flags-append key (path_meta path ∷ xs) ys = ground (arith, flags-append key xs ys)
flags-append key (list_meta path ∷ xs) ys = flags-append key xs ys
flags-append key (name_value path value ∷ xs) ys = flags-append key xs ys

joined {ℓ} : {A : Type ℓ} (a x y b c : List A) → a ++ x ≡ b → b ++ y ≡ c → a ++ (x ++ y) ≡ c
joined a x y b c p q = sym (append_assoc a x y) ∙ ap (λ l. l ++ y) p ∙ q

pub IsRead-joined :
    (a b c : CddsAttrs) (xs ys : List Meta) → IsRead a xs b → IsRead b ys c → IsRead a (xs ++ ys) c
IsRead-joined a b c xs ys p q = record {
  package_read = rw (values-append package_key xs ys) (
      joined (strings a.pkg) (values package_key xs) (values package_key ys) _ _ p.package_read
        q.package_read);
  name_read = rw (values-append name_key xs ys) (
      joined (strings a.name) (values name_key xs) (values name_key ys) _ _ p.name_read
        q.name_read);
  flag_read = omega (arith, flags-append fixed_size_key xs ys, p.flag_read, q.flag_read);
  size_read = omega (arith, length-append xs ys, p.size_read, q.size_read);
}

pub IsRead-nothing : (a : CddsAttrs) → IsRead a [] a
unfolding values flags
IsRead-nothing a = record {
  package_read = append-nil (strings a.pkg);
  name_read = append-nil (strings a.name);
  flag_read = omega arith;
  size_read = omega arith;
}
