-- ===== src/Derive/Attributes/Laws.antt =====
-- What `parse_cdds_attrs` of dds_derive/src/lib.rs reads, against the arguments that stand in the
-- attributes.
use cyclonedds_rs.Common.{
  List, [], ◌∷◌, ◌≡◌, refl, ap, ◌∙◌, Option, none, some, accepted, rejected, on_accepted_inverse,
  accepted-injective, rejected-accepted, if◌then◌else◌, if-accepted_else, Bool-cases, inl, inr,
  arith, codes, length, ◌+◌,
}
use cyclonedds_rs.Derive.Syntax.{Meta, ArgInput, AttributeMeta, meta_list, other_meta, Attribute}
use cyclonedds_rs.Derive.Attributes.{
  syntax_error, is_ident, CddsAttrs, no_attrs, fixed_size_key, package_key, name_key, parse_arg,
  parse_args, read_metas, read_attribute_meta, read_attribute, read_attributes, parse_cdds_attrs,
}
use cyclonedds_rs.Derive.Attributes.Given.{
  metas_of_inputs, metas_of_meta, cdds_metas, values, flags, strings, flag_count, size, IsRead,
  IsRead-joined, IsRead-nothing,
}
use cyclonedds_rs.Derive.Attributes.Reading.{moved, read_metas_lem}

parsed_some :
    (o : Option Meta) (meta : Meta)
    → (elim o [ none ↦ rejected syntax_error | some m ↦ accepted m ]) ≡ accepted meta
    → o ≡ some meta
parsed_some none meta h = absurd (rejected-accepted h)
parsed_some (some m) meta h = ap some (accepted-injective h)

parse_arg_lem :
    (input : ArgInput) (meta : Meta) → parse_arg input ≡ accepted meta → input.parsed ≡ some meta
unfolding parse_arg
parse_arg_lem input meta h =
    parsed_some input.parsed meta (if-accepted_else input.starts_with_path _ _ meta h).1

metas_of_inputs_cons :
    (input : ArgInput) (inputs : List ArgInput) (meta : Meta)
    → input.parsed ≡ some meta
    → metas_of_inputs (input ∷ inputs) ≡ meta ∷ metas_of_inputs inputs
unfolding metas_of_inputs
metas_of_inputs_cons input inputs meta h = rw (h) refl

parse_args_lem :
    (inputs : List ArgInput) (metas : List Meta)
    → parse_args inputs ≡ accepted metas
    → metas_of_inputs inputs ≡ metas
unfolding parse_args
parse_args_lem [] metas h = unfold metas_of_inputs in accepted-injective h
parse_args_lem (input ∷ inputs) metas h =
    let r = on_accepted_inverse (parse_arg input) _ metas h in
    let q = on_accepted_inverse (parse_args inputs) _ metas r.2 in
    metas_of_inputs_cons input inputs r.0 (parse_arg_lem input r.0 r.1)
    ∙ ap (◌∷◌ r.0) (parse_args_lem inputs q.0 q.1)
    ∙ accepted-injective q.2

read_attribute_meta_lem :
    (a b : CddsAttrs) (meta : AttributeMeta)
    → read_attribute_meta a meta ≡ accepted b
    → IsRead a (metas_of_meta meta) b
unfolding read_attribute_meta metas_of_meta
read_attribute_meta_lem a b (meta_list inputs) h =
    let r = on_accepted_inverse (parse_args inputs) (λ metas. read_metas a metas) b h in
    rw (parse_args_lem inputs r.0 r.1) (read_metas_lem r.0 a b r.2)
read_attribute_meta_lem a b other_meta h = absurd (rejected-accepted h)

read_attribute_lem :
    (a b : CddsAttrs) (attribute : Attribute)
    → read_attribute a attribute ≡ accepted b
    → IsRead a
        (if is_ident attribute.path (codes "cdds") then metas_of_meta attribute.meta else [])
        b
unfolding read_attribute
read_attribute_lem a b attribute h = elim (Bool-cases (is_ident attribute.path (codes "cdds"))) [
  | inl k ↦ rw (k) (read_attribute_meta_lem a b attribute.meta (rw (k) at h))
  | inr n ↦ rw (n) (moved (rw (n) at h) (IsRead-nothing a))
]

read_attributes_lem :
    (attributes : List Attribute) (a b : CddsAttrs)
    → read_attributes a attributes ≡ accepted b
    → IsRead a (cdds_metas attributes) b
unfolding read_attributes cdds_metas
read_attributes_lem [] a b h = moved h (IsRead-nothing a)
read_attributes_lem (attribute ∷ attributes) a b h =
    let r =
      on_accepted_inverse (read_attribute a attribute) (λ a'. read_attributes a' attributes) b h in
    IsRead-joined a r.0 b _ (cdds_metas attributes) (read_attribute_lem a r.0 attribute r.1)
      (read_attributes_lem attributes r.0 b r.2)

-- If the attributes of a struct are accepted, what is read is what stands in all its attributes
-- `cdds` together: `package` and `name` are given at most once, as a string, and the result holds
-- those strings, it says `fixed_size` when that is given, which is at most once, and no other
-- argument is given.
pub parse_cdds_attrs_lem :
    (attributes : List Attribute) (attrs : CddsAttrs)
    → parse_cdds_attrs attributes ≡ accepted attrs
    → (values package_key (cdds_metas attributes) ≡ strings attrs.pkg)
      × (values name_key (cdds_metas attributes) ≡ strings attrs.name)
      × (flags fixed_size_key (cdds_metas attributes) ≡ flag_count attrs.fixed_size)
      × (length (cdds_metas attributes)
          ≡ length (strings attrs.pkg) + length (strings attrs.name) + flag_count attrs.fixed_size)
unfolding parse_cdds_attrs size
parse_cdds_attrs_lem attributes attrs h =
    let r = read_attributes_lem attributes no_attrs attrs h in
    (r.package_read, r.name_read, omega (arith, r.flag_read), omega (arith, r.size_read))
