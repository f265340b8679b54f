-- ===== src/Derive/Attributes/Reading.antt =====
-- What the loops of `parse_cdds_attrs` of dds_derive/src/lib.rs add to the result.
use mathlib.Core.List.{append-nil}
use cyclonedds_rs.Common.{
  Text, List, [], ◌∷◌, ◌++◌, true, false, ◌≡◌, refl, ap, Option, none, some, Checked, accepted,
  on_accepted_inverse, accepted-injective, rejected-accepted, if-accepted_then, if-accepted_else,
  Bool-cases, inl, inr, arith, length, bytes_eq, bytes_eq_iff,
}
use cyclonedds_rs.Derive.Syntax.{
  SynPath, SynExpr, lit_str, other_expr, Meta, path_meta, list_meta, name_value,
}
use cyclonedds_rs.Derive.Attributes.{
  DeriveError, option_is, is_ident, CddsAttrs, fixed_size_key, package_key, name_key, typename_key,
  expect_cdds_lit_str, read_once, read_meta, read_metas,
}
use cyclonedds_rs.Derive.Attributes.Given.{
  values, flags, strings, size, IsRead, IsRead-joined, IsRead-nothing,
}

option_exclusive :
    (o : Option Text) (k k' : Text)
    → bytes_eq k k' ≡ false
    → option_is o k ≡ true
    → option_is o k' ≡ false
option_exclusive none k k' n h = refl
option_exclusive (some ident) k k' n h = rw ((bytes_eq_iff ident k).0 h) n

exclusive :
    (path : SynPath) (k k' : Text)
    → bytes_eq k k' ≡ false
    → is_ident path k ≡ true
    → is_ident path k' ≡ false
unfolding is_ident
exclusive path k k' n h = option_exclusive path.get_ident k k' n h

-- A key is read once, and its value is a string.
read_once_inverse :
    (o : Option Text) (value : SynExpr) (key text : Text)
    → read_once o value key ≡ accepted text
    → (o ≡ none) × (value ≡ lit_str text)
unfolding read_once expect_cdds_lit_str
read_once_inverse (some t) value key text h = absurd (rejected-accepted h)
read_once_inverse none (lit_str t) key text h = (refl, ap lit_str (accepted-injective h))
read_once_inverse none other_expr key text h = absurd (rejected-accepted h)

values_here :
    (key : Text) (path : SynPath) (value : SynExpr)
    → is_ident path key ≡ true
    → values key (name_value path value ∷ []) ≡ value ∷ []
unfolding values
values_here key path value h = rw (h) refl

values_elsewhere :
    (key : Text) (path : SynPath) (value : SynExpr)
    → is_ident path key ≡ false
    → values key (name_value path value ∷ []) ≡ []
unfolding values
values_elsewhere key path value h = rw (h) refl

filled :
    (o : Option Text) (value : SynExpr) (text : Text) (l : List SynExpr)
    → (o ≡ none) × (value ≡ lit_str text)
    → l ≡ value ∷ []
    → (strings o ++ l ≡ strings (some text)) × (length (strings o) ≡ 0)
filled o value text l h e = rw (h.0, e, h.1) (refl, refl)

kept : (o : Option Text) (l : List SynExpr) → l ≡ [] → strings o ++ l ≡ strings o
kept o l h = rw (h) (append-nil (strings o))

flags_value :
    (key : Text) (path : SynPath) (value : SynExpr) → flags key (name_value path value ∷ []) ≡ 0
unfolding flags
flags_value key path value = refl

package_filled :
    (a : CddsAttrs) (path : SynPath) (value : SynExpr) (text : Text)
    → is_ident path package_key ≡ true
    → (a.pkg ≡ none) × (value ≡ lit_str text)
    → IsRead a
        (name_value path value ∷ [])
        (record { fixed_size = a.fixed_size; pkg = some text; name = a.name })
unfolding size bytes_eq
package_filled a path value text k h =
    let f = filled a.pkg value text _ h (values_here package_key path value k) in
    record {
      package_read = f.0;
      name_read =
          kept a.name _
            (values_elsewhere name_key path value (exclusive path package_key name_key refl k));
      flag_read = omega (arith, flags_value fixed_size_key path value);
      size_read = omega (arith, f.1);
    }

name_filled :
    (a : CddsAttrs) (path : SynPath) (value : SynExpr) (text : Text)
    → is_ident path package_key ≡ false
    → is_ident path name_key ≡ true
    → (a.name ≡ none) × (value ≡ lit_str text)
    → IsRead a
        (name_value path value ∷ [])
        (record { fixed_size = a.fixed_size; pkg = a.pkg; name = some text })
unfolding size
name_filled a path value text n k h =
    let f = filled a.name value text _ h (values_here name_key path value k) in
    record {
      package_read = kept a.pkg _ (values_elsewhere package_key path value n);
      name_read = f.0;
      flag_read = omega (arith, flags_value fixed_size_key path value);
      size_read = omega (arith, f.1);
    }

flag_here :
    (a : CddsAttrs) (path : SynPath)
    → is_ident path fixed_size_key ≡ true
    → a.fixed_size ≡ false
    → IsRead a (path_meta path ∷ []) (record { fixed_size = true; pkg = a.pkg; name = a.name })
unfolding size values flags
flag_here a path k h = record {
  package_read = append-nil (strings a.pkg);
  name_read = append-nil (strings a.name);
  flag_read = ground arith;
  size_read = ground arith;
}

pub moved :
    {a b c : CddsAttrs} {metas : List Meta}
    → ◌≡◌ {A = Checked DeriveError CddsAttrs} (accepted c) (accepted b)
    → IsRead a metas c
    → IsRead a metas b
moved h r = rw⁻¹ (accepted-injective h) r

IsRead-package :
    (a b : CddsAttrs) (path : SynPath) (value : SynExpr)
    → is_ident path package_key ≡ true
    → read_meta a (name_value path value) ≡ accepted b
    → IsRead a (name_value path value ∷ []) b
unfolding read_meta
IsRead-package a b path value k h =
    let r = on_accepted_inverse (read_once a.pkg value package_key) _ b (rw (k) at h) in
    moved (r.2)
      (package_filled a path value r.0 k (read_once_inverse a.pkg value package_key r.0 r.1))

IsRead-name :
    (a b : CddsAttrs) (path : SynPath) (value : SynExpr)
    → is_ident path package_key ≡ false
    → read_meta a (name_value path value) ≡ accepted b
    → IsRead a (name_value path value ∷ []) b
unfolding read_meta
IsRead-name a b path value n h = elim (Bool-cases (is_ident path name_key)) [
  | inl k ↦
      let r = on_accepted_inverse (read_once a.name value name_key) _ b (rw (n, k) at h) in
      moved (r.2)
        (name_filled a path value r.0 n k (read_once_inverse a.name value name_key r.0 r.1))
  | inr m ↦
      absurd
        (rejected-accepted (if-accepted_then (is_ident path typename_key) _ _ b (rw (n, m) at h)).1)
]

read_meta_lem :
    (a b : CddsAttrs) (meta : Meta) → read_meta a meta ≡ accepted b → IsRead a (meta ∷ []) b
unfolding read_meta
read_meta_lem a b (path_meta path) h =
    let k = if-accepted_else (is_ident path fixed_size_key) _ _ b h in
    let f = if-accepted_then a.fixed_size _ _ b k.1 in moved f.1 (flag_here a path k.0 f.0)
read_meta_lem a b (list_meta path) h = absurd (rejected-accepted h)
read_meta_lem a b (name_value path value) h = elim (Bool-cases (is_ident path package_key)) [
  | inl k ↦ IsRead-package a b path value k h
  | inr n ↦ IsRead-name a b path value n h
]

pub read_metas_lem :
    (metas : List Meta) (a b : CddsAttrs) → read_metas a metas ≡ accepted b → IsRead a metas b
unfolding read_metas
read_metas_lem [] a b h = moved h (IsRead-nothing a)
read_metas_lem (meta ∷ metas) a b h =
    let r = on_accepted_inverse (read_meta a meta) (λ a'. read_metas a' metas) b h in
    IsRead-joined a r.0 b (meta ∷ []) metas (read_meta_lem a r.0 meta r.1)
      (read_metas_lem metas r.0 b r.2)
