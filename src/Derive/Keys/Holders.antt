-- ===== src/Derive/Keys/Holders.antt =====
-- dds_derive/src/lib.rs: `build_key_holder_struct` never panics, and keeps the key fields in order.
use mathlib.Core.List.{append_assoc, append-nil}
use cyclonedds_rs.Common.{
  List, [], ◌∷◌, ◌++◌, Bool, true, false, not, ◌&&◌, ◌||◌, ◌≡◌, ◌≢◌, refl, sym, ap, ◌∙◌, some,
  Checked, accepted, rejected, on_accepted, accepted-rejected, rejected-accepted,
  accepted-injective, false-true, if◌then◌else◌, arith,
}
use cyclonedds_rs.Derive.Syntax.{Ident, Field, ItemStruct}
use cyclonedds_rs.Derive.Attributes.{DeriveError, panicked}
use cyclonedds_rs.Derive.Keys.{
  is_key, KeyHolder, empty_holder, build_fields, all_fields, build_key_holder_struct,
}
use cyclonedds_rs.Derive.Keys.Rounds.{
  key_idents, holder_idents, holds_string, any_key_string, reason_injective, IsPushed, IsRound,
  skipped, refused, added, add_field_lem,
}

round_no_panic :
    (holder : KeyHolder) (field : Field) (r : Checked DeriveError KeyHolder)
    (next : KeyHolder → Checked DeriveError KeyHolder)
    → ((h : KeyHolder) → next h ≢ rejected panicked)
    → IsRound holder field r
    → on_accepted r next ≢ rejected panicked
round_no_panic holder field _ next n (skipped k) e = n holder e
round_no_panic holder field _ next n (refused reason k) e = k (reason_injective e)
round_no_panic holder field r next n (added ident _ k s p) e =
    n p.after (sym (ap (λ q. on_accepted q next) p.pushed_lem) ∙ e)

build_no_panic :
    (fields : List Field) (holder : KeyHolder) → build_fields holder fields ≢ rejected panicked
unfolding build_fields
build_no_panic [] holder e = accepted-rejected e
build_no_panic (field ∷ fields) holder e =
    round_no_panic holder field _ _ (build_no_panic fields) (add_field_lem holder field) e

-- What the loop keeps and adds.
record IsBuilt (before : KeyHolder) (fields : List Field) (after : KeyHolder) : Type 0 where
  idents_built :
      holder_idents after.holder_fields ≡ holder_idents before.holder_fields ++ key_idents fields
  variable_built :
      (before.variable_length || any_key_string fields) ≡ true → after.variable_length ≡ true

IsBuilt-nothing : (holder : KeyHolder) → IsBuilt holder [] holder
unfolding key_idents any_key_string
IsBuilt-nothing holder = record {
  idents_built = sym (append-nil (holder_idents holder.holder_fields));
  variable_built = λ h. ground arith;
}

IsBuilt-skipped :
    (holder after : KeyHolder) (field : Field) (fields : List Field)
    → is_key field ≡ false
    → IsBuilt holder fields after
    → IsBuilt holder (field ∷ fields) after
unfolding key_idents any_key_string
IsBuilt-skipped holder after field fields n b = record {
  idents_built = rw (n) b.idents_built;
  variable_built = λ h. b.variable_built (rw (n) at h);
}

key_idents_added :
    (field : Field) (fields : List Field) (ident : Ident)
    → is_key field ≡ true
    → field.ident ≡ some ident
    → key_idents (field ∷ fields) ≡ some ident ∷ key_idents fields
unfolding key_idents
key_idents_added field fields ident k s = rw (k) (ap (λ o. o ∷ key_idents fields) s)

or_step :
    (k a s m v : Bool)
    → k ≡ true
    → (a || (if k then s || m else m)) ≡ true
    → ((a || s) ≡ true → v ≡ true)
    → (v || m) ≡ true
or_step true true s m true k h i = refl
or_step true false true m true k h i = refl
or_step true false false true v k h i = ground arith
or_step true false false false v k h i = absurd (false-true h)
or_step true true s m false k h i = absurd (false-true (i refl))
or_step true false true m false k h i = absurd (false-true (i refl))
or_step false a s m v k h i = absurd (false-true k)

IsBuilt-added :
    (holder after : KeyHolder) (field : Field) (fields : List Field) (ident : Ident)
    (r : Checked DeriveError KeyHolder) (p : IsPushed holder ident field.ty r)
    → is_key field ≡ true
    → field.ident ≡ some ident
    → IsBuilt p.after fields after
    → IsBuilt holder (field ∷ fields) after
unfolding key_idents any_key_string
IsBuilt-added holder after field fields ident r p k s b = record {
  idents_built =
      b.idents_built
      ∙ ap (λ x. x ++ key_idents fields) p.idents_lem
      ∙ append_assoc (holder_idents holder.holder_fields) (some ident ∷ []) (key_idents fields)
      ∙ ap (λ x. holder_idents holder.holder_fields ++ x)
          (sym (key_idents_added field fields ident k s));
  variable_built = λ h. b.variable_built (
      or_step (is_key field) holder.variable_length (holds_string field.ty) (any_key_string fields)
        p.after.variable_length k h p.variable_lem);
}

round-IsBuilt :
    (holder after : KeyHolder) (field : Field) (fields : List Field)
    (r : Checked DeriveError KeyHolder) (next : KeyHolder → Checked DeriveError KeyHolder)
    → ((h : KeyHolder) → next h ≡ accepted after → IsBuilt h fields after)
    → IsRound holder field r
    → on_accepted r next ≡ accepted after
    → IsBuilt holder (field ∷ fields) after
round-IsBuilt holder after field fields _ next n (skipped k) e =
    IsBuilt-skipped holder after field fields k (n holder e)
round-IsBuilt holder after field fields _ next n (refused reason k) e = absurd (rejected-accepted e)
round-IsBuilt holder after field fields r next n (added ident _ k s p) e =
    IsBuilt-added holder after field fields ident r p k s
      (n p.after (sym (ap (λ q. on_accepted q next) p.pushed_lem) ∙ e))

build_fields_lem :
    (fields : List Field) (holder after : KeyHolder)
    → build_fields holder fields ≡ accepted after
    → IsBuilt holder fields after
unfolding build_fields
build_fields_lem [] holder after e = rw⁻¹ (accepted-injective e) (IsBuilt-nothing holder)
build_fields_lem (field ∷ fields) holder after e =
    round-IsBuilt holder after field fields _ _ (λ h. build_fields_lem fields h after)
      (add_field_lem holder field) e

or_not : (a v : Bool) → (a ≡ true → v ≡ true) → (a && not v) ≡ false
or_not true true h = refl
or_not true false h = sym (h refl)
or_not false v h = refl

built_whole :
    (fields : List Field) (after : KeyHolder)
    → IsBuilt empty_holder fields after
    → (holder_idents after.holder_fields ≡ key_idents fields)
      × ((any_key_string fields && not after.variable_length) ≡ false)
unfolding holder_idents
built_whole fields after b =
    (b.idents_built, or_not (any_key_string fields) after.variable_length b.variable_built)

-- A key holder that is built has a field for each key field of the struct, in their order and with
-- their names, and where the type of a key is `String` or an array of it, the holder counts as one
-- of variable length.
pub build_key_holder_struct_lem :
    (item : ItemStruct) (holder : KeyHolder)
    → build_key_holder_struct item ≡ accepted holder
    → (holder_idents holder.holder_fields ≡ key_idents (all_fields item.fields))
      × ((any_key_string (all_fields item.fields) && not holder.variable_length) ≡ false)
unfolding build_key_holder_struct
build_key_holder_struct_lem item holder e =
    built_whole (all_fields item.fields) holder
      (build_fields_lem (all_fields item.fields) empty_holder holder e)

-- Whatever the struct, building its key holder ends in a compile error or a key holder, and never in
-- a panic: the missing name of a tuple field and the types that are no keys are not reached.
pub build_key_holder_struct_no_panic :
    (item : ItemStruct) → build_key_holder_struct item ≢ rejected panicked
unfolding build_key_holder_struct
build_key_holder_struct_no_panic item = build_no_panic (all_fields item.fields) empty_holder
