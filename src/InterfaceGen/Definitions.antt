-- ===== src/InterfaceGen/Definitions.antt =====
-- cyclonedds/src/interface_gen.rs: `DefRegistry`, which collects the IDL of a type and of the types
-- that it depends on, and the recursion through the fields that dds_derive/src/lib.rs writes. Each
-- step into a field's type takes a unit of fuel.
pub mod Entries
pub mod Order
use cyclonedds_rs.Common.{
  ℕ, zero, suc, Bool, true, false, List, [], ◌∷◌, ◌++◌, Option, none, some, if◌then◌else◌, bytes_eq,
}
use cyclonedds_rs.InterfaceGen.{
  Text, Key, FieldType, primitive, vec, array, struct, contains, Seen, get_seen, last_is, pop,
  Outcome, done, conflicting, cyclic, out_of_order, out_of_fuel, and_then, format_cycle,
}
use cyclonedds_rs.InterfaceGen.Namespaces.{NsMode}

-- What the derive macro writes for each type.
pub record Interfaces : Type 0 where
  pub key : ℕ → Key
  pub idl_def : ℕ → NsMode → Text
  pub msg_def : ℕ → Text
  pub msg_ref : ℕ → Text
  pub fields : ℕ → List FieldType

pub record DefRegistry : Type 0 where
  pub seen : Seen
  pub visiting : List Key
  pub entries : List Text
  pub mode : NsMode

unfoldable pub new : NsMode → DefRegistry
new mode = record { seen = []; visiting = []; entries = []; mode = mode }

unfoldable pub collect_field : {R : Type 0} → (ℕ → R → Outcome R) → FieldType → R → Outcome R
collect_field collect primitive reg = done reg
collect_field collect (vec elem) reg = collect_field collect elem reg
collect_field collect (array elem n) reg = collect_field collect elem reg
collect_field collect (struct t) reg = collect t reg

unfoldable pub collect_fields : {R : Type 0} → (ℕ → R → Outcome R) → List FieldType → R → Outcome R
collect_fields collect [] reg = done reg
collect_fields collect (f ∷ fields) reg =
    and_then (collect_field collect f reg) (collect_fields collect fields)

module _ (types : Interfaces) where
  open types use {key, idl_def, fields}

  unfoldable pub enter_seen : ℕ → Option Text → DefRegistry → Outcome (Bool × DefRegistry)
  enter_seen t (some existing) reg =
      if bytes_eq existing (idl_def t reg.mode) then done (false, reg) else conflicting (key t)
  enter_seen t none reg =
      if contains (key t) reg.visiting
      then cyclic (format_cycle reg.visiting (key t))
      else done (true, record reg { visiting = reg.visiting ++ key t ∷ [] })

  unfoldable pub enter : ℕ → DefRegistry → Outcome (Bool × DefRegistry)
  enter t reg = enter_seen t (get_seen (key t) reg.seen) reg

  unfoldable pub finish : ℕ → DefRegistry → Outcome DefRegistry
  finish t reg =
      if last_is (key t) reg.visiting
      then done (record {
        seen = (key t, idl_def t reg.mode) ∷ reg.seen;
        visiting = pop reg.visiting;
        entries = reg.entries ++ idl_def t reg.mode ∷ [];
        mode = reg.mode;
      })
      else out_of_order

  unfoldable pub collect_entered :
      (ℕ → DefRegistry → Outcome DefRegistry) → ℕ → Bool × DefRegistry → Outcome DefRegistry
  collect_entered collect t (false, reg) = done reg
  collect_entered collect t (true, reg) =
      and_then (collect_fields collect (fields t) reg) (finish t)

  unfoldable pub collect_defs : ℕ → ℕ → DefRegistry → Outcome DefRegistry
  collect_defs zero t reg = out_of_fuel
  collect_defs (suc fuel) t reg = and_then (enter t reg) (collect_entered (collect_defs fuel) t)
