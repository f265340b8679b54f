-- ===== src/InterfaceGen/Messages.antt =====
-- cyclonedds/src/interface_gen.rs: `MsgDefRegistry`, which collects the .msg definition of a type and
-- then those that it depends on, in the order in which they are met.
use cyclonedds_rs.Common.{
  codes, ℕ, zero, suc, Bool, true, false, List, [], ◌∷◌, ◌++◌, Option, none, some, if◌then◌else◌,
  bytes_eq, replicate,
}
use cyclonedds_rs.InterfaceGen.{
  Text, Key, contains, Seen, get_seen, last_is, pop, Outcome, done, conflicting, cyclic,
  out_of_order, out_of_fuel, and_then, format_cycle,
}
use cyclonedds_rs.InterfaceGen.Namespaces.{newline}
use cyclonedds_rs.InterfaceGen.Definitions.{Interfaces, collect_fields}

pub record MsgDefRegistry : Type 0 where
  pub seen : Seen
  pub visiting : List Key
  pub entries : List (Text × Text)

unfoldable pub new : MsgDefRegistry
new = record { seen = []; visiting = []; entries = [] }

abbrev pub header_text : Text
header_text = codes "MSG: "

-- Eighty times "=".
abbrev pub separator : Text
separator = replicate 80 61

unfoldable pub render_rest : List (Text × Text) → Text
render_rest [] = []
render_rest ((msg_ref, msg_def) ∷ entries) =
    separator ++ newline ++ header_text ++ msg_ref ++ newline ++ msg_def ++ render_rest entries

unfoldable pub render : List (Text × Text) → Text
render [] = []
render ((msg_ref, msg_def) ∷ entries) = msg_def ++ render_rest entries

module _ (types : Interfaces) where
  open types use {key, msg_def, msg_ref, fields}

  unfoldable pub enter_msg_seen : ℕ → Option Text → MsgDefRegistry → Outcome (Bool × MsgDefRegistry)
  enter_msg_seen t (some existing) reg =
      if bytes_eq existing (msg_def t) then done (false, reg) else conflicting (key t)
  enter_msg_seen t none reg =
      if contains (key t) reg.visiting
      then cyclic (format_cycle reg.visiting (key t))
      else done (
        true,
        record reg {
          visiting = reg.visiting ++ key t ∷ [];
          entries = reg.entries ++ (msg_ref t, msg_def t) ∷ [];
        },
      )

  unfoldable pub enter_msg : ℕ → MsgDefRegistry → Outcome (Bool × MsgDefRegistry)
  enter_msg t reg = enter_msg_seen t (get_seen (key t) reg.seen) reg

  unfoldable pub finish_msg : ℕ → MsgDefRegistry → Outcome MsgDefRegistry
  finish_msg t reg =
      if last_is (key t) reg.visiting
      then done (record reg { seen = (key t, msg_def t) ∷ reg.seen; visiting = pop reg.visiting })
      else out_of_order

  unfoldable pub collect_msg_entered :
      (ℕ → MsgDefRegistry → Outcome MsgDefRegistry)
      → ℕ
      → Bool × MsgDefRegistry
      → Outcome MsgDefRegistry
  collect_msg_entered collect t (false, reg) = done reg
  collect_msg_entered collect t (true, reg) =
      and_then (collect_fields collect (fields t) reg) (finish_msg t)

  unfoldable pub collect_msg_defs : ℕ → ℕ → MsgDefRegistry → Outcome MsgDefRegistry
  collect_msg_defs zero t reg = out_of_fuel
  collect_msg_defs (suc fuel) t reg =
      and_then (enter_msg t reg) (collect_msg_entered (collect_msg_defs fuel) t)

  -- `full_ros2_msg`.
  unfoldable pub full_ros2_msg : ℕ → ℕ → Outcome Text
  full_ros2_msg fuel t = and_then (collect_msg_defs fuel t new) (λ reg. done (render reg.entries))
