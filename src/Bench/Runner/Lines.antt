-- ===== src/Bench/Runner/Lines.antt =====
-- bench/src/bin/runner.rs: the lines that the runner reads from its children, and the loops that wait
-- for them. What `try_recv` answers in each round, and whether the deadline has passed at its end, are
-- arguments; `none` is a loop that still waits after these rounds. `serde_json` is a parameter.
pub mod Done
use cyclonedds_rs.Common.{
  ℕ, zero, suc, ◌+◌, ◌-◌, ◌*◌, Option, none, some, Bool, true, false, not, ◌&&◌, ◌||◌, List, [],
  ◌∷◌, ◌++◌, ltb, leb, ◌==◌, if◌then◌else◌, length, map, Text, codes, is_ascii_digit,
  is_ascii_alphanumeric, is_among, bytes_eq, Checked, accepted, rejected, on_accepted,
}
use cyclonedds_rs.InterfaceGen.Types.{decimal}
use cyclonedds_rs.Bench.Results.{ResultRecord, Status, ok, error, child_unsuccessful}

pub data Event : Type 0 where
  line : Text → Event
  empty : Event
  disconnected : Event

pub data RunError : Type 0 where
  child_error : Text → RunError
  exited_before_handshake : Text → RunError
  missing_field : Text → RunError
  bad_number : RunError
  bad_json : RunError
  handshake_timeout : RunError
  child_timeout : RunError

-- `char::is_whitespace`.
unfoldable pub is_whitespace : ℕ → Bool
is_whitespace c =
    (leb 9 c && leb c 13)
    || (c == 32
        || (c == 133
            || (c == 160
                || (c == 5760
                    || ((leb 8192 c && leb c 8202)
                        || (c == 8232
                            || (c == 8233 || (c == 8239 || (c == 8287 || c == 12288)))))))))

unfoldable pub emit : Text → List Text → List Text
emit [] fields = fields
emit (c ∷ word) fields = (c ∷ word) ∷ fields

-- `split_whitespace`, with the word that has begun.
unfoldable pub split_whitespace : Text → Text → List Text
unfolding emit is_whitespace
split_whitespace word [] = emit word []
split_whitespace word (c ∷ text) =
    let broken = split_whitespace [] text in
    let longer = split_whitespace (word ++ (c ∷ [])) text in
    if is_whitespace c then emit word broken else longer

unfoldable pub strip_prefix : Text → Text → Option Text
strip_prefix [] text = some text
strip_prefix (p ∷ prefix) [] = none
strip_prefix (p ∷ prefix) (c ∷ text) = if p == c then strip_prefix prefix text else none

abbrev pub is_some : Option Text → Bool
is_some none = false
is_some (some text) = true

unfoldable pub starts_with : Text → Text → Bool
unfolding strip_prefix
starts_with prefix text = is_some (strip_prefix prefix text)

abbrev pub or_else : Option Text → Option Text → Option Text
or_else none other = other
or_else (some text) other = some text

unfoldable pub find_value : Text → List Text → Option Text
unfolding strip_prefix
find_value prefix [] = none
find_value prefix (field ∷ fields) = or_else (strip_prefix prefix field) (find_value prefix fields)

unfoldable pub parse_value : Text → Text → Option Text
unfolding split_whitespace find_value
parse_value text key = find_value (key ++ codes "=") (split_whitespace [] text)

-- The digits of `parse` for an unsigned integer, below `limit`.
unfoldable pub parse_digits : ℕ → ℕ → Text → Option ℕ
parse_digits limit acc [] = if ltb acc limit then some acc else none
parse_digits limit acc (c ∷ text) =
    if is_ascii_digit c then parse_digits limit (acc * 10 + (c - b'0')) text else none

unfoldable pub parse_nonempty : ℕ → Text → Option ℕ
unfolding parse_digits
parse_nonempty limit [] = none
parse_nonempty limit (c ∷ text) = parse_digits limit 0 (c ∷ text)

unfoldable pub parse_unsigned : ℕ → Text → Option ℕ
unfolding parse_nonempty
parse_unsigned limit [] = none
parse_unsigned limit (c ∷ text) =
    if c == b'+' then parse_nonempty limit text else parse_nonempty limit (c ∷ text)

abbrev pub u64_limit : ℕ
u64_limit = 18446744073709551616

abbrev pub u128_limit : ℕ
u128_limit = 340282366920938463463374607431768211456

-- `parse_value(..).ok_or(..)?.parse()?`.
unfoldable pub number_of : ℕ → Text → Option Text → Checked RunError ℕ
unfolding parse_unsigned
number_of limit key none = rejected (missing_field key)
number_of limit key (some text) = elim (parse_unsigned limit text) [
  | none ↦ rejected bad_number
  | some n ↦ accepted n
]

-- `messages_sent` and `bytes_sent` of the caller.
abbrev pub Sent : Type 0
Sent = Option ℕ × Option ℕ

unfoldable pub done_of : Text → Checked RunError Sent
unfolding number_of parse_value
done_of text =
    on_accepted
      (number_of u64_limit (codes "messages_sent") (parse_value text (codes "messages_sent")))
      (λ messages.
        on_accepted
          (number_of u128_limit (codes "bytes_sent") (parse_value text (codes "bytes_sent")))
          (λ bytes. accepted (some messages, some bytes)))

unfoldable pub receive_publisher_line : Event → Sent → Checked RunError Sent
unfolding done_of starts_with
receive_publisher_line (line text) sent =
    if starts_with (codes "DONE ") text
    then done_of text
    else (if starts_with (codes "ERROR") text then rejected (child_error text) else accepted sent)
receive_publisher_line empty sent = accepted sent
receive_publisher_line disconnected sent = accepted sent

-- The line that the publisher writes at its end, publisher.rs.
unfoldable pub done_line : Text → ℕ → ℕ → ℕ → Text
done_line run_id messages_sent bytes_sent elapsed_ns =
    codes "DONE"
    ++ (32
        ∷ (codes "role=publisher"
            ++ (32
                ∷ ((codes "run_id=" ++ run_id)
                    ++ (32
                        ∷ ((codes "messages_sent=" ++ decimal messages_sent)
                            ++ (32
                                ∷ ((codes "bytes_sent=" ++ decimal bytes_sent)
                                    ++ (32 ∷ (codes "elapsed_ns=" ++ decimal elapsed_ns))))))))))

-- `HashSet::insert`.
abbrev pub add : Text → List Text → List Text
add text handshake = if is_among text handshake then handshake else text ∷ handshake

unfoldable pub receive_handshake_line : Text → Event → List Text → Checked RunError (List Text)
unfolding starts_with is_among
receive_handshake_line role (line text) handshake =
    if bytes_eq text (codes "READY role=" ++ role)
    then accepted (add (codes "ready-" ++ role) handshake)
    else (if bytes_eq text (codes "MATCHED role=" ++ role)
        then accepted (add (codes "matched-" ++ role) handshake)
        else (if starts_with (codes "ERROR") text
            then rejected (child_error text)
            else accepted handshake))
receive_handshake_line role empty handshake = accepted handshake
receive_handshake_line role disconnected handshake = rejected (exited_before_handshake role)

-- A round of one of the loops: what the children say, and whether the deadline has passed.
pub record Turn : Type 0 where
  pub subscriber : Event
  pub publisher : Event
  pub expired : Bool

abbrev pub subscriber : Text
subscriber = codes "subscriber"

abbrev pub publisher : Text
publisher = codes "publisher"

-- What both children say in a round of the handshake.
unfoldable pub handshake_round : Turn → List Text → Checked RunError (List Text)
unfolding receive_handshake_line
handshake_round turn handshake =
    on_accepted (receive_handshake_line subscriber turn.subscriber handshake) (λ h.
      on_accepted (receive_handshake_line publisher turn.publisher h)
        (λ h'. if turn.expired then rejected handshake_timeout else accepted h'))

-- `while handshake.len() < 4`.
unfoldable pub handshake_loop : List Turn → List Text → Option (Checked RunError (List Text))
unfolding handshake_round
handshake_loop [] handshake = if ltb (length handshake) 4 then none else some (accepted handshake)
handshake_loop (turn ∷ turns) handshake =
    if ltb (length handshake) 4
    then elim (handshake_round turn handshake) [
      | rejected e ↦ some (rejected e)
      | accepted h ↦ handshake_loop turns h
    ]
    else some (accepted handshake)

-- `sanitize`.
unfoldable pub sanitize : Text → Text
sanitize = map (λ c. if is_ascii_alphanumeric c then c else b'_')
