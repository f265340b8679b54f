-- ===== src/Bench/Publisher.antt =====
-- bench/src/bin/publisher.rs: the loop that sends the messages at their rate. What the clocks and the
-- writer answer in the round of a sequence number is an argument; an instant is a number of
-- nanoseconds, and a sleep lasts as long as it is asked for or longer.
pub mod Laws
use cyclonedds_rs.Common.{
  ℕ, zero, suc, ◌+◌, ◌-◌, ◌/◌, Option, none, some, Bool, true, false, List, [], ◌∷◌, ◌++◌, ltb, leb,
  ◌==◌, if◌then◌else◌, length, Checked, accepted, rejected, i32_max,
}
use cyclonedds_rs.Bench.{BenchmarkCase, BenchmarkMessage, ResolvedCase, make_message}

-- One round: `Instant::now()`, how much longer than asked the sleep is, `monotonic_ns()` before and
-- after the write, and whether the write succeeds.
pub record Round : Type 0 where
  pub now : ℕ
  pub overslept : ℕ
  pub sent_monotonic_ns : ℕ
  pub written : Bool
  pub ended_ns : ℕ

pub data PublishError : Type 0 where
  too_many_messages : PublishError
  dds_error : PublishError

-- The variables of the loop, with the messages that are written and the instants at which.
pub record PublishState : Type 0 where
  pub bytes_sent : ℕ
  pub next_send : ℕ
  pub measurement_started : Option ℕ
  pub measurement_ended : Option ℕ
  pub messages : List BenchmarkMessage
  pub sends : List ℕ

-- What the line DONE reports, with the messages and the instants.
pub record Published : Type 0 where
  pub messages_sent : ℕ
  pub bytes_sent : ℕ
  pub elapsed_ns : ℕ
  pub messages : List BenchmarkMessage
  pub sends : List ℕ

unfoldable pub period_of : Option ℕ → Option ℕ
period_of none = none
period_of (some zero) = none
period_of (some (suc rate)) = some (1000000000 / suc rate)

-- The instant after the sleep, where there is one.
abbrev pub woken : Option ℕ → ℕ → Round → ℕ
woken none next_send round = round.now
woken (some period) next_send round =
    if ltb round.now next_send
    then round.now + (next_send - round.now) + round.overslept
    else round.now

abbrev pub next_of : Option ℕ → ℕ → ℕ
next_of none next_send = next_send
next_of (some period) next_send = next_send + period

abbrev pub started_of : ℕ → ℕ → ℕ → Option ℕ → Option ℕ
started_of sequence warmup now started = if sequence == warmup then some now else started

abbrev pub ended_of : ℕ → ℕ → ℕ → Option ℕ → Option ℕ
ended_of sequence total now ended = if sequence + 1 == total then some now else ended

abbrev pub elapsed_of : Option ℕ → Option ℕ → ℕ → ℕ
elapsed_of none ended elapsed = elapsed
elapsed_of (some start) none elapsed = elapsed
elapsed_of (some start) (some end') elapsed = end' - start

module _ (warmup total payload_bytes : ℕ) (period : Option ℕ) (rounds : ℕ → Round) where
  unfoldable pub send : ℕ → PublishState → PublishState
  send sequence st =
      let round = rounds sequence in
      let message = make_message sequence payload_bytes round.sent_monotonic_ns in
      record {
        bytes_sent = st.bytes_sent + length message.payload;
        next_send = next_of period st.next_send;
        measurement_started =
            started_of sequence warmup round.sent_monotonic_ns st.measurement_started;
        measurement_ended = ended_of sequence total round.ended_ns st.measurement_ended;
        messages = st.messages ++ (message ∷ []);
        sends = st.sends ++ (woken period st.next_send round ∷ []);
      }

  -- `for sequence in 0..total_messages`, with the rounds that are left.
  unfoldable pub publish_loop : ℕ → ℕ → PublishState → Checked PublishError PublishState
  publish_loop sequence zero st = accepted st
  publish_loop sequence (suc left) st =
      let rest = publish_loop (suc sequence) left (send sequence st) in
      if (rounds sequence).written then rest else rejected dds_error

abbrev pub at_start : ℕ → PublishState
at_start now = record {
  bytes_sent = 0;
  next_send = now;
  measurement_started = none;
  measurement_ended = none;
  messages = [];
  sends = [];
}

module _ (case_definition : BenchmarkCase) (resolved_case : ResolvedCase) where
  abbrev total : ℕ
  total = case_definition.warmup_messages + case_definition.measured_messages

  unfoldable pub published : ℕ → Checked PublishError PublishState → Checked PublishError Published
  published elapsed (rejected e) = rejected e
  published elapsed (accepted st) = accepted (record {
    messages_sent = total;
    bytes_sent = st.bytes_sent;
    elapsed_ns = elapsed_of st.measurement_started st.measurement_ended elapsed;
    messages = st.messages;
    sends = st.sends;
  })

  -- `publish`, from the conversion of the depth on, once the match and the start are there; `now` is
  -- the instant at which the loop starts, `elapsed` the time since then at its end.
  unfoldable pub publish : ℕ → ℕ → (ℕ → Round) → Checked PublishError Published
  unfolding published
  publish now elapsed rounds =
      if leb total i32_max
      then published elapsed (
          publish_loop case_definition.warmup_messages total resolved_case.payload_bytes
            (period_of case_definition.rate_hz) rounds 0 total (at_start now))
      else rejected too_many_messages
