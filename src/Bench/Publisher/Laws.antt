-- ===== src/Bench/Publisher/Laws.antt =====
-- bench/src/bin/publisher.rs: what is sent, and when.
use cyclonedds_rs.Common.{
  ℕ, zero, suc, ◌+◌, ◌*◌, ◌≤◌, ◌≡◌, refl, ap, sym, ◌∙◌, Option, none, some, true, List, [], ◌∷◌,
  ◌++◌, leb, length, arith, Checked, accepted, rejected, accepted-injective, rejected-accepted,
  if-accepted_else, i32_max,
}
use mathlib.Core.List.{append_assoc, append-nil}
use cyclonedds_rs.Bench.{BenchmarkCase, BenchmarkMessage, ResolvedCase, make_message, payload_from}
use cyclonedds_rs.Bench.Publisher.{
  Round, PublishState, Published, PublishError, too_many_messages, period_of, woken, next_of, send,
  publish_loop, at_start, published, publish,
}

-- The messages from a sequence number on.
abbrev pub messages_from : ℕ → (ℕ → Round) → ℕ → ℕ → List BenchmarkMessage
messages_from bytes rounds sequence zero = []
messages_from bytes rounds sequence (suc left) =
    make_message sequence bytes (rounds sequence).sent_monotonic_ns
    ∷ messages_from bytes rounds (suc sequence) left

-- Each instant is one period after the least that the one before may be.
abbrev pub Paced : ℕ → ℕ → List ℕ → Type 0
Paced next period [] = Unit
Paced next period (at ∷ sends) = (next ≤ at) × Paced (next + period) period sends

length-payload_from : (sequence i n : ℕ) → length (payload_from sequence i n) ≡ n
unfolding payload_from
length-payload_from sequence i zero = refl
length-payload_from sequence i (suc n) = ap suc (length-payload_from sequence (suc i) n)

pub length-payload :
    (sequence bytes at : ℕ) → length (make_message sequence bytes at).payload ≡ bytes
unfolding make_message
length-payload sequence bytes at = length-payload_from sequence 0 bytes

-- The instants from a sequence number on.
sends_from : Option ℕ → (ℕ → Round) → ℕ → ℕ → ℕ → List ℕ
sends_from period rounds next sequence zero = []
sends_from period rounds next sequence (suc left) =
    woken period next (rounds sequence)
    ∷ sends_from period rounds (next_of period next) (suc sequence) left

sends_from-Paced :
    (period : ℕ) (rounds : ℕ → Round) (next sequence left : ℕ)
    → Paced next period (sends_from (some period) rounds next sequence left)
unfolding sends_from
sends_from-Paced period rounds next sequence zero = tt
sends_from-Paced period rounds next sequence (suc left) =
    (ground arith, sends_from-Paced period rounds (next + period) (suc sequence) left)

module _ (warmup total bytes : ℕ) (period : Option ℕ) (rounds : ℕ → Round) where
  -- What the rounds that are left add.
  publish_loop_lem :
      (sequence left : ℕ) (st after : PublishState)
      → publish_loop warmup total bytes period rounds sequence left st ≡ accepted after
      → (after.messages ≡ st.messages ++ messages_from bytes rounds sequence left)
        × (after.sends ≡ st.sends ++ sends_from period rounds st.next_send sequence left)
        × (after.bytes_sent ≡ st.bytes_sent + left * bytes)
  unfolding publish_loop sends_from send
  publish_loop_lem sequence zero st after e =
      let same = accepted-injective e in
      (rw (append-nil, same) refl, rw (append-nil, same) refl, rw (← same) (omega arith))
  publish_loop_lem sequence (suc left) st after e =
      let (m, s, b) =
        publish_loop_lem (suc sequence) left (send warmup total bytes period rounds sequence st)
          after (if-accepted_else (rounds sequence).written _ _ after e).1 in
      (
        m ∙ append_assoc st.messages _ _,
        s ∙ append_assoc st.sends _ _,
        grind (arith, b, length-payload sequence bytes (rounds sequence).sent_monotonic_ns),
      )

-- The pace that a period asks for.
abbrev pub PacedBy : Option ℕ → ℕ → List ℕ → Type 0
PacedBy none now sends = Unit
PacedBy (some period) now sends = Paced now period sends

sends-PacedBy :
    (period : Option ℕ) (rounds : ℕ → Round) (now left : ℕ)
    → PacedBy period now (sends_from period rounds now 0 left)
sends-PacedBy none rounds now left = tt
sends-PacedBy (some period) rounds now left = sends_from-Paced period rounds now 0 left

module _ (case_definition : BenchmarkCase) (resolved_case : ResolvedCase) where
  abbrev total : ℕ
  total = case_definition.warmup_messages + case_definition.measured_messages

  abbrev bytes : ℕ
  bytes = resolved_case.payload_bytes

  published-state :
      (elapsed : ℕ) (end' : Checked PublishError PublishState) (p : Published)
      → published case_definition resolved_case elapsed end' ≡ accepted p
      → (st : PublishState) × (end' ≡ accepted st)
        × (p.messages ≡ st.messages)
        × (p.sends ≡ st.sends)
        × (p.bytes_sent ≡ st.bytes_sent)
        × (p.messages_sent ≡ total)
  unfolding published
  published-state elapsed (rejected e') p e = absurd (rejected-accepted e)
  published-state elapsed (accepted st) p e =
      let same = accepted-injective e in
      (
        st,
        refl,
        ap (λ (x : Published). x.messages) (sym same),
        ap (λ (x : Published). x.sends) (sym same),
        ap (λ (x : Published). x.bytes_sent) (sym same),
        ap (λ (x : Published). x.messages_sent) (sym same),
      )

  -- A case of too many messages is refused.
  pub publish-limit :
      (now elapsed : ℕ) (rounds : ℕ → Round) (p : Published)
      → publish case_definition resolved_case now elapsed rounds ≡ accepted p
      → leb total i32_max ≡ true
  unfolding publish
  publish-limit now elapsed rounds p e =
      (if-accepted_else (leb total i32_max) _ too_many_messages p e).0

  -- When `publish` succeeds, it has written the messages with the sequence numbers from 0 on, in
  -- order, as many as messages_sent says, and bytes_sent is that number of payloads; with a rate that
  -- is not 0, each message is sent at the instant at which its period starts or later, the periods
  -- counted from the start of the loop.
  pub publish_lem :
      (now elapsed : ℕ) (rounds : ℕ → Round) (p : Published)
      → publish case_definition resolved_case now elapsed rounds ≡ accepted p
      → (p.messages ≡ messages_from bytes rounds 0 p.messages_sent)
        × (p.messages_sent ≡ total)
        × (p.bytes_sent ≡ p.messages_sent * bytes)
        × PacedBy (period_of case_definition.rate_hz) now p.sends
  unfolding publish
  publish_lem now elapsed rounds p e =
      let period = period_of case_definition.rate_hz in
      let loop =
        publish_loop case_definition.warmup_messages total bytes period rounds 0 total
          (at_start now) in
      let (st, looped, m, s, b, t) =
        published-state elapsed loop p
          (if-accepted_else (leb total i32_max) _ too_many_messages p e).1 in
      let (m', s', b') =
        publish_loop_lem case_definition.warmup_messages total bytes period rounds 0 total
          (at_start now) st looped in
      (
        rw t (m ∙ m'),
        t,
        rw t (omega (arith, b, b')),
        rw (s ∙ s') (sends-PacedBy period rounds now total),
      )
