-- ===== src/Bench/Runner/Roundtrips.antt =====
-- bench/src/bin/runner.rs, `run_cdr`: what the status of its record says of the codec.
use cyclonedds_rs.Common.{
  ℕ, zero, suc, ◌+◌, ◌≤◌, ◌<◌, ◌≡◌, ◌↔◌, refl, ap, sym, ◌∙◌, Option, some, Bool, true, false, List,
  ◌==◌, bytes_eq_iff, arith, leb, Checked, accepted, rejected, accepted-injective,
  rejected-accepted, Option-cases, Bool-cases, leb→le, some-injective, inl, inr, if◌then◌else◌,
}
use mathlib.Core.Path.{subst}
use cyclonedds_rs.Bench.{BenchmarkCase, BenchmarkMessage, ResolvedCase, make_message, BenchError}
use cyclonedds_rs.Bench.Results.{ResultRecord, Status, ok, error}
use cyclonedds_rs.Bench.Runner.{
  message_eq, CdrState, tally, cdr_loop, cdr_record, cdr_recorded, run_cdr,
}

message_eq_iff : (a b : BenchmarkMessage) → (message_eq a b ≡ true) ↔ (a ≡ b)
unfolding message_eq
message_eq_iff a b = (
  (λ h. ground (arith, bytes_eq_iff a.payload b.payload)),
  λ h. ground (arith, bytes_eq_iff a.payload b.payload),
)

module _ (serialize : BenchmarkMessage → Option (List ℕ))
    (deserialize : List ℕ → Option BenchmarkMessage) (clock : ℕ → ℕ × ℕ) (warmup bytes : ℕ) where
  -- Of the messages from `sequence` on, `left` of them, those past the warm-up come back from the
  -- codec as they are.
  abbrev pub ComeBack : ℕ → ℕ → Type 0
  ComeBack sequence left =
      (k : ℕ)
      → warmup ≤ k
      → sequence ≤ k
      → k < sequence + left
      → (encoded : List ℕ) × (serialize (make_message k bytes 0) ≡ some encoded)
        × (deserialize encoded ≡ some (make_message k bytes 0))

  -- One round of the loop.
  cdr_loop-round :
      (sequence left : ℕ) (st after : CdrState)
      → cdr_loop serialize deserialize clock warmup bytes sequence (suc left) st ≡ accepted after
      → (encoded : List ℕ) × (decoded : BenchmarkMessage) × (serialize
            (make_message sequence bytes 0)
          ≡ some encoded)
        × (deserialize encoded ≡ some decoded)
        × (cdr_loop serialize deserialize clock warmup bytes (suc sequence) left (
              tally serialize deserialize clock warmup sequence
                (make_message sequence bytes 0)
                encoded
                decoded
                st)
            ≡ accepted after)
  unfolding cdr_loop
  cdr_loop-round sequence left st after e =
      elim (Option-cases (serialize (make_message sequence bytes 0))) [
        | inl failed ↦ absurd (rejected-accepted (rw (failed, cdr_loop) at e))
        | inr (encoded, se) ↦ elim (Option-cases (deserialize encoded)) [
          | inl failed ↦ absurd (rejected-accepted (rw (se, failed, cdr_loop) at e))
          | inr (decoded, de) ↦ (encoded, decoded, se, de, rw (se, de, cdr_loop) at e)
        ]
      ]

  tally-ok :
      (sequence : ℕ) (message decoded : BenchmarkMessage) (encoded : List ℕ) (st : CdrState)
      → (tally serialize deserialize clock warmup sequence message encoded decoded st).roundtrip_ok
        ≡ true
      → (st.roundtrip_ok ≡ true) × (warmup ≤ sequence → decoded ≡ message)
  unfolding tally
  tally-ok sequence message decoded encoded st e =
      (ground arith, λ h. (message_eq_iff decoded message).0 (ground arith))

  ok-tally :
      (sequence : ℕ) (message decoded : BenchmarkMessage) (encoded : List ℕ) (st : CdrState)
      → st.roundtrip_ok ≡ true
      → (warmup ≤ sequence → decoded ≡ message)
      → (tally serialize deserialize clock warmup sequence message encoded decoded st).roundtrip_ok
        ≡ true
  unfolding tally
  ok-tally sequence message decoded encoded st o h = elim (Bool-cases (leb warmup sequence)) [
    | inl measured ↦
        rw (measured, (message_eq_iff decoded message).1 (h (leb→le warmup sequence measured))) o
    | inr warm ↦ rw warm o
  ]

  -- The loop ends without complaint just when it had none before and all messages come back.
  cdr_loop-ComeBack :
      (sequence left : ℕ) (st after : CdrState)
      → cdr_loop serialize deserialize clock warmup bytes sequence left st ≡ accepted after
      → after.roundtrip_ok ≡ true
      → (st.roundtrip_ok ≡ true) × ComeBack sequence left
  unfolding cdr_loop
  cdr_loop-ComeBack sequence zero st after e o =
      (rw (accepted-injective e) o, λ k w a b. absurd (omega arith))
  cdr_loop-ComeBack sequence (suc left) st after e o =
      let message = make_message sequence bytes 0 in
      let (encoded, decoded, se, de, next) = cdr_loop-round sequence left st after e in
      let (o', back) =
        cdr_loop-ComeBack (suc sequence) left
          (tally serialize deserialize clock warmup sequence message encoded decoded st) after next
          o in
      let (o'', same) = tally-ok sequence message decoded encoded st o' in
      (
        o'',
        λ k w a b. elim (Bool-cases (sequence == k)) [
          | inl here ↦
              let e' : sequence ≡ k = ground arith in
              subst
                (λ j.
                  (x : List ℕ) × (serialize (make_message j bytes 0) ≡ some x)
                  × (deserialize x ≡ some (make_message j bytes 0)))
                e' (encoded, se, de ∙ ap some (same (omega arith)))
          | inr later ↦ back k w (ground arith) (omega arith)
        ],
      )

  ComeBack-cdr_loop :
      (sequence left : ℕ) (st after : CdrState)
      → cdr_loop serialize deserialize clock warmup bytes sequence left st ≡ accepted after
      → st.roundtrip_ok ≡ true
      → ComeBack sequence left
      → after.roundtrip_ok ≡ true
  unfolding cdr_loop
  ComeBack-cdr_loop sequence zero st after e o back = rw (← accepted-injective e) o
  ComeBack-cdr_loop sequence (suc left) st after e o back =
      let message = make_message sequence bytes 0 in
      let (encoded, decoded, se, de, next) = cdr_loop-round sequence left st after e in
      let same : warmup ≤ sequence → decoded ≡ message = λ w.
        let (encoded', se', de') = back sequence w (omega arith) (omega arith) in
        some-injective (sym de ∙ ap deserialize (some-injective (sym se ∙ se')) ∙ de') in
      ComeBack-cdr_loop (suc sequence) left
        (tally serialize deserialize clock warmup sequence message encoded decoded st) after next
        (ok-tally sequence message decoded encoded st o same)
        (λ k w a b. back k w (omega arith) (omega arith))

module _ (serialize : BenchmarkMessage → Option (List ℕ))
    (deserialize : List ℕ → Option BenchmarkMessage) (clock : ℕ → ℕ × ℕ) where
  cdr_recorded-state :
      (c : BenchmarkCase) (resolved : ResolvedCase) (end' : Checked BenchError CdrState)
      (r : ResultRecord)
      → cdr_recorded serialize deserialize clock c resolved end' ≡ accepted r
      → (st : CdrState) × (end' ≡ accepted st)
        × ((if st.roundtrip_ok then ok else error) ≡ r.status)
        × (some st.roundtrip_ok ≡ r.roundtrip_ok)
  unfolding cdr_recorded cdr_record
  cdr_recorded-state c resolved (rejected e') r e = absurd (rejected-accepted e)
  cdr_recorded-state c resolved (accepted st) r e = (
    st,
    refl,
    ap (λ (x : ResultRecord). x.status) (accepted-injective e),
    ap (λ (x : ResultRecord). x.roundtrip_ok) (accepted-injective e),
  )

  ok-true : (b : Bool) (s : Status) → (if b then ok else error) ≡ s → s ≡ ok → b ≡ true
  ok-true true s e o = refl
  ok-true false s e o = absurd (cc)

  -- When no call of the codec fails, so that `run_cdr` returns a record, its status is ok just when
  -- every message past the warm-up is decoded as it was before it was encoded.
  pub run_cdr-ok_iff :
      (c : BenchmarkCase) (resolved : ResolvedCase) (r : ResultRecord)
      → run_cdr serialize deserialize clock c resolved ≡ accepted r
      → (r.status ≡ ok)
        ↔ ComeBack serialize deserialize clock c.warmup_messages resolved.payload_bytes 0
            (c.warmup_messages + c.measured_messages)
  unfolding run_cdr
  run_cdr-ok_iff c resolved r e =
      let start : CdrState = record {
        serialize_elapsed_ns = 0;
        deserialize_elapsed_ns = 0;
        roundtrip_ok = true;
        serialized_bytes = resolved.serialized_bytes;
      } in
      let total = c.warmup_messages + c.measured_messages in
      let loop =
        cdr_loop serialize deserialize clock c.warmup_messages resolved.payload_bytes 0 total
          start in
      let (st, looped, status, flag) = cdr_recorded-state c resolved loop r e in
      (
        (λ o.
            (cdr_loop-ComeBack serialize deserialize clock c.warmup_messages resolved.payload_bytes
              0 total start st looped (ok-true st.roundtrip_ok r.status status o)).1),
        λ back.
            sym status
            ∙ ap (λ (b : Bool). if b then ok else error)
                (ComeBack-cdr_loop serialize deserialize clock c.warmup_messages
                  resolved.payload_bytes 0 total start st looped refl back),
      )
