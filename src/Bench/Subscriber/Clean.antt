-- ===== src/Bench/Subscriber/Clean.antt =====
-- bench/src/bin/subscriber.rs: the state while the messages come in order.
use cyclonedds_rs.Common.{
  ℕ, suc, ◌-◌, ◌*◌, ◌≤◌, ◌<◌, ◌≡◌, refl, ap, ◌∙◌, none, some, true, false, List, [], ◌∷◌, ◌++◌, ltb,
  leb, if◌then◌else◌, length, length-append, arith, bytes_eq_iff, Bool-cases, leb→le, leb→lt, inl,
  inr,
}
use cyclonedds_rs.Bench.{BenchmarkMessage, make_message}
use cyclonedds_rs.Bench.Latency.{u64_mod}
use cyclonedds_rs.Bench.Latency.Sorting.{AllBelow}
use cyclonedds_rs.Bench.Publisher.Laws.{length-payload}
use cyclonedds_rs.Bench.Subscriber.{
  Received, ReceiveState, initial, contains, falls_behind, count_sample, check_payload, measure,
  on_sample,
}

-- The state after the messages below `k`.
pub record IsClean (warmup bytes k : ℕ) (st : ReceiveState) : Type 0 where
  pub received : st.messages_received ≡ k
  pub bytes_received : st.bytes_received ≡ k * bytes
  pub no_duplicate : st.duplicate ≡ 0
  pub in_order : st.out_of_order ≡ 0
  pub no_error : st.payload_error ≡ none
  pub last : (j : ℕ) → k ≤ j → falls_behind st.last_sequence j ≡ false
  pub seen : (j : ℕ) → contains j st.seen ≡ ltb j k
  pub seen_length : length st.seen ≡ k
  pub measured : length st.latencies ≡ k - warmup
  pub bounded : AllBelow (u64_mod - 1) st.latencies

AllBelow-append : (m x : ℕ) (xs : List ℕ) → AllBelow m xs → x ≤ m → AllBelow m (xs ++ (x ∷ []))
AllBelow-append m x [] a h = (h, tt)
AllBelow-append m x (y ∷ xs) a h = (a.0, AllBelow-append m x xs a.1 h)

-- The sample of a message, looked at at an instant.
abbrev pub delivered : ℕ → BenchmarkMessage → Received
delivered at message = record { message = message; is_valid = true; received_at = at }

pub initial-IsClean : (warmup bytes : ℕ) → IsClean warmup bytes 0 initial
unfolding contains
initial-IsClean warmup bytes = record {
  received = refl;
  bytes_received = omega arith;
  no_duplicate = refl;
  in_order = refl;
  no_error = refl;
  last = λ j h. refl;
  seen = λ j. ground arith;
  seen_length = refl;
  measured = omega arith;
  bounded = tt;
}

module _ (warmup total bytes k sent at : ℕ) (st : ReceiveState)
    (c : IsClean warmup bytes k st) where
  abbrev message : BenchmarkMessage
  message = make_message k bytes sent

  count_sample-fresh : (count_sample st message).seen ≡ k ∷ st.seen
  unfolding count_sample make_message
  count_sample-fresh = ground (arith, c.seen k)

  count_sample-IsClean :
      ((count_sample st message).messages_received ≡ suc k)
      × ((count_sample st message).bytes_received ≡ suc k * bytes)
      × ((count_sample st message).duplicate ≡ 0)
      × ((count_sample st message).out_of_order ≡ 0)
      × ((count_sample st message).payload_error ≡ none)
      × ((count_sample st message).last_sequence ≡ some k)
      × ((count_sample st message).latencies ≡ st.latencies)
  unfolding count_sample make_message
  count_sample-IsClean = (
    omega (arith, c.received),
    rw (length-payload k bytes sent, c.bytes_received) (grind arith),
    ground (arith, c.seen k, c.no_duplicate),
    ground (arith, c.last k, c.in_order),
    c.no_error,
    refl,
    refl,
  )

  check_payload-clean :
      (counted : ReceiveState) → check_payload warmup total bytes counted message ≡ counted
  unfolding check_payload make_message
  check_payload-clean counted =
      let same =
        (bytes_eq_iff (make_message k bytes sent).payload (make_message k bytes sent).payload).1
          refl in
      ground (arith, same)

  measure-latencies :
      (counted : ReceiveState)
      → k < total
      → sent ≤ at
      → ((measure warmup total bytes counted (delivered at message)).payload_error
          ≡ counted.payload_error)
        × ((measure warmup total bytes counted (delivered at message)).latencies
            ≡ (if leb warmup k then counted.latencies ++ ((at - sent) ∷ []) else counted.latencies))
  unfolding measure make_message
  measure-latencies counted h o = ground arith

  measure-counts :
      (counted : ReceiveState)
      → ((measure warmup total bytes counted (delivered at message)).messages_received
          ≡ counted.messages_received)
        × ((measure warmup total bytes counted (delivered at message)).bytes_received
            ≡ counted.bytes_received)
        × ((measure warmup total bytes counted (delivered at message)).duplicate
            ≡ counted.duplicate)
        × ((measure warmup total bytes counted (delivered at message)).out_of_order
            ≡ counted.out_of_order)
        × ((measure warmup total bytes counted (delivered at message)).last_sequence
            ≡ counted.last_sequence)
        × ((measure warmup total bytes counted (delivered at message)).seen ≡ counted.seen)
  unfolding measure
  measure-counts counted = ground arith

  -- The next message keeps the state clean.
  pub on_sample-IsClean :
      k < total
      → sent ≤ at
      → at < u64_mod
      → IsClean warmup bytes (suc k) (on_sample warmup total bytes st (delivered at message))
  unfolding on_sample contains
  on_sample-IsClean h o small =
      let counted = count_sample st message in
      let (r, b, d, i, e, l, lat) = count_sample-IsClean in
      let (r', b', d', i', l', s') = measure-counts counted in
      let (e', lat') = measure-latencies counted h o in
      rw (check_payload-clean counted) (record {
        received = r' ∙ r;
        bytes_received = b' ∙ b;
        no_duplicate = d' ∙ d;
        in_order = i' ∙ i;
        no_error = e' ∙ e;
        last = λ j p. rw (l' ∙ l) (ground arith);
        seen = λ j. rw (s' ∙ count_sample-fresh) (ground (arith, c.seen j));
        seen_length = ap length (s' ∙ count_sample-fresh) ∙ ap suc c.seen_length;
        measured =
            rw (lat', lat)
              (elim (Bool-cases (leb warmup k)) [
                | inl e ↦ rw e (
                    omega (
                      arith,
                      length-append st.latencies ((at - sent) ∷ []),
                      c.measured,
                      leb→le warmup k e,
                    ))
                | inr e ↦ rw e (omega (arith, c.measured, leb→lt warmup k e))
              ]);
        bounded =
            rw (lat', lat)
              (elim (Bool-cases (leb warmup k)) [
                | inl e ↦ rw e (AllBelow-append _ (at - sent) st.latencies c.bounded (omega arith))
                | inr e ↦ rw e c.bounded
              ]);
      })
