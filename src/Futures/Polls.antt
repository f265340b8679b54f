-- ===== src/Futures/Polls.antt =====
-- What the future of cyclonedds/src/futures.rs returns when nothing interrupts a poll.
use cyclonedds_rs.Common.{ℕ, ◌≡◌, ◌↔◌, refl, none, some, true, false, arith}
use cyclonedds_rs.Error.{no_data, requested_deadline_missed, no_matched_writer}
use cyclonedds_rs.MatchWatch.{MatchWatch, is_absent_at, mark_notified}
use cyclonedds_rs.MatchWatch.History.{is_absent_at-mark_notified}
use cyclonedds_rs.Futures.{
  AtomicWaker, pending, ready_ok, ready_err, ReadNow, read_ok, read_err, ReaderShared,
  absent_writer_error, is_writer_absent, notify_absence, on_requested_deadline_missed, poll,
}

module _ (aw : AtomicWaker) where
  open aw use {Waker, Slot, empty, register, take, take-empty, take-register}

  -- A poll is pending exactly when there is no error to report, the read finds no data, and the
  -- writer is not known to be absent.
  pub poll-pending_iff :
      (shared : ReaderShared aw) (ctx : Waker) (now : ℕ) (result : ReadNow)
      → ((poll aw shared ctx now result).0 ≡ pending) ↔ (
          (shared.pending_error ≡ none)
          × (result ≡ read_err no_data)
          × (is_writer_absent aw shared now ≡ false))
  unfolding poll is_writer_absent absent_writer_error
  poll-pending_iff shared ctx now result = (ground arith, ground arith)

  -- A missed deadline is reported by the next poll, before any sample, and by that poll only: the
  -- one after it reports the sample.
  pub deadline_missed_once :
      (shared : ReaderShared aw) (ctx ctx' : Waker) (now later len : ℕ) (result : ReadNow)
      → let missed = (on_requested_deadline_missed aw shared).1 in
        let first = poll aw missed ctx now result in
        (first.0 ≡ ready_err requested_deadline_missed)
        × ((poll aw first.1 ctx' later (read_ok len)).0 ≡ ready_ok len)
  unfolding on_requested_deadline_missed poll
  deadline_missed_once shared ctx ctx' now later len result = (refl, refl)

  -- A sample at hand is returned although the writer is absent; with none at hand, an absent
  -- writer is reported by every poll, also by those after the watchdog's notification.
  pub absent_after_samples :
      (shared : ReaderShared aw) (w : MatchWatch) (ctx : Waker) (now later len : ℕ)
      → shared.pending_error ≡ none
      → shared.watch ≡ some w
      → is_absent_at w now ≡ true
      → is_absent_at w later ≡ true
      → let first = poll aw shared ctx now (read_ok len) in
        let second = poll aw first.1 ctx now (read_err no_data) in
        let third = poll aw (notify_absence aw second.1).1 ctx later (read_err no_data) in
        (first.0 ≡ ready_ok len)
        × (second.0 ≡ ready_err (no_matched_writer w.timeout))
        × (third.0 ≡ ready_err (no_matched_writer w.timeout))
  unfolding poll notify_absence absent_writer_error mark_notified
  absent_after_samples shared w ctx now later len p e a b =
      rw (p, e, a) (refl, refl, rw (is_absent_at-mark_notified w later, b) refl)
