-- ===== src/Drift/Settle.antt =====
-- internal/drift/runner.go, the end of runOne: what a finished check stores and announces. The
-- stores and the engine are outside; `prev` is the state that was loaded.
use reeve.Prelude.{
  ℕ, ltb, Bool, true, false, not, ◌&&◌, String, if◌then◌else◌, ℤ, is_zero_time, str_eq,
}
use reeve.Drift.State.{
  State, Result, Outcome, no_drift, drifted, error, Event, check_failed, silent, classify,
  damp_notification,
}

-- The options that the end of a check reads.
pub record Options : Type 0 where
  pub bootstrap_mode : String
  pub renotify_after : ℤ
  pub permanently_suppressed : Bool

pub record Item : Type 0 where
  pub event : Event
  pub notify_event : Event
  pub check_recovered : Bool
  pub ongoing_since : ℕ

-- What a check returned: a failure, or the number of drifted resources.
unfoldable pub outcome_of : Bool → Bool → ℕ → Outcome
outcome_of timed_out failed total =
    if timed_out
    then error
    else (if failed then error else (if ltb 0 total then drifted else no_drift))

abbrev pub is_check_failed : Event → Bool
is_check_failed check_failed = true
is_check_failed _ = false

abbrev pub is_error : Outcome → Bool
is_error error = true
is_error _ = false

-- The classification, silent on the first check when a baseline is recorded.
unfoldable pub announced : Options → State → Result → Event
announced opts prev cur =
    let ev = (classify prev cur).0 in
    if is_zero_time prev.last_checked_at
      && str_eq opts.bootstrap_mode "baseline"
      && not (is_check_failed ev)
    then silent
    else ev

unfoldable pub settle : Options → State → Result → ℕ → Item × State
unfolding announced
settle opts prev cur now =
    let next = (classify prev cur).1 in
    let ev = announced opts prev cur in
    let (notify_ev, notified) = damp_notification prev ev now opts.renotify_after in
    let hushed = opts.permanently_suppressed && not (is_check_failed ev) in
    (
      record {
        event = if hushed then silent else ev;
        notify_event = if hushed then silent else notify_ev;
        check_recovered = ltb 0 prev.consecutive_errors && not (is_error cur.outcome);
        ongoing_since = next.ongoing_since;
      },
      (if notified then record next { last_notified_at = now } else next),
    )
