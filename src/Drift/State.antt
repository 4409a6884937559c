-- ===== src/Drift/State.antt =====
-- internal/drift/state.go: the state of a stack, the classification of a check, and flap damping.
-- An instant is a number of nanoseconds, 0 for Go's zero time; the zero value of an Outcome is `none`.
use reeve.Prelude.{
  ℕ, ◌+◌, Bool, true, false, not, ◌&&◌, ◌||◌, Option, some, String, if◌then◌else◌, ℤ, is_positive,
  is_zero_time, lt_int, sub_time, ltb, str_eq,
}

pub data Outcome : Type 0 where
  no_drift drifted error skipped_fresh : Outcome

pub data Event : Type 0 where
  detected ongoing resolved check_failed check_recovered silent : Event

pub record State : Type 0 where
  pub project : String
  pub stack : String
  pub last_outcome : Option Outcome
  pub last_checked_at : ℕ
  pub last_successful_at : ℕ
  pub ongoing_since : ℕ
  pub fingerprint : String
  pub consecutive_errors : ℕ
  pub last_notified_at : ℕ

pub record Result : Type 0 where
  pub project : String
  pub stack : String
  pub outcome : Outcome
  pub fingerprint : String
  pub checked_at : ℕ
  pub error_message : String

unfoldable pub parse_event_name : String → Event × Bool
parse_event_name s =
    if str_eq s "drift_detected"
    then (detected, true)
    else (if str_eq s "drift_ongoing"
        then (ongoing, true)
        else (if str_eq s "drift_resolved"
            then (resolved, true)
            else (if str_eq s "check_failed"
                then (check_failed, true)
                else (if str_eq s "check_recovered"
                    then (check_recovered, true)
                    else (silent, false)))))

abbrev pub is_drifted : Option Outcome → Bool
is_drifted (some drifted) = true
is_drifted _ = false

-- The state that Classify starts from.
abbrev carried : State → Result → State
carried prev cur = record {
  project = cur.project;
  stack = cur.stack;
  last_outcome = some cur.outcome;
  last_checked_at = cur.checked_at;
  last_successful_at = prev.last_successful_at;
  ongoing_since = prev.ongoing_since;
  fingerprint = prev.fingerprint;
  consecutive_errors = prev.consecutive_errors;
  last_notified_at = prev.last_notified_at;
}

classify_as : Outcome → State → Result → State → Event × State
classify_as error prev cur next = (
  check_failed,
  record next {
    last_outcome = prev.last_outcome;
    consecutive_errors = prev.consecutive_errors + 1;
  },
)
classify_as no_drift prev cur next = (
  (if is_drifted prev.last_outcome then resolved else silent),
  record next {
    consecutive_errors = 0;
    last_successful_at = cur.checked_at;
    fingerprint = "";
    ongoing_since = 0;
  },
)
classify_as drifted prev cur next =
    let next' = record next {
      consecutive_errors = 0;
      last_successful_at = cur.checked_at;
      fingerprint = cur.fingerprint;
    } in
    if not (is_drifted prev.last_outcome)
    then (detected, record next' { ongoing_since = cur.checked_at })
    else (
      (if not (str_eq cur.fingerprint prev.fingerprint) then detected else ongoing),
      (if is_zero_time prev.ongoing_since
          then record next' { ongoing_since = cur.checked_at }
          else next'),
    )
classify_as skipped_fresh prev cur next = (silent, next)

unfoldable pub classify : State → Result → Event × State
unfolding classify_as
classify prev cur = classify_as cur.outcome prev cur (carried prev cur)

unfoldable pub damp_notification : State → Event → ℕ → ℤ → Event × Bool
damp_notification prev detected now renotify =
    if is_positive renotify
      && not (is_zero_time prev.last_notified_at)
      && lt_int (sub_time now prev.last_notified_at) renotify
    then (silent, false)
    else (detected, true)
damp_notification prev ongoing now renotify =
    if not (is_positive renotify)
    then (ongoing, false)
    else (if is_zero_time prev.last_notified_at
          || not (lt_int (sub_time now prev.last_notified_at) renotify)
        then (detected, true)
        else (silent, false))
damp_notification prev resolved now renotify =
    if is_zero_time prev.last_notified_at || not (ltb prev.last_notified_at prev.ongoing_since)
    then (resolved, false)
    else (silent, false)
damp_notification prev ev now renotify = (ev, false)
