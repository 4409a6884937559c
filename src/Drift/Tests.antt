-- ===== src/Drift/Tests.antt =====
-- Runs of internal/drift on small inputs, and the theorems at them.
use reeve.Prelude.{
  ℕ, ◌≡◌, refl, false, List, [], ◌∷◌, none, some, String, arith, pos, select, map, str_eq, Bool,
  true, ◌*◌, second, if◌then◌else◌, ◌==◌,
}
use reeve.Drift.State.{
  State, Result, Outcome, no_drift, drifted, error, detected, ongoing, resolved, check_failed,
  classify, damp_notification,
}
use reeve.Drift.Settle.{Options, settle, announced}
use reeve.Drift.Errors.{events}
use reeve.Drift.Alerts.{alerts, Spaced, alerts-Spaced}
use reeve.Drift.Retry.{
  Attempt, err_transient_network, classify_drift_error, check_retried, check_from, retried, backoff,
  double_wait,
}
use reeve.Drift.Retries.{Ends, check_retried-Ends}
use reeve.Drift.Wildcard.{Bytes, wildcard_match, matches_any, match_from}
use reeve.Drift.Glob.Decides.{wildcard_match-glob}
use reeve.Drift.Filter.{
  Classification, ResourceChange, filter, filter_from, verdict, retained_paths, ignored_props_for,
}
use reeve.Drift.Noise.{strip}

abbrev new : State
new = record {
  project = "net";
  stack = "prod";
  last_outcome = none;
  last_checked_at = 0;
  last_successful_at = 0;
  ongoing_since = 0;
  fingerprint = "";
  consecutive_errors = 0;
  last_notified_at = 0;
}

abbrev check : Outcome → String → ℕ → Result
check o f t = record {
  project = "net";
  stack = "prod";
  outcome = o;
  fingerprint = f;
  checked_at = t;
  error_message = "";
}

abbrev flapping : List Result
flapping =
    check drifted "a" 10
    ∷ check error "" 20
    ∷ check drifted "a" 30
    ∷ check no_drift "" 40
    ∷ check drifted "a" 50
    ∷ check drifted "a" 120
    ∷ []

flapping-events :
    events new flapping ≡ detected ∷ check_failed ∷ ongoing ∷ resolved ∷ detected ∷ ongoing ∷ []
unfolding events classify
flapping-events = refl

abbrev damped : Options
damped = record { bootstrap_mode = ""; renotify_after = pos 100; permanently_suppressed = false }

flapping-alerts : alerts damped new flapping ≡ 10 ∷ 120 ∷ []
unfolding alerts settle announced damp_notification classify
flapping-alerts = refl

alerts-Spaced_example : Spaced 100 0 (alerts damped new flapping)
alerts-Spaced_example = alerts-Spaced damped 100 new flapping refl (omega arith) refl (omega arith)

-- Drift since 50, never announced: its end is not announced either.
abbrev quiet : State
quiet = record new {
  last_outcome = some drifted;
  last_checked_at = 60;
  ongoing_since = 50;
  last_notified_at = 10;
}

abbrev throttled : ℕ → Bool → Attempt
throttled n rebound = record {
  failure = if n == 0 then "ThrottlingException: Rate exceeded" else "";
  timed_out = false;
  cancelled = false;
}

throttling_is_network : classify_drift_error "ThrottlingException" ≡ err_transient_network
unfolding classify_drift_error
throttling_is_network = refl

retried_once : (check_retried throttled (λ n. true) 3).retries ≡ 1
unfolding check_retried check_from retried classify_drift_error
retried_once = refl

third_wait : backoff (pos (2 * second)) 3 ≡ some (8 * second)
unfolding backoff double_wait
third_wait = refl

check_retried-Ends_example : Ends throttled (λ n. true) 3 (check_retried throttled (λ n. true) 3)
check_retried-Ends_example = check_retried-Ends throttled (λ n. true) 3

abbrev tags : Classification
tags = record {
  ignore_properties =
      record { resource_type = b'a' ∷ b'*' ∷ []; properties = (b't' ∷ b'?' ∷ []) ∷ [] } ∷ [];
  ignore_resources = [];
  treat_orphaned_as_drift = true;
  treat_missing_as_drift = false;
}

abbrev changed : List ResourceChange
changed =
    record {
      address = b'x' ∷ [];
      kind = b'a' ∷ b'/' ∷ b'b' ∷ [];
      op = "update";
      paths = (b't' ∷ b'1' ∷ []) ∷ (b'u' ∷ []) ∷ [];
      category = "changed";
    }
    ∷ record { address = b'y' ∷ []; kind = []; op = "create"; paths = []; category = "missing" }
    ∷ []

tags_filtered :
    filter (some tags) changed
    ≡ (map (strip tags) (select (λ r. str_eq r.op "update") changed), true)
unfolding filter filter_from verdict retained_paths ignored_props_for matches_any wildcard_match
    match_from
tags_filtered = refl

abbrev aws_any : Bytes
aws_any = b'a' ∷ b'*' ∷ b':' ∷ b'?' ∷ []

wildcard_match-glob_example : wildcard_match aws_any (b'a' ∷ b'/' ∷ b':' ∷ b':' ∷ b'x' ∷ []) ≡ true
wildcard_match-glob_example =
    wildcard_match-glob aws_any (b'a' ∷ b'/' ∷ b':' ∷ b':' ∷ b'x' ∷ []) refl
