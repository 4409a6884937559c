-- ===== src/Notify/Tests.antt =====
-- Runs of internal/notify on small inputs, and the theorems at them.
use reeve.Prelude.{◌==◌, ◌≡◌, refl, List, [], ◌∷◌, none, some, String, if◌then◌else◌}
use reeve.Notify.{
  DriftPayload, Payload, Channel, delivered, timed_out, channel_timed_out, join_group, add_payload,
  group_from, group_payloads, deliver_from, dispatch,
}

abbrev about : String → String → DriftPayload
about stack env = record {
  project = "net";
  stack = stack;
  env = env;
  outcome = "drift_detected";
  add = 0;
  change = 1;
  delete = 0;
  replace = 0;
  plan_summary = "";
  fingerprint = "f";
  error = "";
  run_id = "r";
}

abbrev told : String → DriftPayload → Payload
told event d = record { event = event; drift = some d; pr = none; group = []; group_key = "" }

abbrev found : List Payload
found =
    told "drift_detected" (about "a" "prod")
    ∷ told "check_failed" (about "b" "prod")
    ∷ told "drift_detected" (about "c" "prod")
    ∷ told "drift_detected" (about "d" "dev")
    ∷ []

abbrev grouped : List Payload
grouped =
    record {
      event = "drift_detected";
      drift = some (about "a" "prod");
      pr = none;
      group = about "a" "prod" ∷ about "c" "prod" ∷ [];
      group_key = "prod";
    }
    ∷ told "check_failed" (about "b" "prod")
    ∷ record {
      event = "drift_detected";
      drift = some (about "d" "dev");
      pr = none;
      group = about "d" "dev" ∷ [];
      group_key = "dev";
    }
    ∷ []

grouped_by_environment : group_payloads found "by_environment" ≡ grouped
unfolding group_payloads group_from add_payload join_group
grouped_by_environment = refl

abbrev chat : Channel
chat = record {
  name = "chat";
  subscribes = "drift_detected" ∷ [];
  grouping_mode = some "by_environment";
  deliver = λ n p. delivered;
}

abbrev slow : Channel
slow = record {
  name = "slow";
  subscribes = "drift_detected" ∷ "check_failed" ∷ [];
  grouping_mode = none;
  deliver = λ n p. if n == 1 then timed_out else delivered;
}

slow_stops : (dispatch (slow ∷ []) found).1 ≡ channel_timed_out "slow" "check_failed" ∷ []
unfolding dispatch deliver_from
slow_stops = refl

chat_errors : (dispatch (chat ∷ []) found).1 ≡ []
unfolding dispatch deliver_from group_payloads group_from add_payload join_group
chat_errors = refl
