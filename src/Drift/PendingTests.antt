-- ===== src/Drift/PendingTests.antt =====
-- Runs of internal/drift/pending.go over a list of keys as the store, and the theorems at them.
use reeve.Prelude.{
  ◌≡◌, refl, true, not, List, [], ◌∷◌, none, some, String, any, select, map, str_eq, str_eq_refl,
  if◌then◌else◌, arith, ◌⊎◌,
}
use reeve.Notify.{Payload, Channel, Delivery, delivered, timed_out, deliver_from, dispatch}
use reeve.Notify.Clean.{due}
use reeve.Drift.Pending.{
  has_marker, Markers, Dispatched, save, save_all, clear, clear_all, dispatch_durable,
}
use reeve.Drift.Durable.{IsKept, dispatch_durable_keeps}

abbrev listed : Markers (List String)
listed = record {
  put = λ k p w. (true, k ∷ w);
  delete = λ k w. (true, select (λ j. not (str_eq j k)) w);
  holds = λ k w. any (λ j. str_eq j k) w;
}

listed-IsKept : IsKept listed
listed-IsKept = record {
  put_holds = λ k p w s. ground (arith, str_eq_refl k);
  put_keeps = λ j k p w h. ground (arith, h);
}

abbrev told : String → String → Payload
told event stack = record {
  event = event;
  drift = some (record {
    project = "net";
    stack = stack;
    env = "prod";
    outcome = "drift_detected";
    add = 0;
    change = 1;
    delete = 0;
    replace = 0;
    plan_summary = "";
    fingerprint = "f";
    error = "";
    run_id = "r";
  });
  pr = none;
  group = [];
  group_key = "";
}

abbrev chat : Delivery → Channel
chat ending = record {
  name = "chat";
  subscribes = "drift_detected" ∷ [];
  grouping_mode = none;
  deliver = λ n p. ending;
}

abbrev a_key : String
a_key = "drift/pending-events/net/a/drift_detected.json"

timed_out_kept :
    (dispatch_durable listed (λ w. chat timed_out ∷ []) (told "drift_detected" "a" ∷ []) []).world
    ≡ a_key ∷ []
unfolding dispatch_durable save_all save dispatch deliver_from
timed_out_kept = refl

delivered_cleared :
    (dispatch_durable listed (λ w. chat delivered ∷ []) (told "drift_detected" "a" ∷ []) []).world
    ≡ []
unfolding dispatch_durable save_all save clear_all clear dispatch deliver_from
delivered_cleared = refl

-- A channel that fails where it does not find the marker.
abbrev watching : List String → List Channel
watching w = chat (if listed.holds a_key w then delivered else timed_out) ∷ []

abbrev watched : Dispatched (List String)
watched = dispatch_durable listed watching (told "drift_detected" "a" ∷ []) []

dispatch_durable_keeps_example :
    (any (has_marker a_key) watched.unsaved ≡ true)
    ⊎ ((u : List String) × (listed.holds a_key u ≡ true)
        × (watched.sent ≡ (dispatch (watching u) (told "drift_detected" "a" ∷ [])).0)
        × ((watched.sent ≡ map (due (told "drift_detected" "a" ∷ [])) (watching u))
            ⊎ (listed.holds a_key watched.world ≡ true)))
dispatch_durable_keeps_example =
    dispatch_durable_keeps listed listed-IsKept watching (told "drift_detected" "a" ∷ []) [] a_key
      refl
