-- ===== src/Drift/Pending.antt =====
-- internal/drift/pending.go: the markers of notifications that have not been delivered.
use reeve.Prelude.{
  Bool, true, false, not, List, [], ◌∷◌, ◌++◌, Option, none, some, String, if◌then◌else◌, any,
  is_empty, str_eq, append, select,
}
use reeve.Notify as notify
use reeve.Notify.{DriftPayload, Payload, Channel, dispatch}

abbrev pub pending_key : String → String → String → String
pending_key project stack event =
    append "drift/pending-events/"
      (append project (append "/" (append stack (append "/" (append event ".json")))))

-- The key of a payload's marker, for a payload with drift.
abbrev pub marker : Payload → Option String
marker p = elim p.drift [ none ↦ none | some d ↦ some (pending_key d.project d.stack p.event) ]

abbrev pub has_marker : String → Payload → Bool
has_marker k p = elim (marker p) [ none ↦ false | some j ↦ str_eq j k ]

-- `seen` of the current payloads.
abbrev pub is_superseded : List Payload → Payload → Bool
is_superseded current p = elim (marker p) [ none ↦ true | some k ↦ any (has_marker k) current ]

unfoldable pub merge_pending : List Payload → List Payload → List Payload
merge_pending [] current = current
merge_pending (p ∷ pending) current =
    select (λ q. not (is_superseded current q)) (p ∷ pending) ++ current

-- blob.Store, as far as markers use it: whether a write or a removal succeeded, and the state after it.
pub record Markers (World : Type 0) : Type 0 where
  pub put : String → Payload → World → Bool × World
  pub delete : String → World → Bool × World
  pub holds : String → World → Bool

-- What DispatchDurable reports, and what has been delivered channel by channel.
pub record Dispatched (World : Type 0) : Type 0 where
  pub sent : List (List Payload)
  pub unsaved : List Payload
  pub failures : List notify.Error
  pub uncleared : List Payload
  pub world : World

module _ {World : Type 0} (markers : Markers World) where
  unfoldable pub save : Payload → World → Bool × World
  save p w = elim (marker p) [ none ↦ (true, w) | some k ↦ markers.put k p w ]

  -- The payloads whose markers could not be written, and the state after the writes.
  unfoldable pub save_all : List Payload → World → List Payload × World
  save_all [] w = ([], w)
  save_all (p ∷ payloads) w =
      let one = save p w in
      let rest = save_all payloads one.1 in (if one.0 then rest.0 else p ∷ rest.0, rest.1)

  unfoldable pub clear : Payload → World → Bool × World
  clear p w = elim (marker p) [ none ↦ (true, w) | some k ↦ markers.delete k w ]

  unfoldable pub clear_all : List Payload → World → List Payload × World
  clear_all [] w = ([], w)
  clear_all (p ∷ payloads) w =
      let one = clear p w in
      let rest = clear_all payloads one.1 in (if one.0 then rest.0 else p ∷ rest.0, rest.1)

  -- The channels are given by the state in which they deliver, on which the answer of a delivery may depend:
  -- it shows when they deliver.
  unfoldable pub dispatch_durable : (World → List Channel) → List Payload → World → Dispatched World
  dispatch_durable channels payloads w =
      let saved = save_all payloads w in
      let delivery = dispatch (channels saved.1) payloads in
      let cleared = clear_all payloads saved.1 in
      if is_empty delivery.1
      then record {
        sent = delivery.0;
        unsaved = saved.0;
        failures = delivery.1;
        uncleared = cleared.0;
        world = cleared.1;
      }
      else record {
        sent = delivery.0;
        unsaved = saved.0;
        failures = delivery.1;
        uncleared = [];
        world = saved.1;
      }
