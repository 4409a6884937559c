-- ===== src/Notify.antt =====
-- internal/notify: the payloads of notifications (notify.go), their grouping for a channel (grouping.go) and
-- their dispatch (dispatch.go).
pub mod Groups
pub mod Clean
mod Tests
use reeve.Prelude.{
  ℕ, ◌+◌, Bool, true, false, not, ◌&&◌, ◌||◌, List, [], ◌∷◌, ◌++◌, map, Option, none, some, String,
  if◌then◌else◌, any, is_empty, is_blank, str_eq,
}

-- What is known of a stack's check.
pub record DriftPayload : Type 0 where
  pub project : String
  pub stack : String
  pub env : String
  pub outcome : String
  pub add : ℕ
  pub change : ℕ
  pub delete : ℕ
  pub replace : ℕ
  pub plan_summary : String
  pub fingerprint : String
  pub error : String
  pub run_id : String

pub record StackResult : Type 0 where
  pub project : String
  pub stack : String
  pub env : String
  pub status : String
  pub add : ℕ
  pub change : ℕ
  pub delete : ℕ
  pub replace : ℕ

pub record PrPayload : Type 0 where
  pub pr : ℕ
  pub commit_sha : String
  pub run_id : String
  pub run_url : String
  pub title : String
  pub author : String
  pub repo_full : String
  pub required_approvers : List String
  pub stacks : List StackResult
  pub plan_requested : Bool

pub record Payload : Type 0 where
  pub event : String
  pub drift : Option DriftPayload
  pub pr : Option PrPayload
  pub group : List DriftPayload
  pub group_key : String

abbrev pub groupable_event : String → Bool
groupable_event e =
    str_eq e "drift_detected" || str_eq e "drift_ongoing" || str_eq e "drift_resolved"

-- Whether a payload of the output stands in the index under the event and the environment.
abbrev pub has_group : String → String → Payload → Bool
has_group event env g =
    not (is_empty g.group)
    && str_eq g.event event
    && elim g.drift [ none ↦ false | some d ↦ str_eq d.env env ]

-- Join the group of the payload, or begin one behind the others.
unfoldable pub join_group : Payload → DriftPayload → List Payload → List Payload
join_group p d [] = record p { group_key = d.env; group = d ∷ [] } ∷ []
join_group p d (g ∷ out) =
    let rest = join_group p d out in
    if has_group p.event d.env g then record g { group = g.group ++ (d ∷ []) } ∷ out else g ∷ rest

unfoldable pub add_payload : Payload → List Payload → List Payload
add_payload p out = elim p.drift [
  | none ↦ out ++ (p ∷ [])
  | some d ↦ if groupable_event p.event then join_group p d out else out ++ (p ∷ [])
]

unfoldable pub group_from : List Payload → List Payload → List Payload
group_from out [] = out
group_from out (p ∷ payloads) = group_from (add_payload p out) payloads

unfoldable pub group_payloads : List Payload → String → List Payload
group_payloads payloads mode =
    if is_blank mode || str_eq mode "none" then payloads else group_from [] payloads

-- How the delivery of a payload ends: with the run cancelled before it, by its timeout, with an error, or
-- well.
pub data Delivery : Type 0 where
  cancelled timed_out delivered : Delivery
  refused : String → Delivery

-- A channel, with its grouping mode if it has one, and how its deliveries end, by their number and payload.
pub record Channel : Type 0 where
  pub name : String
  pub subscribes : List String
  pub grouping_mode : Option String
  pub deliver : ℕ → Payload → Delivery

pub data Error : Type 0 where
  channel_cancelled : String → Error
  channel_timed_out : String → String → Error
  channel_refused : String → String → String → Error

abbrev pub subscribed : List String → String → Bool
subscribed subs ev = any (λ w. str_eq w ev) subs

abbrev pub for_channel : Channel → List Payload → List Payload
for_channel c payloads = elim c.grouping_mode [
  | none ↦ payloads
  | some mode ↦ group_payloads payloads mode
]

-- The loop of one channel from its n-th delivery: what it delivered, and its errors.
unfoldable pub deliver_from : Channel → ℕ → List Payload → List Payload × List Error
deliver_from c n [] = ([], [])
deliver_from c n (p ∷ payloads) = elim (subscribed c.subscribes p.event) [
  | false ↦ deliver_from c n payloads
  | true ↦ elim (c.deliver n p) [
    | cancelled ↦ ([], channel_cancelled c.name ∷ [])
    | timed_out ↦ ([], channel_timed_out c.name p.event ∷ [])
    | refused e ↦
        let rest = deliver_from c (n + 1) payloads in
        (rest.0, channel_refused c.name p.event e ∷ rest.1)
    | delivered ↦ let rest = deliver_from c (n + 1) payloads in (p ∷ rest.0, rest.1)
  ]
]

-- The channels run concurrently, so their errors come in any order; here they stand channel by channel.
unfoldable pub dispatch : List Channel → List Payload → List (List Payload) × List Error
dispatch [] payloads = ([], [])
dispatch (c ∷ channels) payloads =
    let one = deliver_from c 0 (for_channel c payloads) in
    let rest = dispatch channels payloads in (one.0 ∷ rest.0, one.1 ++ rest.1)
