-- ===== src/Notify/Groups.antt =====
-- internal/notify/grouping.go: grouping merges deliveries and nothing else.
use reeve.Prelude.{
  ℕ, ◌+◌, ◌≤◌, ◌≡◌, refl, ◌∙◌, ap, inl, inr, ◌==◌, Bool, true, false, ◌&&◌, List, [], ◌∷◌, ◌++◌,
  Option, some, String, if◌then◌else◌, is_empty, str_eq, str_eq_iff, arith, Bool-cases,
  Option-cases,
}
use reeve.Notify.{
  DriftPayload, Payload, has_group, join_group, add_payload, group_from, group_payloads,
}

-- How many members of a group pass a test of an event and what it is about.
abbrev group_tally : (String → Option DriftPayload → Bool) → String → List DriftPayload → ℕ
group_tally q event [] = 0
group_tally q event (d ∷ ds) = (if q event (some d) then 1 else 0) + group_tally q event ds

-- How many the payloads tell of: a payload with a group tells of its members, another of its own.
abbrev pub tally : (String → Option DriftPayload → Bool) → List Payload → ℕ
tally q [] = 0
tally q (p ∷ payloads) =
    (if is_empty p.group
      then (if q p.event p.drift then 1 else 0)
      else group_tally q p.event p.group)
    + tally q payloads

abbrev pub is_ungrouped : List Payload → Bool
is_ungrouped [] = true
is_ungrouped (p ∷ payloads) = is_empty p.group && is_ungrouped payloads

append_filled : (ds : List DriftPayload) (d : DriftPayload) → is_empty (ds ++ (d ∷ [])) ≡ false
append_filled [] d = refl
append_filled (x ∷ ds) d = refl

group_tally-append :
    (q : String → Option DriftPayload → Bool) (event : String) (ds : List DriftPayload)
    (d : DriftPayload)
    → group_tally q event (ds ++ (d ∷ []))
      ≡ group_tally q event ds + (if q event (some d) then 1 else 0)
group_tally-append q event [] d = ground arith
group_tally-append q event (x ∷ ds) d = ground (arith, group_tally-append q event ds d)

tally-append :
    (q : String → Option DriftPayload → Bool) (out : List Payload) (p : Payload)
    → tally q (out ++ (p ∷ [])) ≡ tally q out + tally q (p ∷ [])
tally-append q [] p = omega arith
tally-append q (g ∷ out) p = omega (arith, tally-append q out p)

tally-join_group :
    (q : String → Option DriftPayload → Bool) (p : Payload) (d : DriftPayload) (out : List Payload)
    → tally q (join_group p d out) ≡ tally q out + (if q p.event (some d) then 1 else 0)
unfolding join_group
tally-join_group q p d [] = ground arith
tally-join_group q p d (g ∷ out) = elim (Bool-cases (has_group p.event d.env g)) [
  | inl e ↦ ground (
    arith,
    e,
    group_tally-append q g.event g.group d,
    ap (λ x. q x (some d)) ((str_eq_iff g.event p.event).0 (ground (arith, e))),
    append_filled g.group d,
  )
  | inr e ↦ ground (arith, e, tally-join_group q p d out)
]

tally-add_payload :
    (q : String → Option DriftPayload → Bool) (p : Payload) (out : List Payload)
    → is_empty p.group ≡ true
    → tally q (add_payload p out) ≡ tally q out + tally q (p ∷ [])
unfolding add_payload
tally-add_payload q p out e = elim (Option-cases p.drift) [
  | inl n ↦ ground (arith, n, tally-append q out p)
  | inr (d, n) ↦ ground (arith, n, e, tally-append q out p, tally-join_group q p d out)
]

tally-group_from :
    (q : String → Option DriftPayload → Bool) (out payloads : List Payload)
    → is_ungrouped payloads ≡ true
    → tally q (group_from out payloads) ≡ tally q out + tally q payloads
unfolding group_from
tally-group_from q out [] e = omega arith
tally-group_from q out (p ∷ payloads) e =
    ground (arith, e, tally-group_from q (add_payload p out) payloads, tally-add_payload q p out)

-- Grouping neither adds nor drops nor renames anything: whatever is asked of an event and of what it is
-- about, as many members of the grouped payloads as of the payloads answer it.
pub tally-group_payloads :
    (q : String → Option DriftPayload → Bool) (payloads : List Payload) (mode : String)
    → is_ungrouped payloads ≡ true
    → tally q (group_payloads payloads mode) ≡ tally q payloads
unfolding group_payloads
tally-group_payloads q payloads mode e = ground (arith, e, tally-group_from q [] payloads)

-- How many payloads are groups of that event and environment.
abbrev pub messages : String → String → List Payload → ℕ
messages event env [] = 0
messages event env (g ∷ out) = (if has_group event env g then 1 else 0) + messages event env out

-- The payload is of that event and environment.
abbrev is_same : String → String → Payload → DriftPayload → Bool
is_same event env p d = str_eq p.event event && str_eq d.env env

has_group_same :
    (event env : String) (p : Payload) (d : DriftPayload) (g : Payload)
    → has_group p.event d.env g ≡ true
    → has_group event env g ≡ is_same event env p d
has_group_same event env p d g e = elim (Option-cases g.drift) [
  | inl n ↦ ground (arith, e, n)
  | inr (f, n) ↦ ground (
    arith,
    e,
    n,
    ap (λ x. str_eq x event) ((str_eq_iff g.event p.event).0 (ground (arith, e))),
    ap (λ x. str_eq x env) ((str_eq_iff f.env d.env).0 (ground (arith, e, n))),
  )
]

has_group_other :
    (event env : String) (p : Payload) (d : DriftPayload) (g : Payload)
    → is_same event env p d ≡ true
    → has_group p.event d.env g ≡ has_group event env g
has_group_other event env p d g e =
    ap (λ x. has_group x d.env g) ((str_eq_iff p.event event).0 (ground (arith, e)))
    ∙ ap (λ x. has_group event x g) ((str_eq_iff d.env env).0 (ground (arith, e)))

messages-join_group :
    (event env : String) (p : Payload) (d : DriftPayload) (out : List Payload)
    → p.drift ≡ some d
    → messages event env (join_group p d out) ≡ (
        if is_same event env p d
        then (if messages event env out == 0 then 1 else messages event env out)
        else messages event env out)
unfolding join_group
messages-join_group event env p d [] f = ground (arith, f)
messages-join_group event env p d (g ∷ out) f = elim (Bool-cases (has_group p.event d.env g)) [
  | inl e ↦ ground (arith, e, has_group_same event env p d g e, append_filled g.group d)
  | inr e ↦
      ground (arith, e, messages-join_group event env p d out f, has_group_other event env p d g)
]

messages-append :
    (event env : String) (p : Payload) (out : List Payload)
    → is_empty p.group ≡ true
    → messages event env (out ++ (p ∷ [])) ≡ messages event env out
messages-append event env p [] e = ground (arith, e)
messages-append event env p (g ∷ out) e = omega (arith, messages-append event env p out e)

messages-add_payload :
    (event env : String) (p : Payload) (out : List Payload)
    → is_empty p.group ≡ true
    → messages event env out ≤ 1
    → messages event env (add_payload p out) ≤ 1
unfolding add_payload
messages-add_payload event env p out e le = elim (Option-cases p.drift) [
  | inl n ↦ ground (arith, n, le, messages-append event env p out e)
  | inr (d, n) ↦
      ground
        (arith, n, le, messages-append event env p out e, messages-join_group event env p d out n)
]

messages-group_from :
    (event env : String) (out payloads : List Payload)
    → is_ungrouped payloads ≡ true
    → messages event env out ≤ 1
    → messages event env (group_from out payloads) ≤ 1
unfolding group_from
messages-group_from event env out [] e le = le
messages-group_from event env out (p ∷ payloads) e le =
    messages-group_from event env (add_payload p out) payloads (ground (arith, e))
      (messages-add_payload event env p out (ground (arith, e)) le)

messages_ungrouped :
    (event env : String) (payloads : List Payload)
    → is_ungrouped payloads ≡ true
    → messages event env payloads ≡ 0
messages_ungrouped event env [] e = refl
messages_ungrouped event env (p ∷ payloads) e =
    ground (arith, e, messages_ungrouped event env payloads)

-- Grouping leaves at most one grouped message for an event and an environment.
pub messages-group_payloads :
    (event env : String) (payloads : List Payload) (mode : String)
    → is_ungrouped payloads ≡ true
    → messages event env (group_payloads payloads mode) ≤ 1
unfolding group_payloads
messages-group_payloads event env payloads mode e = ground (
  arith,
  messages_ungrouped event env payloads e,
  messages-group_from event env [] payloads e (omega arith),
)
