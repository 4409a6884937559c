-- ===== src/Drift/Episodes.antt =====
-- Episodes of drift as internal/drift/state.go classifies them: opened, then resolved.
use reeve.Prelude.{
  ℕ, suc, ◌+◌, ◌≤◌, ◌<◌, ◌≡◌, Bool, true, false, List, [], ◌∷◌, Option, some, arith, if◌then◌else◌,
}
use reeve.Drift.State.{
  State, Result, Outcome, no_drift, drifted, Event, detected, resolved, classify, is_drifted,
}
use reeve.Drift.Errors.{events}

-- What is stored of drift fits the last decisive outcome.
pub record IsCoherent (s : State) : Type 0 where
  pub drifting : s.last_outcome ≡ some drifted → 0 < s.ongoing_since
  pub clean : s.last_outcome ≡ some no_drift → (s.ongoing_since ≡ 0) × (s.fingerprint ≡ "")

abbrev pub after : State → List Result → State
after s [] = s
after s (r ∷ rs) = after (classify s r).1 rs

-- Every check was made at an instant after Go's zero time.
abbrev pub Timed : List Result → Type 0
Timed [] = Unit {0}
Timed (r ∷ rs) = (0 < r.checked_at) × Timed rs

classify-IsCoherent :
    (s : State) (r : Result) → 0 < r.checked_at → IsCoherent s → IsCoherent (classify s r).1
unfolding classify
classify-IsCoherent s r h v = ground arith

-- After any sequence of checks, a drifted stack has a start of its drift, and a clean one has
-- neither a start nor a fingerprint.
pub after-IsCoherent :
    (s : State) (rs : List Result) → Timed rs → IsCoherent s → IsCoherent (after s rs)
after-IsCoherent s [] h v = v
after-IsCoherent s (r ∷ rs) (h, hs) v =
    after-IsCoherent (classify s r).1 rs hs (classify-IsCoherent s r h v)

abbrev pub is_detected : Event → Bool
is_detected detected = true
is_detected _ = false

abbrev pub is_resolved : Event → Bool
is_resolved resolved = true
is_resolved _ = false

-- How many of the events pass the test.
abbrev pub tally : (Event → Bool) → List Event → ℕ
tally p [] = 0
tally p (e ∷ es) = let rest = tally p es in if p e then suc rest else rest

abbrev open_episodes : Option Outcome → ℕ
open_episodes (some drifted) = 1
open_episodes _ = 0

classify-episodes :
    (s : State) (r : Result)
    → (if is_resolved (classify s r).0 then 1 else 0) + open_episodes (classify s r).1.last_outcome
      ≤ (if is_detected (classify s r).0 then 1 else 0) + open_episodes s.last_outcome
unfolding classify
classify-episodes s r = ground arith

resolved-le :
    (s : State) (rs : List Result)
    → tally is_resolved (events s rs)
      ≤ tally is_detected (events s rs) + open_episodes s.last_outcome
unfolding events
resolved-le s [] = omega arith
resolved-le s (r ∷ rs) = ground (arith, classify-episodes s r, resolved-le (classify s r).1 rs)

-- Every all-clear answers an alert: from a stack that is not known to drift, no sequence of checks is
-- classified as resolved more often than as detected.
pub resolved-le-detected :
    (s : State) (rs : List Result)
    → is_drifted s.last_outcome ≡ false
    → tally is_resolved (events s rs) ≤ tally is_detected (events s rs)
resolved-le-detected s rs h = ground (arith, resolved-le s rs)
