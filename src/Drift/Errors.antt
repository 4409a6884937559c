-- ===== src/Drift/Errors.antt =====
-- Failed checks leave no trace in what internal/drift/state.go says of the checks that succeed.
use reeve.Prelude.{
  ◌≡◌, refl, true, false, not, List, [], ◌∷◌, select, arith, ap, Bool-cases, inl, inr,
}
use reeve.Drift.State.{State, Result, Outcome, error, Event, check_failed, classify}
use reeve.Drift.Settle.{is_error, is_check_failed}

-- The events of a sequence of checks, each with the state that the one before left.
unfoldable pub events : State → List Result → List Event
events s [] = []
events s (r ∷ rs) = (classify s r).0 ∷ events (classify s r).1 rs

-- What the events of later checks depend on.
record Same (s t : State) : Type 0 where
  outcome : s.last_outcome ≡ t.last_outcome
  since : s.ongoing_since ≡ t.ongoing_since
  shape : s.fingerprint ≡ t.fingerprint

classify_error :
    (s t : State) (r : Result)
    → r.outcome ≡ error
    → Same s t
    → ((classify s r).0 ≡ check_failed) × Same (classify s r).1 t
unfolding classify
classify_error s t r e m = ground arith

classify_other :
    (s t : State) (r : Result)
    → is_error r.outcome ≡ false
    → Same s t
    → ((classify s r).0 ≡ (classify t r).0)
      × (is_check_failed (classify s r).0 ≡ false)
      × Same (classify s r).1 (classify t r).1
unfolding classify
classify_other s t r e m = ground arith

error_of : (o : Outcome) → is_error o ≡ true → o ≡ error
error_of o e = ground arith

events-Same :
    (s t : State) (rs : List Result)
    → Same s t
    → select (λ e. not (is_check_failed e)) (events s rs)
      ≡ events t (select (λ r. not (is_error r.outcome)) rs)
unfolding events
events-Same s t [] m = refl
events-Same s t (r ∷ rs) m = elim (Bool-cases (is_error r.outcome)) [
  | inl e ↦
      let (failed, m') = classify_error s t r (error_of r.outcome e) m in
      rw (failed, e) (events-Same (classify s r).1 t rs m')
  | inr e ↦
      let (same, kept, m') = classify_other s t r e m in
      rw (kept, e, same)
        (ap (◌∷◌ (classify t r).0) (events-Same (classify s r).1 (classify t r).1 rs m'))
]

-- Failed checks change nothing of what is said of drift: take them out of any sequence of checks, and
-- the events of the others stay the same, in the same order; and each failed check says only
-- `check_failed`.
pub events_without_errors :
    (s : State) (rs : List Result)
    → select (λ e. not (is_check_failed e)) (events s rs)
      ≡ events s (select (λ r. not (is_error r.outcome)) rs)
events_without_errors s rs =
    events-Same s s rs (record { outcome = refl; since = refl; shape = refl })
