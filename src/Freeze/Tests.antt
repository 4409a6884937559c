-- ===== src/Freeze/Tests.antt =====
-- Runs of internal/core/freeze/freeze.go on small windows, and the theorem at them.
use reeve.Prelude.{
  ℕ, ◌+◌, ◌*◌, ◌/◌, ◌%◌, ◌≡◌, refl, Bool, ◌&&◌, List, [], ◌∷◌, Option, none, some, String,
  if◌then◌else◌, ltb, ◌==◌, str_eq, inl, inr, pos, arith,
}
use reeve.Freeze.{
  Window, Schedule, active, bad_cron, active_for, is_frozen_by, most_recent_fire, last_fire,
}
use reeve.Freeze.Fires.{IsSchedule, IsNever}
use reeve.Freeze.Active.{Explains, active_for-Explains}

-- A schedule with a fire at every hundredth instant.
abbrev hundreds : Schedule
hundreds t = (t / 100 + 1) * 100

abbrev is_hundred : ℕ → Bool
is_hundred t = ltb 0 t && t % 100 == 0

-- "@hundreds" stands for it, and "never" for an expression without a fire.
abbrev parse_sample : String → Option Schedule
parse_sample expr =
    if str_eq expr "@hundreds"
    then some hundreds
    else (if str_eq expr "never" then some (λ t. 0) else none)

abbrev fires_of : String → ℕ → Bool
fires_of expr t = str_eq expr "@hundreds" && is_hundred t

hundreds-IsSchedule : IsSchedule is_hundred hundreds
hundreds-IsSchedule = record {
  after = λ t. omega arith;
  is_fire = λ t. ground arith;
  first = λ t f lt e. ground (arith, lt, e);
}

no_fire-IsNever : IsNever (fires_of "never") (λ t. 0)
no_fire-IsNever = record { nothing = λ t. refl; no_fire = λ f. refl }

abbrev glob : String → String → Bool
glob pattern s = str_eq pattern s

abbrev windows : List Window
windows =
    record { name = "none"; cron = "never"; duration = pos 50; stacks = [] }
    ∷ record { name = "other"; cron = "13 *"; duration = pos 50; stacks = "net/dev" ∷ [] }
    ∷ record { name = "short"; cron = "@hundreds"; duration = pos 20; stacks = [] }
    ∷ record { name = "long"; cron = "@hundreds"; duration = pos 250; stacks = "net/prod" ∷ [] }
    ∷ []

long_freezes : active_for glob parse_sample windows "net/prod" 130 ≡ active "long"
unfolding active_for is_frozen_by most_recent_fire last_fire
long_freezes = refl

bad_expression : active_for glob parse_sample windows "net/dev" 130 ≡ bad_cron "other"
unfolding active_for is_frozen_by most_recent_fire last_fire
bad_expression = refl

active_for-Explains_example :
    Explains glob parse_sample fires_of "net/prod" 130 windows
      (active_for glob parse_sample windows "net/prod" 130)
active_for-Explains_example =
    active_for-Explains glob parse_sample fires_of "net/prod" 130 windows (
      (inr no_fire-IsNever, refl),
      (tt, ((inl hundreds-IsSchedule, refl), ((inl hundreds-IsSchedule, refl), tt))),
    )
