-- ===== src/Freeze.antt =====
-- internal/core/freeze/freeze.go: the freeze windows of a stack. cron.ParseStandard and doublestar.Match
-- are parameters.
pub mod Fires
pub mod Active
mod Tests
use reeve.Prelude.{
  ℕ, zero, suc, ◌+◌, ◌-◌, Bool, true, false, not, ◌||◌, List, [], ◌∷◌, Option, none, some, String,
  ltb, if◌then◌else◌, any, is_empty, ℤ, pos, negsuc, is_zero_time,
}

pub record Window : Type 0 where
  pub name : String
  pub cron : String
  pub duration : ℤ
  pub stacks : List String

-- `cron.Schedule`: the first fire after an instant, the zero time where it finds none.
abbrev pub Schedule : Type 0
Schedule = ℕ → ℕ

pub data Verdict : Type 0 where
  active bad_cron : String → Verdict
  inactive : Verdict

abbrev pub max_fire_scan : ℕ
max_fire_scan = 10000

-- The walk over the fires, with the rounds that are left.
unfoldable pub last_fire : ℕ → Schedule → ℕ → ℕ → ℕ → ℕ
last_fire zero next now cur last = last
last_fire (suc n) next now cur last =
    let rest = last_fire n next now (next cur) (next cur) in
    if ltb now (next cur) then last else rest

-- `mostRecentFire` behind the parse of the expression.
unfoldable pub most_recent_fire : Schedule → ℤ → ℕ → ℕ
most_recent_fire next (negsuc d) now = 0
most_recent_fire next (pos zero) now = 0
most_recent_fire next (pos (suc d)) now = last_fire max_fire_scan next now (now - suc d) 0

-- Whether a fire freezes at an instant.
abbrev pub still_frozen : ℤ → ℕ → ℕ → Bool
still_frozen (negsuc d) fire now = ltb (now + suc d) fire
still_frozen (pos d) fire now = ltb now (fire + d)

-- Whether a window with that schedule freezes now.
unfoldable pub is_frozen_by : Schedule → Window → ℕ → Bool
is_frozen_by next w now =
    let fire = most_recent_fire next w.duration now in
    if is_zero_time fire then false else still_frozen w.duration fire now

module _ (glob_match : String → String → Bool) (parse : String → Option Schedule) where
  abbrev pub applies : Window → String → Bool
  applies w ref = is_empty w.stacks || any (λ pat. glob_match pat ref) w.stacks

  unfoldable pub active_for : List Window → String → ℕ → Verdict
  active_for [] ref now = inactive
  active_for (w ∷ windows) ref now = elim (applies w ref) [
    | false ↦ active_for windows ref now
    | true ↦ elim (parse w.cron) [
      | none ↦ bad_cron w.name
      | some next ↦ elim (is_frozen_by next w now) [
        | true ↦ active w.name
        | false ↦ active_for windows ref now
      ]
    ]
  ]
