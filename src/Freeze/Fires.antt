-- ===== src/Freeze/Fires.antt =====
-- internal/core/freeze/freeze.go: mostRecentFire finds a fire that freezes if there is one.
use reeve.Prelude.{
  ℕ, zero, suc, ◌+◌, ◌-◌, ◌≤◌, ◌<◌, ◌≡◌, refl, ◌⊎◌, inl, inr, ◌↔◌, Bool, true, false, if◌then◌else◌,
  ltb, ℤ, pos, negsuc, arith, if_cases, is_zero_time, pos_part,
}
use reeve.Freeze.{
  Window, Schedule, max_fire_scan, last_fire, most_recent_fire, still_frozen, is_frozen_by,
}

-- The instants of a schedule, and what is documented of Next: it gives the first of them after an
-- instant.
pub record IsSchedule (fires : ℕ → Bool) (next : Schedule) : Type 0 where
  pub after : (t : ℕ) → t < next t
  pub is_fire : (t : ℕ) → fires (next t) ≡ true
  pub first : (t f : ℕ) → t < f → fires f ≡ true → next t ≤ f

-- An expression that never fires, for which Next gives the zero time.
pub record IsNever (fires : ℕ → Bool) (next : Schedule) : Type 0 where
  pub nothing : (t : ℕ) → next t ≡ 0
  pub no_fire : (f : ℕ) → fires f ≡ false

-- A fire that freezes at an instant, for a window of that length.
abbrev pub Freezes : (ℕ → Bool) → ℕ → ℕ → Type 0
Freezes fires d now = (f : ℕ) × (fires f ≡ true) × (f ≤ now) × (now < f + d)

last_fire_never :
    (next : Schedule) (n now cur : ℕ) → ((t : ℕ) → next t ≡ 0) → last_fire n next now cur 0 ≡ 0
unfolding last_fire
last_fire_never next zero now cur h = refl
last_fire_never next (suc n) now cur h =
    rw (h cur, last_fire) (ground (arith, last_fire_never next n now 0 h))

most_recent_fire_never :
    (next : Schedule) → ((t : ℕ) → next t ≡ 0) → (d : ℤ) (now : ℕ) → most_recent_fire next d now ≡ 0
unfolding most_recent_fire
most_recent_fire_never next h (negsuc d) now = refl
most_recent_fire_never next h (pos zero) now = refl
most_recent_fire_never next h (pos (suc d)) now =
    last_fire_never next max_fire_scan now (now - suc d) h

pub is_frozen_by_never :
    (fires : ℕ → Bool) (next : Schedule) (never : IsNever fires next) (w : Window) (now : ℕ)
    → (is_frozen_by next w now ≡ true) ↔ Freezes fires (pos_part w.duration) now
unfolding is_frozen_by
is_frozen_by_never fires next never w now = (
  λ e. ground (arith, e, most_recent_fire_never next never.nothing w.duration now),
  λ (f, e, le, lt). ground (arith, e, never.no_fire f),
)

fire_pos : (fires : ℕ → Bool) (f : ℕ) → fires f ≡ true → fires 0 ≡ false → 0 < f
fire_pos fires zero e z = ground (arith, e, z)
fire_pos fires (suc f) e z = omega arith

module _ (fires : ℕ → Bool) (next : Schedule) (schedule : IsSchedule fires next) where
  -- The walk never leaves the instants up to now, and stays where a fire has been found.
  last_fire_found :
      (n now cur last : ℕ)
      → (last ≡ 0) ⊎ ((fires last ≡ true) × (last ≤ now))
      → (last_fire n next now cur last ≡ 0)
        ⊎ ((fires (last_fire n next now cur last) ≡ true) × (last_fire n next now cur last ≤ now))
  unfolding last_fire
  last_fire_found zero now cur last h = h
  last_fire_found (suc n) now cur last h =
      if_cases (λ r. (r ≡ 0) ⊎ ((fires r ≡ true) × (r ≤ now))) (ltb now (next cur)) _ _ (λ e. h)
        (λ e.
          last_fire_found n now (next cur) (next cur)
            (inr (schedule.is_fire cur, ground (arith, e))))

  last_fire_from : (n now cur last : ℕ) → cur ≤ last → cur ≤ last_fire n next now cur last
  unfolding last_fire
  last_fire_from zero now cur last h = h
  last_fire_from (suc n) now cur last h =
      ground (arith, h, schedule.after cur, last_fire_from n now (next cur) (next cur))

  last_fire_after :
      (n now cur f : ℕ)
      → cur < f
      → f ≤ now
      → fires f ≡ true
      → cur < last_fire (suc n) next now cur 0
  unfolding last_fire
  last_fire_after n now cur f a b e = ground (
    arith,
    schedule.first cur f a e,
    schedule.after cur,
    last_fire_from n now (next cur) (next cur),
    a,
    b,
  )

  -- The last fire of a walk over the window, with at least one round.
  frozen_iff :
      (n d now : ℕ)
      → fires 0 ≡ false
      → ((if is_zero_time (last_fire (suc n) next now (now - suc d) 0)
            then false
            else still_frozen (pos (suc d)) (last_fire (suc n) next now (now - suc d) 0) now)
          ≡ true)
        ↔ Freezes fires (suc d) now
  frozen_iff n d now z =
      let fire = last_fire (suc n) next now (now - suc d) 0 in
      (
        λ e. (
          fire,
          ground (arith, e, last_fire_found (suc n) now (now - suc d) 0 (inl refl)),
          ground (arith, e, last_fire_found (suc n) now (now - suc d) 0 (inl refl)),
          ground (arith, e),
        ),
        λ (f, e, le, lt).
            let pos_f : 0 < f = ground (arith, fire_pos fires f e z) in
            let after = last_fire_after n now (now - suc d) f (omega (arith, lt, pos_f)) le e in
            ground (arith, after, lt, le),
      )

  duration_iff :
      (d : ℤ) (now : ℕ)
      → fires 0 ≡ false
      → ((if is_zero_time (most_recent_fire next d now)
            then false
            else still_frozen d (most_recent_fire next d now) now)
          ≡ true)
        ↔ Freezes fires (pos_part d) now
  unfolding most_recent_fire
  duration_iff (negsuc d) now z = (λ e. ground (arith, e), λ (f, e, le, lt). ground (arith, le, lt))
  duration_iff (pos zero) now z = (λ e. ground (arith, e), λ (f, e, le, lt). ground (arith, le, lt))
  duration_iff (pos (suc d)) now z = frozen_iff 9999 d now z

  -- A window freezes at an instant exactly if one of its fires, not after the instant, is less than the
  -- window's length ago; one without a positive length never does.
  pub is_frozen_by_iff :
      (w : Window) (now : ℕ)
      → fires 0 ≡ false
      → (is_frozen_by next w now ≡ true) ↔ Freezes fires (pos_part w.duration) now
  unfolding is_frozen_by
  is_frozen_by_iff w now z = duration_iff w.duration now z
