-- ===== src/Freeze/Active.antt =====
-- internal/core/freeze/freeze.go: ActiveFor names the first window that freezes the stack.
use reeve.Prelude.{
  ◌⊎◌, ◌↔◌, subst, ℕ, ◌≡◌, refl, ap, inl, inr, Bool, true, false, List, [], ◌∷◌, ◌++◌, Option, none,
  some, String, pos_part, arith, Bool-cases, Option-cases,
}
use reeve.Freeze.{
  Window, Schedule, Verdict, active, bad_cron, inactive, applies, is_frozen_by, active_for,
}
use reeve.Freeze.Fires.{IsSchedule, IsNever, Freezes, is_frozen_by_iff, is_frozen_by_never}

-- What cron.ParseStandard makes of an expression is an error, or a schedule with fixed instants, of which Go's
-- zero time is none: Next finds the first of them after any instant, or there are none and it gives the zero
-- time.
abbrev pub HasInstants : (ℕ → Bool) → Option Schedule → Type 0
HasInstants fires none = Unit {0}
HasInstants fires (some next) = (IsSchedule fires next ⊎ IsNever fires next) × (fires 0 ≡ false)

module _ (glob_match : String → String → Bool) (parse : String → Option Schedule)
    (fires : String → ℕ → Bool) (ref : String) (now : ℕ) where
  abbrev pub AllInstants : List Window → Type 0
  AllInstants [] = Unit {0}
  AllInstants (w ∷ windows) = HasInstants (fires w.cron) (parse w.cron) × AllInstants windows

  is_frozen_by-Freezes :
      (w : Window) (next : Schedule)
      → HasInstants (fires w.cron) (some next)
      → (is_frozen_by next w now ≡ true) ↔ Freezes (fires w.cron) (pos_part w.duration) now
  is_frozen_by-Freezes w next (inl s, z) = is_frozen_by_iff (fires w.cron) next s w now z
  is_frozen_by-Freezes w next (inr n, z) = is_frozen_by_never (fires w.cron) next n w now

  -- The window is for the stack, and one of its fires is less than its length ago.
  abbrev pub IsFrozen : Window → Type 0
  IsFrozen w =
      (applies glob_match parse w ref ≡ true) × Freezes (fires w.cron) (pos_part w.duration) now

  abbrev pub NoneFrozen : List Window → Type 0
  NoneFrozen [] = Unit {0}
  NoneFrozen (w ∷ windows) = (¬ IsFrozen w) × NoneFrozen windows

  -- What a verdict says of the windows: the first that freezes the stack; that none does; or a window for
  -- the stack whose expression is no cron expression, before which none freezes it.
  abbrev pub Explains : List Window → Verdict → Type 0
  Explains windows (active name) =
      (before : List Window) × (w : Window) × (after : List Window) × (windows
        ≡ before ++ (w ∷ after))
      × (w.name ≡ name)
      × IsFrozen w
      × NoneFrozen before
  Explains windows inactive = NoneFrozen windows
  Explains windows (bad_cron name) =
      (before : List Window) × (w : Window) × (after : List Window) × (windows
        ≡ before ++ (w ∷ after))
      × (w.name ≡ name)
      × ((applies glob_match parse w ref ≡ true) × (parse w.cron ≡ none))
      × NoneFrozen before

  Explains-next :
      (w : Window) (windows : List Window) (v : Verdict)
      → ¬ IsFrozen w
      → Explains windows v
      → Explains (w ∷ windows) v
  Explains-next w windows (active name) n (before, u, after, e, m, o, none_before) =
      (w ∷ before, u, after, ap (λ ws. w ∷ ws) e, m, o, (n, none_before))
  Explains-next w windows inactive n h = (n, h)
  Explains-next w windows (bad_cron name) n (before, u, after, e, m, o, none_before) =
      (w ∷ before, u, after, ap (λ ws. w ∷ ws) e, m, o, (n, none_before))

  -- Let the expression of each window that is one stand for fixed instants, and let Next find the first of them
  -- after any instant or give the zero time for an expression that never fires; this leaves out @every, whose
  -- instants depend on the question, and expressions so rare that Next gives up between two instants. Then
  -- ActiveFor names the first window that freezes the stack, and says that there is none exactly if no
  -- window for the stack has a fire less than its length ago; an expression that is none is an error only
  -- where no window before it freezes the stack.
  pub active_for-Explains :
      (windows : List Window)
      → AllInstants windows
      → Explains windows (active_for glob_match parse windows ref now)
  unfolding active_for
  active_for-Explains [] cron = tt
  active_for-Explains (w ∷ windows) cron = elim (Bool-cases (applies glob_match parse w ref)) [
    | inr e ↦
        rw (e, Explains, active_for)
          (Explains-next w windows (active_for glob_match parse windows ref now)
            (λ h. ground (arith, e, h.0)) (active_for-Explains windows cron.1))
    | inl e ↦ elim (Option-cases (parse w.cron)) [
      | inl p ↦ rw (e, p, Explains, active_for) ([], w, windows, refl, refl, (e, p), tt)
      | inr (next, p) ↦
          let frozen = is_frozen_by-Freezes w next (subst (HasInstants (fires w.cron)) p cron.0) in
          elim (Bool-cases (is_frozen_by next w now)) [
            | inl f ↦
                rw (e, p, f, Explains, active_for) ([], w, windows, refl, refl, (e, frozen.0 f), tt)
            | inr f ↦
                rw (e, p, f, Explains, active_for)
                  (Explains-next w windows (active_for glob_match parse windows ref now)
                    (λ h. ground (arith, f, frozen.1 h.1)) (active_for-Explains windows cron.1))
          ]
    ]
  ]
