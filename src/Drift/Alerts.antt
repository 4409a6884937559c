-- ===== src/Drift/Alerts.antt =====
-- Flap damping: how often internal/drift announces that a stack drifts.
use reeve.Prelude.{
  ℕ, ◌+◌, ◌≤◌, ◌<◌, ◌≡◌, ◌⊎◌, inl, inr, true, false, List, [], ◌∷◌, arith, if◌then◌else◌, pos,
  Bool-cases, subst, ◌↔◌,
}
use reeve.Drift.State.{State, Result, resolved, classify, damp_notification}
use reeve.Drift.Settle.{Options, Item, settle, announced}
use reeve.Drift.Episodes.{is_detected}

-- Each check is made when it is settled.
abbrev pub settled : Options → State → Result → Item × State
settled opts s r = settle opts s r r.checked_at

-- The times at which a sequence of checks announces drift.
unfoldable pub alerts : Options → State → List Result → List ℕ
alerts opts s [] = []
alerts opts s (r ∷ rs) =
    let rest = alerts opts (settled opts s r).1 rs in
    if is_detected (settled opts s r).0.notify_event then r.checked_at ∷ rest else rest

-- Checks after Go's zero time, in the order of time, the first not before t.
abbrev pub InOrder : ℕ → List Result → Type 0
InOrder t [] = Unit {0}
InOrder t (r ∷ rs) = (0 < r.checked_at) × (t ≤ r.checked_at) × InOrder r.checked_at rs

-- Times that lie at least d apart; `last` is the time before them, 0 for none.
abbrev pub Spaced : ℕ → ℕ → List ℕ → Type 0
Spaced d last [] = Unit {0}
Spaced d last (t ∷ ts) = ((last ≡ 0) ⊎ (last + d ≤ t)) × Spaced d t ts

-- One check: an alert comes late enough and is stamped, and without one the stamp stays.
settle_alert :
    (opts : Options) (s : State) (r : Result) (d : ℕ)
    → opts.renotify_after ≡ pos d
    → 0 < d
    → opts.permanently_suppressed ≡ false
    → s.last_notified_at ≤ r.checked_at
    → is_detected (settled opts s r).0.notify_event ≡ true
    → ((s.last_notified_at ≡ 0) ⊎ (s.last_notified_at + d ≤ r.checked_at))
      × ((settled opts s r).1.last_notified_at ≡ r.checked_at)
unfolding settle damp_notification
settle_alert opts s r d e h p o a = (ground arith, ground arith)

classify-last_notified_at :
    (s : State) (r : Result) → (classify s r).1.last_notified_at ≡ s.last_notified_at
unfolding classify
classify-last_notified_at s r = ground arith

settle_quiet :
    (opts : Options) (s : State) (r : Result)
    → opts.permanently_suppressed ≡ false
    → is_detected (settled opts s r).0.notify_event ≡ false
    → (settled opts s r).1.last_notified_at ≡ s.last_notified_at
unfolding settle damp_notification
settle_quiet opts s r p q = ground (arith, classify-last_notified_at s r)

alerts-Spaced_from :
    (opts : Options) (d : ℕ) (s : State) (t : ℕ) (rs : List Result)
    → opts.renotify_after ≡ pos d
    → 0 < d
    → opts.permanently_suppressed ≡ false
    → s.last_notified_at ≤ t
    → InOrder t rs
    → Spaced d s.last_notified_at (alerts opts s rs)
unfolding alerts
alerts-Spaced_from opts d s t [] e h p o i = tt
alerts-Spaced_from opts d s t (r ∷ rs) e h p o (pos_r, le, i) =
    elim (Bool-cases (is_detected (settled opts s r).0.notify_event)) [
      | inl a ↦
          let (gap, now) = settle_alert opts s r d e h p (omega arith) a in
          rw a (
            gap,
            subst (λ n. Spaced d n (alerts opts (settled opts s r).1 rs)) now
                (alerts-Spaced_from opts d (settled opts s r).1 r.checked_at rs e h p (omega arith)
                  i),
          )
      | inr q ↦
          let same = settle_quiet opts s r p q in
          rw q (
            subst (λ n. Spaced d n (alerts opts (settled opts s r).1 rs)) same
              (alerts-Spaced_from opts d (settled opts s r).1 r.checked_at rs e h p (omega arith)
                i))
    ]

-- With a positive renotify_after, a stack without a permanent suppression announces drift at most
-- once in that time: over any sequence of checks in the order of time, two announcements, the one before
-- the sequence included, are at least renotify_after apart.
pub alerts-Spaced :
    (opts : Options) (d : ℕ) (s : State) (rs : List Result)
    → opts.renotify_after ≡ pos d
    → 0 < d
    → opts.permanently_suppressed ≡ false
    → InOrder s.last_notified_at rs
    → Spaced d s.last_notified_at (alerts opts s rs)
alerts-Spaced opts d s rs e h p i =
    alerts-Spaced_from opts d s s.last_notified_at rs e h p (omega arith) i

-- For a stack without a permanent suppression, a check classified as resolved is announced exactly if
-- no alert is on record or the last one is not older than the start of the drift that ends.
pub settle-resolved :
    (opts : Options) (s : State) (r : Result)
    → opts.permanently_suppressed ≡ false
    → announced opts s r ≡ resolved
    → ((settled opts s r).0.notify_event ≡ resolved)
      ↔ ((s.last_notified_at ≡ 0) ⊎ (s.ongoing_since ≤ s.last_notified_at))
unfolding settle damp_notification
settle-resolved opts s r p e = (λ n. ground arith, λ n. ground arith)
