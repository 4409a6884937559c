-- ===== src/Drift/Retries.antt =====
-- internal/drift/retry.go and the retry loop of runOne in runner.go: how often and how long.
use reeve.Prelude.{
  ℕ, zero, suc, ◌+◌, ◌*◌, ◌≤◌, ◌<◌, ◌≡◌, refl, ◌⊎◌, inl, inr, Bool, true, false, not, ◌&&◌, ◌||◌,
  some, pos, arith, Bool-cases, subst, ltb, if◌then◌else◌, is_blank,
}
use reeve.Drift.Retry.{
  retry_backoff_max, double_wait, at_most, backoff, ErrKind, err_permanent, err_transient_network,
  err_auth_expired, classify_drift_error, Attempt, Checked, stops, retried, check_from,
  check_retried,
}

-- d doubled n times.
abbrev pub doubled : ℕ → ℕ → ℕ
doubled d zero = d
doubled d (suc n) = doubled d n * 2

doubled-inner : (d n : ℕ) → doubled (d * 2) n ≡ doubled d n * 2
doubled-inner d zero = refl
doubled-inner d (suc n) = omega (arith, doubled-inner d n)

doubled-le : (d n : ℕ) → d ≤ doubled d n
doubled-le d zero = omega arith
doubled-le d (suc n) = omega (arith, doubled-le d n)

double_wait-at_most :
    (n d : ℕ)
    → at_most retry_backoff_max (double_wait n d) ≡ at_most retry_backoff_max (doubled d n)
unfolding double_wait
double_wait-at_most zero d = refl
double_wait-at_most (suc n) d =
    ground (arith, double_wait-at_most n (d * 2), doubled-inner d n, doubled-le d n)

-- The wait before retry n + 1 is the base doubled n times, and never more than thirty seconds, if there is
-- a base.
pub backoff-doubled :
    (b n : ℕ) → 0 < b → backoff (pos b) (suc n) ≡ some (at_most retry_backoff_max (doubled b n))
unfolding backoff
backoff-doubled b n p = ground (arith, p, double_wait-at_most n b)

abbrev pub is_network : ErrKind → Bool
is_network err_transient_network = true
is_network _ = false

abbrev pub is_expiry : ErrKind → Bool
is_expiry err_auth_expired = true
is_expiry _ = false

-- A test holds of all numbers below n.
abbrev pub all_below : ℕ → (ℕ → Bool) → Bool
all_below zero test = true
all_below (suc n) test = all_below n test && test n

ErrKind-cases :
    (x : ErrKind) → (x ≡ err_permanent) ⊎ ((x ≡ err_transient_network) ⊎ (x ≡ err_auth_expired))
ErrKind-cases err_permanent = inl refl
ErrKind-cases err_transient_network = inr (inl refl)
ErrKind-cases err_auth_expired = inr (inr refl)

module _ (attempt : ℕ → Bool → Attempt) (waits : ℕ → Bool) where
  -- Whether an attempt before that of number k failed with expired credentials.
  abbrev pub has_expired : ℕ → Bool
  has_expired zero = false
  has_expired (suc k) =
      has_expired k || is_expiry (classify_drift_error (attempt k (has_expired k)).failure)

  -- The attempt of a number, with the credentials that all before it leave.
  abbrev pub made : ℕ → Attempt
  made k = attempt k (has_expired k)

  abbrev pub kind : ℕ → ErrKind
  kind k = classify_drift_error (made k).failure

  -- It failed, but neither by the deadline nor in a cancelled run.
  abbrev pub may_retry : ℕ → Bool
  may_retry k = not (is_blank (made k).failure) && not (made k).timed_out && not (made k).cancelled

  -- Another attempt may follow that of number k: it failed on the network and the wait was not cancelled,
  -- or with expired credentials for the first time.
  abbrev pub goes_on : ℕ → Bool
  goes_on k =
      may_retry k
      && (is_network (kind k) && waits (suc k) || is_expiry (kind k) && not (has_expired k))

  -- The check ends with the first attempt that none may follow, or that uses up the bound.
  abbrev pub Ends : ℕ → Checked → Type 0
  Ends bound c =
      (c.last ≡ made c.number)
      × (c.rebound ≡ has_expired c.number)
      × (all_below c.number goes_on ≡ true)
      × (c.number ≤ bound)
      × ((c.number ≡ bound) ⊎ (goes_on c.number ≡ false))
      × (c.retries ≡ (
          if ltb c.number bound && may_retry c.number && is_network (kind c.number)
          then suc c.number
          else c.number))

  Ends-next :
      (n used : ℕ) (anew : Bool)
      → has_expired (suc used) ≡ anew
      → Ends (n + suc used) (check_from attempt waits n (suc used) (has_expired (suc used)))
      → Ends (suc n + used) (check_from attempt waits n (suc used) anew)
  Ends-next n used anew e rest =
      subst (λ b. Ends (suc n + used) (check_from attempt waits n (suc used) b)) e
        (subst (λ m. Ends m (check_from attempt waits n (suc used) (has_expired (suc used))))
          (omega arith) rest)

  check_from-Ends :
      (n used : ℕ)
      → all_below used goes_on ≡ true
      → Ends (n + used) (check_from attempt waits n used (has_expired used))
  unfolding check_from retried
  check_from-Ends zero used h = (refl, refl, h, omega arith, inl (omega arith), ground arith)
  check_from-Ends (suc n) used h = elim (Bool-cases (stops (made used))) [
    | inl e ↦
        rw (e, check_from) (refl, refl, h, omega arith, inr (ground (arith, e)), ground (arith, e))
    | inr e ↦ elim (ErrKind-cases (kind used)) [
      | inl k ↦
          rw (e, k, check_from, retried)
            (refl, refl, h, omega arith, inr (ground (arith, k)), ground (arith, k))
      | inr (inl k) ↦ elim (Bool-cases (waits (suc used))) [
        | inr w ↦
            rw (e, k, w, check_from, retried)
              (refl, refl, h, omega arith, inr (ground (arith, k, w)), ground (arith, e, k))
        | inl w ↦
            let rest = check_from-Ends n (suc used) (ground (arith, h, e, k, w)) in
            rw (e, k, w, check_from, retried)
              (Ends-next n used (has_expired used) (ground (arith, k)) rest)
      ]
      | inr (inr k) ↦ elim (Bool-cases (has_expired used)) [
        | inl x ↦
            rw (e, k, x, check_from, retried)
              (refl, refl, h, omega arith, inr (ground (arith, k, x)), ground (arith, k))
        | inr x ↦
            let rest = check_from-Ends n (suc used) (ground (arith, h, e, k, x)) in
            rw (e, k, x, check_from, retried) (Ends-next n used true (ground (arith, k)) rest)
      ]
    ]
  ]

  -- A check answers with the first attempt that none may follow, or with the one that uses up
  -- RetryOnTransientError. None may follow one with a verdict, one that met the deadline of the stack or a
  -- cancelled run, nor a failure other than these two: on the network, if the wait before the retry is not
  -- cancelled, and with expired credentials, if none failed so before. After a failure with
  -- expired credentials, and only then, the attempts have credentials that were bound anew. The retries that are counted are those made and the
  -- one whose wait was cancelled.
  pub check_retried-Ends : (bound : ℕ) → Ends bound (check_retried attempt waits bound)
  unfolding check_retried
  check_retried-Ends bound =
      subst (λ b. Ends b (check_from attempt waits bound 0 false)) (omega arith)
        (check_from-Ends bound 0 refl)
