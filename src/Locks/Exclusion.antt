-- ===== src/Locks/Exclusion.antt =====
-- Who may take the lock of internal/core/locks/locks.go, and when.
use reeve.Prelude.{
  ℕ, ◌≡◌, refl, ◌≢◌, ◌⊎◌, inl, inr, Bool, true, false, not, Option, none, some, String, arith, ◌==◌,
  ==_refl, ℤ, add_time, stamp, str_eq, str_eq_iff, Option-cases, if_cases,
}
use reeve.Locks.{
  Holder, Lock, Error, already_holder, already_queued, held_by_same_pr, queued, install,
  evict_if_expired, acquire_held, acquire_evicted, try_acquire, release_evicted, release, unlock_pr,
  reap, waiting, expired,
}
use reeve.Locks.Invariant.{queued-append}

pub evict_if_expired_live :
    (l : Lock) (h : Holder) (ttl : ℤ) (now : ℕ)
    → l.holder ≡ some h
    → expired h now ≡ false
    → evict_if_expired l now ttl ≡ l
unfolding evict_if_expired
evict_if_expired_live l h ttl now e live = rw (e, evict_if_expired) (ground arith)

acquire_held_foreign :
    (l : Lock) (h a : Holder) (ttl : ℤ) (now : ℕ)
    → l.holder ≡ some h
    → h.pr ≢ a.pr
    → ((acquire_held l h a ttl now).0.holder ≡ some h) × ((acquire_held l h a ttl now).1 ≡ false)
unfolding acquire_held
acquire_held_foreign l h a ttl now e f = ground arith

-- A lock with a running lease is acquired as its holder decides.
pub try_acquire_live :
    (l : Lock) (h a : Holder) (ttl : ℤ) (now : ℕ)
    → l.holder ≡ some h
    → expired h now ≡ false
    → try_acquire l a ttl now ≡ acquire_held l h a ttl now
unfolding try_acquire acquire_evicted
try_acquire_live l h a ttl now e live = ground (arith, evict_if_expired_live l h ttl now e live)

pub try_acquire-holder_foreign :
    (l : Lock) (h a : Holder) (ttl : ℤ) (now : ℕ)
    → l.holder ≡ some h
    → expired h now ≡ false
    → h.pr ≢ a.pr
    → (try_acquire l a ttl now).0.holder ≡ some h
try_acquire-holder_foreign l h a ttl now e live f =
    rw (try_acquire_live l h a ttl now e live) (acquire_held_foreign l h a ttl now e f).0

release_evicted-holder_foreign :
    (l : Lock) (h : Holder) (pr : ℕ) (run_id : String) (ttl : ℤ) (now : ℕ)
    → l.holder ≡ some h
    → h.pr ≢ pr
    → (release_evicted l pr run_id ttl now).0.holder ≡ some h
unfolding release_evicted
release_evicted-holder_foreign l h pr run_id ttl now e f = ground arith

pub release-holder_foreign :
    (l : Lock) (h : Holder) (pr : ℕ) (run_id : String) (ttl : ℤ) (now : ℕ)
    → l.holder ≡ some h
    → expired h now ≡ false
    → h.pr ≢ pr
    → (release l pr run_id ttl now).0.holder ≡ some h
unfolding release
release-holder_foreign l h pr run_id ttl now e live f =
    rw (evict_if_expired_live l h ttl now e live)
      (release_evicted-holder_foreign l h pr run_id ttl now e f)

pub unlock_pr-holder_foreign :
    (l : Lock) (h : Holder) (pr : ℕ) (run_id : String) (ttl : ℤ) (now : ℕ)
    → l.holder ≡ some h
    → h.pr ≢ pr
    → (unlock_pr l pr run_id ttl now).holder ≡ some h
unfolding unlock_pr
unlock_pr-holder_foreign l h pr run_id ttl now e f = ground arith

pub reap-holder_live :
    (l : Lock) (h : Holder) (ttl : ℤ) (now : ℕ)
    → l.holder ≡ some h
    → expired h now ≡ false
    → (reap l ttl now).0.holder ≡ some h
unfolding reap
reap-holder_live l h ttl now e live = ground arith

-- Another run of the holder's pull request, while the lease runs and the holder took the lock
-- itself, is refused with `held_by_same_pr` and leaves the lock as it was.
pub try_acquire_same_pr :
    (l : Lock) (h a : Holder) (ttl : ℤ) (now : ℕ)
    → l.holder ≡ some h
    → expired h now ≡ false
    → h.pr ≡ a.pr
    → h.run_id ≢ a.run_id
    → h.promoted ≡ false
    → try_acquire l a ttl now ≡ (l, false, some held_by_same_pr)
unfolding acquire_held
try_acquire_same_pr l h a ttl now e live p r m =
    rw (try_acquire_live l h a ttl now e live) (ground (arith, str_eq_iff h.run_id a.run_id))

-- What each result of TryAcquire says of the lock that it returns.
abbrev pub Outcome : Holder → ℤ → ℕ → Lock × Bool × Option Error → Type 0
Outcome a ttl now (l, true, e) =
    (h : Holder) × (l.holder ≡ some h)
    × (h.pr ≡ a.pr)
    × (h.run_id ≡ a.run_id)
    × (h.promoted ≡ false)
    × (h.expires_at ≡ stamp (add_time now ttl))
    × ((e ≡ none) ⊎ (e ≡ some already_holder))
Outcome a ttl now (l, false, e) =
    (h : Holder) × (l.holder ≡ some h)
    × (((h.pr ≡ a.pr) × (h.run_id ≢ a.run_id) × (h.promoted ≡ false) × (e ≡ some held_by_same_pr))
        ⊎ ((h.pr ≢ a.pr) × (queued a.pr l.queue ≡ true) × ((e ≡ none) ⊎ (e ≡ some already_queued))))

acquire_held-Outcome :
    (l : Lock) (h a : Holder) (ttl : ℤ) (now : ℕ)
    → l.holder ≡ some h
    → Outcome a ttl now (acquire_held l h a ttl now)
unfolding acquire_held install
acquire_held-Outcome l h a ttl now e =
    if_cases P (h.pr == a.pr) _ _
      (λ same.
        if_cases P (not (str_eq h.run_id a.run_id)) _ _
          (λ other.
            if_cases P (not h.promoted) _ _
              (λ direct. (
                h,
                e,
                inl (
                  ground arith,
                  ground (arith, str_eq_iff h.run_id a.run_id),
                  ground arith,
                  refl,
                ),
              ))
              (λ _. (_, refl, refl, refl, refl, refl, inl refl)))
          (λ _. (_, refl, ground arith, refl, refl, refl, inr refl)))
      (λ differs.
        if_cases P (queued a.pr l.queue) _ _ (λ waits. (h, e, inr (ground arith, waits, inr refl)))
          (λ _. (
            h,
            e,
            inr (
              ground arith,
              ground (arith, queued-append a.pr l.queue (waiting a now), ==_refl a.pr),
              inl refl,
            ),
          )))
  where
    P : Lock × Bool × Option Error → Type 0
    P r = Outcome a ttl now r

acquire_evicted-Outcome :
    (l : Lock) (a : Holder) (ttl : ℤ) (now : ℕ) → Outcome a ttl now (acquire_evicted l a ttl now)
unfolding acquire_evicted install
acquire_evicted-Outcome l a ttl now = elim (Option-cases l.holder) [
  | inl e ↦ rw (e, acquire_evicted) (ground arith)
  | inr (h, e) ↦ rw (e, acquire_evicted) (acquire_held-Outcome l h a ttl now e)
]

-- TryAcquire answers `true` exactly when it leaves the applicant's run as the active holder with a
-- lease that ends `ttl` from now. It answers `false` either for another run of the pull request
-- that holds the lock by its own acquire, or with the applicant waiting behind another holder.
pub try_acquire-Outcome :
    (l : Lock) (a : Holder) (ttl : ℤ) (now : ℕ) → Outcome a ttl now (try_acquire l a ttl now)
unfolding try_acquire
try_acquire-Outcome l a ttl now = acquire_evicted-Outcome (evict_if_expired l now ttl) a ttl now
