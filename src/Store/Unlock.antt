-- ===== src/Store/Unlock.antt =====
-- What internal/blob/locks/store.go does to a lock on its own account.
use reeve.Prelude.{ℕ, ◌≡◌, true, false, some, String, ℤ, stamp, arith}
use reeve.Locks.{Holder, Lock, promote_next, vacate, unlock_pr, expired}
use reeve.Store.{holder_active}
use reeve.Store.Changes.{unlocking, forcing, force_promote_queue, is_holder_active, runs_until}

-- ForceUnlock, which has a promotion of its own, leaves what the transitions of the lock leave when they
-- clear its holder: the first in the queue with a reservation of the same length.
pub forcing-vacate :
    (l : Lock) (ttl : ℤ) (now : ℕ)
    → (forcing ttl now l).0 ≡ record (vacate l ttl now) { updated_at = stamp now }
unfolding forcing force_promote_queue vacate promote_next
forcing-vacate l ttl now = ground arith

-- Without force, UnlockPR refuses with holder_active, and gives back the lock as it was, while the pull
-- request holds it with a running lease, by any run or by the one that is named.
pub unlocking-holder_active :
    (l : Lock) (pr : ℕ) (run_id : String) (ttl : ℤ) (now : ℕ)
    → is_holder_active l pr run_id now ≡ true
    → unlocking pr run_id ttl false now l ≡ (l, false, some holder_active)
unfolding unlocking
unlocking-holder_active l pr run_id ttl now e = ground (arith, e)

-- Without force, a holder whose lease runs keeps the lock, whoever is unlocked.
runs_until-expired :
    (h : Holder) (now : ℕ) → runs_until h.expires_at now ≡ true → expired h now ≡ false
runs_until-expired h now e = ground arith

pub unlocking-keeps_holder :
    (l : Lock) (h : Holder) (pr : ℕ) (run_id : String) (ttl : ℤ) (now : ℕ)
    → l.holder ≡ some h
    → runs_until h.expires_at now ≡ true
    → (unlocking pr run_id ttl false now l).0.holder ≡ some h
unfolding unlocking unlock_pr
unlocking-keeps_holder l h pr run_id ttl now e r = ground (arith, e, r, runs_until-expired h now r)
