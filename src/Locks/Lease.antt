-- ===== src/Locks/Lease.antt =====
-- How long a lease of internal/core/locks/locks.go lasts, and what the reaper does when it ends.
use reeve.Prelude.{
  ℕ, ◌+◌, ◌≤◌, ◌≡◌, ◌↔◌, ◌≢◌, true, false, Option, some, Bool, arith, ℤ, pos, second, stamp,
}
use reeve.Locks.{
  Holder, Lock, Error, held, expired_lease, expired, status, vacate, promote_next, try_acquire,
  reap, promote_ttl,
}
use reeve.Locks.Exclusion.{try_acquire-Outcome, Outcome}

-- A lease of at least a second has not run out when it begins: the stamp loses less than that.
stamp_live :
    (now d : ℕ) → second ≤ d → (h : Holder) → h.expires_at ≡ stamp (now + d) → expired h now ≡ false
stamp_live now d le h e = rw e (ground arith)

status_of_live :
    (l : Lock) (h : Holder) (now : ℕ)
    → l.holder ≡ some h
    → expired h now ≡ false
    → status l now ≡ held
unfolding status
status_of_live l h now e live = ground arith

-- An applicant that TryAcquire answers `true` holds an unexpired lock at that time, if the lease
-- length is at least a second.
pub status-try_acquire :
    (l : Lock) (a : Holder) (d now : ℕ)
    → second ≤ d
    → (try_acquire l a (pos d) now).1 ≡ true
    → status (try_acquire l a (pos d) now).0 now ≡ held
status-try_acquire l a d now le granted =
    go (try_acquire l a (pos d) now) (try_acquire-Outcome l a (pos d) now) granted
  where
    go :
        (r : Lock × Bool × Option Error)
        → Outcome a (pos d) now r
        → r.1 ≡ true
        → status r.0 now ≡ held
    go (l', true, e) (h, holds, p, q, m, end, x) g =
        status_of_live l' h now holds (stamp_live now d le h end)
    go (l', false, e) o g = cc

-- The reaper reports an eviction exactly for the locks whose status is expired, and leaves any
-- other lock as it was.
pub reap_iff :
    (l : Lock) (ttl : ℤ) (now : ℕ)
    → (((reap l ttl now).1 ≡ true) ↔ (status l now ≡ expired_lease))
      × ((reap l ttl now).1 ≡ false → (reap l ttl now).0 ≡ l)
unfolding reap status
reap_iff l ttl now = ((λ g. ground arith, λ g. ground arith), λ g. ground arith)

-- After the reaper, with a lease length that is not positive or at least a second, the lock is not
-- expired at that time.
pub reap-status :
    (l : Lock) (ttl : ℤ) (now d : ℕ)
    → promote_ttl ttl ≡ pos d
    → second ≤ d
    → status (reap l ttl now).0 now ≢ expired_lease
unfolding reap status vacate promote_next
reap-status l ttl now d e le = ground arith
