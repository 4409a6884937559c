-- ===== src/Locks/Fairness.antt =====
-- The order in which internal/core/locks/locks.go serves the queue.
use reeve.Prelude.{
  ℕ, suc, ◌+◌, ◌≤◌, ◌≡◌, ◌≢◌, ◌⊎◌, inl, inr, true, List, [], ◌∷◌, ◌++◌, Option, none, some, String,
  arith, ℤ, ◌==◌, if◌then◌else◌, Option-cases, ==_refl, str_eq_refl,
}
use reeve.Locks.History.{Call, acquires, releases, unlocks, reaps, step, IsForeign}
use reeve.Locks.{
  Holder, QueueItem, Lock, remove_pr, queued, promote_next, vacate, install, evict_if_expired,
  acquire_held, acquire_evicted, try_acquire, release_evicted, release, unlock_pr, reap, waiting,
  expired,
}

-- How many entries stand before the first one of that pull request.
abbrev pub ahead : ℕ → List QueueItem → ℕ
ahead pr [] = 0
ahead pr (item ∷ q) = if item.pr == pr then 0 else suc (ahead pr q)

-- The pull request holds the lock.
abbrev pub HeldBy : ℕ → Option Holder → Type 0
HeldBy pr none = ⊥
HeldBy pr (some h) = h.pr ≡ pr

-- The pull request is served, or still waits with at most n entries before it.
abbrev pub Served : ℕ → ℕ → Lock → Type 0
Served pr n l = HeldBy pr l.holder ⊎ ((queued pr l.queue ≡ true) × (ahead pr l.queue ≤ n))

ahead-remove_pr :
    (pr k : ℕ) (q : List QueueItem)
    → pr ≢ k
    → queued pr q ≡ true
    → (queued pr (remove_pr q k) ≡ true) × (ahead pr (remove_pr q k) ≤ ahead pr q)
unfolding remove_pr
ahead-remove_pr pr k [] ne w = cc
ahead-remove_pr pr k (item ∷ q) ne w = ground (arith, ahead-remove_pr pr k q ne)

ahead-append :
    (pr : ℕ) (q : List QueueItem) (item : QueueItem)
    → queued pr q ≡ true
    → (queued pr (q ++ (item ∷ [])) ≡ true) × (ahead pr (q ++ (item ∷ [])) ≡ ahead pr q)
ahead-append pr [] item w = cc
ahead-append pr (x ∷ q) item w = ground (arith, ahead-append pr q item)

-- When a lock is vacated, everybody who waits moves up by one, and the first becomes the holder.
pub vacate-Served :
    (l : Lock) (ttl : ℤ) (now pr : ℕ)
    → queued pr l.queue ≡ true
    → HeldBy pr (vacate l ttl now).holder
      ⊎ ((queued pr (vacate l ttl now).queue ≡ true)
          × (ahead pr (vacate l ttl now).queue + 1 ≡ ahead pr l.queue))
unfolding vacate promote_next
vacate-Served l ttl now pr w = ground arith

-- From here the pull request waits in l.
module _ (pr : ℕ) (l : Lock) (w : queued pr l.queue ≡ true) where
  vacate-Waits : (ttl : ℤ) (now : ℕ) → Served pr (ahead pr l.queue) (vacate l ttl now)
  vacate-Waits ttl now = ground (arith, vacate-Served l ttl now pr w)

  evict_if_expired-Waits :
      (ttl : ℤ) (now : ℕ) → Served pr (ahead pr l.queue) (evict_if_expired l now ttl)
  unfolding evict_if_expired
  evict_if_expired-Waits ttl now = ground (arith, vacate-Waits ttl now)

  reap-Waits : (ttl : ℤ) (now : ℕ) → Served pr (ahead pr l.queue) (reap l ttl now).0
  unfolding reap
  reap-Waits ttl now = ground (arith, vacate-Waits ttl now)

acquire_held-Served :
    (pr n : ℕ) (l : Lock) (h a : Holder) (ttl : ℤ) (now : ℕ)
    → l.holder ≡ some h
    → Served pr n l
    → pr ≢ a.pr
    → Served pr n (acquire_held l h a ttl now).0
unfolding acquire_held install
acquire_held-Served pr n l h a ttl now e s ne =
    ground (arith, ahead-remove_pr pr a.pr l.queue ne, ahead-append pr l.queue (waiting a now))

acquire_evicted-Served :
    (pr n : ℕ) (l : Lock) (a : Holder) (ttl : ℤ) (now : ℕ)
    → Served pr n l
    → pr ≢ a.pr
    → Served pr n (acquire_evicted l a ttl now).0
unfolding acquire_evicted install
acquire_evicted-Served pr n l a ttl now s ne = elim (Option-cases l.holder) [
  | inl e ↦ rw (e, acquire_evicted) (ground (arith, ahead-remove_pr pr a.pr l.queue ne))
  | inr (h, e) ↦ rw (e, acquire_evicted) (acquire_held-Served pr n l h a ttl now e s ne)
]

release_evicted-Served :
    (pr n : ℕ) (l : Lock) (k : ℕ) (run_id : String) (ttl : ℤ) (now : ℕ)
    → Served pr n l
    → pr ≢ k
    → Served pr n (release_evicted l k run_id ttl now).0
unfolding release_evicted
release_evicted-Served pr n l k run_id ttl now (inl h) ne = ground arith
release_evicted-Served pr n l k run_id ttl now (inr w) ne =
    ground (arith, ahead-remove_pr pr k l.queue ne, vacate-Served l ttl now pr)

unlock_pr-Served :
    (pr : ℕ) (l : Lock) (k : ℕ) (run_id : String) (ttl : ℤ) (now : ℕ)
    → queued pr l.queue ≡ true
    → pr ≢ k
    → Served pr (ahead pr l.queue) (unlock_pr l k run_id ttl now)
unfolding unlock_pr
unlock_pr-Served pr l k run_id ttl now w ne = ground (
  arith,
  ahead-remove_pr pr k l.queue ne,
  vacate-Served l ttl now pr w,
  ahead-remove_pr pr k (vacate l ttl now).queue ne,
)

-- Nobody is overtaken. Whatever call another pull request makes, or the reaper, a pull request that
-- waits for the lock then holds it, or still waits with no more entries before it than it had.
pub step-Served :
    (pr : ℕ) (l : Lock) (now : ℕ) (ttl : ℤ) (c : Call)
    → queued pr l.queue ≡ true
    → IsForeign pr c
    → Served pr (ahead pr l.queue) (step l (now, ttl, c))
unfolding step try_acquire release
step-Served pr l now ttl (acquires a) w f =
    acquire_evicted-Served pr _ _ a ttl now (evict_if_expired-Waits pr l w ttl now) f
step-Served pr l now ttl (releases k run_id) w f =
    release_evicted-Served pr _ _ k run_id ttl now (evict_if_expired-Waits pr l w ttl now) f
step-Served pr l now ttl (unlocks k run_id) w f = unlock_pr-Served pr l k run_id ttl now w f
step-Served pr l now ttl reaps w f = reap-Waits pr l w ttl now

-- The end of a lease makes progress. When the holder releases its running lease, or the reaper finds
-- the lease run out, every pull request that waits holds the lock or has one entry less before it.
pub release-progress :
    (l : Lock) (h : Holder) (ttl : ℤ) (now pr : ℕ)
    → l.holder ≡ some h
    → queued pr l.queue ≡ true
    → let l' = if expired h now then (reap l ttl now).0 else (release l h.pr h.run_id ttl now).0 in
      HeldBy pr l'.holder
      ⊎ ((queued pr l'.queue ≡ true) × (ahead pr l'.queue + 1 ≡ ahead pr l.queue))
unfolding release release_evicted evict_if_expired reap
release-progress l h ttl now pr e w =
    ground (arith, vacate-Served l ttl now pr w, ==_refl h.pr, str_eq_refl h.run_id)
