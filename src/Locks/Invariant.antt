-- ===== src/Locks/Invariant.antt =====
-- What holds of every lock that internal/core/locks/locks.go produces.
use reeve.Prelude.{
  ℕ, ◌≡◌, refl, false, ◌||◌, List, [], ◌∷◌, ◌++◌, Option, none, some, String, arith, ◌==◌,
  Option-cases, inl, inr, ℤ,
}
use reeve.Locks.{
  Holder, QueueItem, Lock, remove_pr, queued, promote_next, vacate, install, evict_if_expired,
  acquire_held, acquire_evicted, try_acquire, release_evicted, release, unlock_pr, reap,
  promote_ttl, waiting,
}

-- No pull request waits twice.
abbrev pub Distinct : List QueueItem → Type 0
Distinct [] = Unit {0}
Distinct (item ∷ q) = (queued item.pr q ≡ false) × Distinct q

-- A free lock has nobody waiting, and a holder's pull request does not wait.
abbrev pub Apart : Option Holder → List QueueItem → Type 0
Apart none q = q ≡ []
Apart (some h) q = queued h.pr q ≡ false

pub record IsValid (l : Lock) : Type 0 where
  pub distinct : Distinct l.queue
  pub apart : Apart l.holder l.queue

pub queued-remove_pr :
    (k pr : ℕ) (q : List QueueItem) → queued k q ≡ false → queued k (remove_pr q pr) ≡ false
unfolding remove_pr
queued-remove_pr k pr [] h = refl
queued-remove_pr k pr (item ∷ q) h = ground (arith, queued-remove_pr k pr q)

pub queued-remove_pr_self : (pr : ℕ) (q : List QueueItem) → queued pr (remove_pr q pr) ≡ false
unfolding remove_pr
queued-remove_pr_self pr [] = refl
queued-remove_pr_self pr (item ∷ q) = ground (arith, queued-remove_pr_self pr q)

pub remove_pr-Distinct : (pr : ℕ) (q : List QueueItem) → Distinct q → Distinct (remove_pr q pr)
unfolding remove_pr
remove_pr-Distinct pr [] d = tt
remove_pr-Distinct pr (item ∷ q) d =
    ground (arith, remove_pr-Distinct pr q d.1, queued-remove_pr item.pr pr q d.0)

pub queued-append :
    (k : ℕ) (q : List QueueItem) (item : QueueItem)
    → queued k (q ++ (item ∷ [])) ≡ (queued k q || item.pr == k)
queued-append k [] item = ground arith
queued-append k (x ∷ q) item = ground (arith, queued-append k q item)

append-Distinct :
    (q : List QueueItem) (item : QueueItem)
    → Distinct q
    → queued item.pr q ≡ false
    → Distinct (q ++ (item ∷ []))
append-Distinct [] item d h = ground arith
append-Distinct (x ∷ q) item d h =
    ground (arith, append-Distinct q item d.1, queued-append x.pr q item)

promote_next-IsValid :
    (l : Lock) (now : ℕ) (ttl : ℤ)
    → Distinct l.queue
    → l.holder ≡ none
    → IsValid (promote_next l now ttl)
unfolding promote_next
promote_next-IsValid l now ttl d e = ground arith

pub vacate-IsValid : (l : Lock) (ttl : ℤ) (now : ℕ) → IsValid l → IsValid (vacate l ttl now)
unfolding vacate
vacate-IsValid l ttl now v = promote_next-IsValid _ now (promote_ttl ttl) v.distinct refl

pub evict_if_expired-IsValid :
    (l : Lock) (now : ℕ) (ttl : ℤ) → IsValid l → IsValid (evict_if_expired l now ttl)
unfolding evict_if_expired
evict_if_expired-IsValid l now ttl v = ground (arith, vacate-IsValid l ttl now)

install-IsValid :
    (l : Lock) (a : Holder) (ttl : ℤ) (now : ℕ) → IsValid l → IsValid (install l a ttl now)
unfolding install
install-IsValid l a ttl now v = record {
  distinct = remove_pr-Distinct a.pr l.queue v.distinct;
  apart = queued-remove_pr_self a.pr l.queue;
}

remove_pr-Apart :
    (o : Option Holder) (q : List QueueItem) (pr : ℕ) → Apart o q → Apart o (remove_pr q pr)
unfolding remove_pr
remove_pr-Apart none q pr e = rw e
remove_pr-Apart (some h) q pr e = queued-remove_pr h.pr pr q e

-- Only the queue of that lock loses a pull request.
remove_pr-IsValid :
    (l : Lock) (pr : ℕ)
    → IsValid l
    → (Distinct (remove_pr l.queue pr)) × (Apart l.holder (remove_pr l.queue pr))
remove_pr-IsValid l pr v =
    (remove_pr-Distinct pr l.queue v.distinct, remove_pr-Apart l.holder l.queue pr v.apart)

acquire_held-IsValid :
    (l : Lock) (h a : Holder) (ttl : ℤ) (now : ℕ)
    → l.holder ≡ some h
    → IsValid l
    → IsValid (acquire_held l h a ttl now).0
unfolding acquire_held
acquire_held-IsValid l h a ttl now e v = ground (
  arith,
  install-IsValid l a ttl now v,
  append-Distinct l.queue (waiting a now) v.distinct,
  queued-append h.pr l.queue (waiting a now),
)

acquire_evicted-IsValid :
    (l : Lock) (a : Holder) (ttl : ℤ) (now : ℕ)
    → IsValid l
    → IsValid (acquire_evicted l a ttl now).0
unfolding acquire_evicted
acquire_evicted-IsValid l a ttl now v = elim (Option-cases l.holder) [
  | inl e ↦ rw (e, acquire_evicted) (install-IsValid l a ttl now v)
  | inr (h, e) ↦ rw (e, acquire_evicted) (acquire_held-IsValid l h a ttl now e v)
]

-- A call of TryAcquire keeps the lock valid.
pub try_acquire-IsValid :
    (l : Lock) (a : Holder) (ttl : ℤ) (now : ℕ) → IsValid l → IsValid (try_acquire l a ttl now).0
unfolding try_acquire
try_acquire-IsValid l a ttl now v =
    acquire_evicted-IsValid _ a ttl now (evict_if_expired-IsValid l now ttl v)

release_evicted-IsValid :
    (l : Lock) (pr : ℕ) (run_id : String) (ttl : ℤ) (now : ℕ)
    → IsValid l
    → IsValid (release_evicted l pr run_id ttl now).0
unfolding release_evicted
release_evicted-IsValid l pr run_id ttl now v =
    ground (arith, vacate-IsValid l ttl now v, remove_pr-IsValid l pr v)

pub release-IsValid :
    (l : Lock) (pr : ℕ) (run_id : String) (ttl : ℤ) (now : ℕ)
    → IsValid l
    → IsValid (release l pr run_id ttl now).0
unfolding release
release-IsValid l pr run_id ttl now v =
    release_evicted-IsValid _ pr run_id ttl now (evict_if_expired-IsValid l now ttl v)

pub unlock_pr-IsValid :
    (l : Lock) (pr : ℕ) (run_id : String) (ttl : ℤ) (now : ℕ)
    → IsValid l
    → IsValid (unlock_pr l pr run_id ttl now)
unfolding unlock_pr
unlock_pr-IsValid l pr run_id ttl now v = ground (
  arith,
  vacate-IsValid l ttl now v,
  remove_pr-IsValid l pr v,
  remove_pr-IsValid (vacate l ttl now) pr,
)

pub reap-IsValid : (l : Lock) (ttl : ℤ) (now : ℕ) → IsValid l → IsValid (reap l ttl now).0
unfolding reap
reap-IsValid l ttl now v = ground (arith, vacate-IsValid l ttl now v)
