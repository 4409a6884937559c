-- ===== src/Locks.antt =====
-- internal/core/locks/locks.go: the lock of one stack, as a value.
pub mod Invariant
pub mod Exclusion
pub mod Fairness
pub mod Lease
pub mod History
mod Tests
use reeve.Prelude.{
  ℕ, ◌*◌, Bool, true, false, not, ◌&&◌, ◌||◌, List, [], ◌∷◌, ◌++◌, Option, none, some, String, ltb,
  ◌==◌, if◌then◌else◌, any, ℤ, pos, is_positive, add_time, second, Stamp, unset, at, garbled, stamp,
  str_eq, is_blank, length,
}

pub data Status : Type 0 where
  free held expired_lease : Status

pub record Holder : Type 0 where
  pub pr : ℕ
  pub commit_sha : String
  pub run_id : String
  pub actor : String
  pub acquired_at : Stamp
  pub expires_at : Stamp
  pub promoted : Bool

pub record QueueItem : Type 0 where
  pub pr : ℕ
  pub commit_sha : String
  pub run_id : String
  pub actor : String
  pub enqueued_at : Stamp

pub record Lock : Type 0 where
  pub project : String
  pub stack : String
  pub holder : Option Holder
  pub queue : List QueueItem
  pub updated_at : Stamp

pub data Error : Type 0 where
  already_holder already_queued held_by_same_pr not_holder : Error

unfoldable pub new_lock : String → String → ℕ → Lock
new_lock project stack now = record {
  project = project;
  stack = stack;
  holder = none;
  queue = [];
  updated_at = stamp now;
}

-- A lease that ends at a whole second runs out after that second has begun.
abbrev pub expired_stamp : Stamp → ℕ → Bool
expired_stamp unset now = false
expired_stamp (at s) now = ltb (s * second) now
expired_stamp garbled now = true

abbrev pub expired : Holder → ℕ → Bool
expired h now = expired_stamp h.expires_at now

unfoldable pub status : Lock → ℕ → Status
status l now = elim l.holder [
  | none ↦ free
  | some h ↦ if expired h now then expired_lease else held
]

-- Four hours.
abbrev pub default_promote_ttl : ℤ
default_promote_ttl = pos (14400 * second)

abbrev pub promote_ttl : ℤ → ℤ
promote_ttl ttl = if is_positive ttl then ttl else default_promote_ttl

unfoldable pub remove_pr : List QueueItem → ℕ → List QueueItem
remove_pr [] pr = []
remove_pr (item ∷ q) pr = if item.pr == pr then remove_pr q pr else item ∷ remove_pr q pr

-- The holder that `promote_next` makes of a waiting applicant.
abbrev pub reservation : QueueItem → ℤ → ℕ → Holder
reservation next ttl now = record {
  pr = next.pr;
  commit_sha = next.commit_sha;
  run_id = next.run_id;
  actor = next.actor;
  acquired_at = stamp now;
  expires_at = stamp (add_time now ttl);
  promoted = true;
}

abbrev promote_from : Lock → Option Holder → List QueueItem → ℤ → ℕ → Lock
promote_from l (some h) q ttl now = l
promote_from l none [] ttl now = l
promote_from l none (next ∷ q) ttl now = record l {
  holder = some (reservation next ttl now);
  queue = q;
}

unfoldable pub promote_next : Lock → ℕ → ℤ → Lock
promote_next l now ttl = promote_from l l.holder l.queue ttl now

-- `applicant` as `install` stores it.
abbrev pub installed : Holder → ℤ → ℕ → Holder
installed applicant ttl now = record applicant {
  acquired_at = stamp now;
  expires_at = stamp (add_time now ttl);
  promoted = false;
}

unfoldable pub install : Lock → Holder → ℤ → ℕ → Lock
install l applicant ttl now = record l {
  holder = some (installed applicant ttl now);
  queue = remove_pr l.queue applicant.pr;
  updated_at = stamp now;
}

-- `l.Holder = nil` and the promotion that follows it.
unfoldable pub vacate : Lock → ℤ → ℕ → Lock
unfolding promote_next
vacate l ttl now = promote_next (record l { holder = none }) now (promote_ttl ttl)

unfoldable pub evict_if_expired : Lock → ℕ → ℤ → Lock
evict_if_expired l now ttl = elim l.holder [
  | none ↦ l
  | some h ↦ if expired h now then vacate l ttl now else l
]

-- The same run asks again: a longer lease, actively held.
abbrev pub refreshed : Holder → Holder → ℤ → ℕ → Holder
refreshed h applicant ttl now = record h {
  expires_at = stamp (add_time now ttl);
  commit_sha = applicant.commit_sha;
  run_id = applicant.run_id;
  actor = applicant.actor;
  promoted = false;
}

abbrev pub queued : ℕ → List QueueItem → Bool
queued pr q = any (λ item. item.pr == pr) q

abbrev pub waiting : Holder → ℕ → QueueItem
waiting applicant now = record {
  pr = applicant.pr;
  commit_sha = applicant.commit_sha;
  run_id = applicant.run_id;
  actor = applicant.actor;
  enqueued_at = stamp now;
}

-- The part of `TryAcquire` behind the eviction, for a lock with that holder.
unfoldable pub acquire_held : Lock → Holder → Holder → ℤ → ℕ → Lock × Bool × Option Error
acquire_held l h applicant ttl now =
    if h.pr == applicant.pr
    then (if not (str_eq h.run_id applicant.run_id)
        then (if not h.promoted
            then (l, false, some held_by_same_pr)
            else (install l applicant ttl now, true, none))
        else (
          record l { holder = some (refreshed h applicant ttl now); updated_at = stamp now },
          true,
          some already_holder,
        ))
    else (if queued applicant.pr l.queue then (l, false, some already_queued) else (
      record l { queue = l.queue ++ (waiting applicant now ∷ []); updated_at = stamp now },
      false,
      none,
    ))

acquire_evicted : Lock → Holder → ℤ → ℕ → Lock × Bool × Option Error
unfolding acquire_held
acquire_evicted l applicant ttl now = elim l.holder [
  | none ↦ (install l applicant ttl now, true, none)
  | some h ↦ acquire_held l h applicant ttl now
]

unfoldable pub try_acquire : Lock → Holder → ℤ → ℕ → Lock × Bool × Option Error
unfolding acquire_evicted evict_if_expired
try_acquire l applicant ttl now = acquire_evicted (evict_if_expired l now ttl) applicant ttl now

abbrev pub holds : Option Holder → ℕ → String → Bool
holds none pr run_id = false
holds (some h) pr run_id = h.pr == pr && str_eq h.run_id run_id

-- The part of `Release` behind the eviction.
release_evicted : Lock → ℕ → String → ℤ → ℕ → Lock × Option Error
release_evicted l pr run_id ttl now =
    let q = remove_pr l.queue pr in
    if holds l.holder pr run_id
    then (record (vacate l ttl now) { updated_at = stamp now }, none)
    else (if not (length q == length l.queue)
        then (record l { queue = q; updated_at = stamp now }, none)
        else (record l { queue = q }, some not_holder))

unfoldable pub release : Lock → ℕ → String → ℤ → ℕ → Lock × Option Error
unfolding release_evicted evict_if_expired
release l pr run_id ttl now = release_evicted (evict_if_expired l now ttl) pr run_id ttl now

abbrev pub clears : Option Holder → ℕ → String → ℕ → Bool
clears none pr run_id now = false
clears (some h) pr run_id now =
    h.pr == pr && (is_blank run_id || str_eq h.run_id run_id || expired h now)

unfoldable pub unlock_pr : Lock → ℕ → String → ℤ → ℕ → Lock
unlock_pr l pr run_id ttl now =
    let l' = if clears l.holder pr run_id now then vacate l ttl now else l in
    record l' { queue = remove_pr l'.queue pr; updated_at = stamp now }

unfoldable pub reap : Lock → ℤ → ℕ → Lock × Bool
reap l ttl now = elim l.holder [
  | none ↦ (l, false)
  | some h ↦
      if expired h now
      then (record (vacate l ttl now) { updated_at = stamp now }, true)
      else (l, false)
]
