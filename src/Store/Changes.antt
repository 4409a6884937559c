-- ===== src/Store/Changes.antt =====
-- internal/blob/locks/store.go: the transitions that the store runs on a lock.
use reeve.Prelude.{
  ℕ, ◌*◌, Bool, true, false, not, ◌&&◌, ◌||◌, List, [], ◌∷◌, Option, none, some, String, ltb, ◌==◌,
  if◌then◌else◌, ℤ, pos, is_positive, add_time, second, Stamp, unset, at, garbled, stamp, str_eq,
  is_blank,
}
use reeve.Locks as core
use reeve.Locks.{Holder, QueueItem, Lock}
use reeve.Store.{TransitionError, lock_error, holder_active, Transition}

abbrev pub errors_from : Option core.Error → Option TransitionError
errors_from none = none
errors_from (some e) = some (lock_error e)

-- A renewed lease is a success.
abbrev pub idempotent : Lock × Bool × Option core.Error → Lock × Bool × Option TransitionError
idempotent (next, ok, none) = (next, ok, none)
idempotent (next, ok, some core.already_holder) = (next, true, none)
idempotent (next, ok, some core.already_queued) = (next, ok, some (lock_error core.already_queued))
idempotent (next, ok, some core.held_by_same_pr) =
    (next, ok, some (lock_error core.held_by_same_pr))
idempotent (next, ok, some core.not_holder) = (next, ok, some (lock_error core.not_holder))

unfoldable pub acquiring : Holder → ℤ → Transition
acquiring applicant ttl now cur = idempotent (core.try_acquire cur applicant ttl now)

unfoldable pub releasing : ℕ → String → ℤ → Transition
releasing pr run_id ttl now cur =
    let answer = core.release cur pr run_id ttl now in (answer.0, false, errors_from answer.1)

abbrev pub runs_until : Stamp → ℕ → Bool
runs_until unset now = false
runs_until (at s) now = ltb now (s * second)
runs_until garbled now = false

abbrev pub is_held_by : Option Holder → ℕ → String → ℕ → Bool
is_held_by none pr run_id now = false
is_held_by (some h) pr run_id now =
    h.pr == pr && (is_blank run_id || str_eq h.run_id run_id) && runs_until h.expires_at now

abbrev pub is_holder_active : Lock → ℕ → String → ℕ → Bool
is_holder_active l pr run_id now = is_held_by l.holder pr run_id now

-- Two texts of a timestamp; two that time.Parse refuses come from the same text where the code compares.
abbrev pub same_stamp : Stamp → Stamp → Bool
same_stamp unset unset = true
same_stamp (at s) (at t) = s == t
same_stamp garbled garbled = true
same_stamp _ _ = false

abbrev same_item : QueueItem → QueueItem → Bool
same_item a b =
    a.pr == b.pr
    && str_eq a.commit_sha b.commit_sha
    && str_eq a.run_id b.run_id
    && str_eq a.actor b.actor
    && same_stamp a.enqueued_at b.enqueued_at

-- `slices.Equal`.
abbrev pub same_queue : List QueueItem → List QueueItem → Bool
same_queue [] [] = true
same_queue [] (b ∷ q) = false
same_queue (a ∷ p) [] = false
same_queue (a ∷ p) (b ∷ q) = same_item a b && same_queue p q

abbrev same_bool : Bool → Bool → Bool
same_bool true b = b
same_bool false b = not b

abbrev pub same_holder : Option Holder → Option Holder → Bool
same_holder none none = true
same_holder none (some k) = false
same_holder (some h) none = false
same_holder (some h) (some k) =
    h.pr == k.pr
    && str_eq h.commit_sha k.commit_sha
    && str_eq h.run_id k.run_id
    && str_eq h.actor k.actor
    && same_stamp h.acquired_at k.acquired_at
    && same_stamp h.expires_at k.expires_at
    && same_bool h.promoted k.promoted

unfoldable pub unlocking : ℕ → String → ℤ → Bool → Transition
unlocking pr run_id ttl force now cur =
    let next = core.unlock_pr cur pr run_id ttl now in
    if not force && is_holder_active cur pr run_id now then (cur, false, some holder_active) else (
      next,
      not (same_holder cur.holder next.holder) || not (same_queue cur.queue next.queue),
      none,
    )

unfoldable pub reaping : ℤ → Transition
reaping ttl now cur = let answer = core.reap cur ttl now in (answer.0, answer.1, none)

abbrev force_promote_from : Lock → Option Holder → List QueueItem → ℤ → ℕ → Lock
force_promote_from l (some h) q ttl now = l
force_promote_from l none [] ttl now = l
force_promote_from l none (next ∷ q) ttl now = record l {
  queue = q;
  holder = some (record {
    pr = next.pr;
    commit_sha = next.commit_sha;
    run_id = next.run_id;
    actor = next.actor;
    acquired_at = stamp now;
    expires_at = stamp (add_time now ttl);
    promoted = true;
  });
}

-- Four hours stand in for a lease length that is not positive.
unfoldable pub force_promote_queue : Lock → ℕ → ℤ → Lock
force_promote_queue l now ttl =
    force_promote_from l l.holder l.queue (if is_positive ttl then ttl else pos (14400 * second))
      now

unfoldable pub forcing : ℤ → Transition
forcing ttl now cur = (
  record (force_promote_queue (record cur { holder = none }) now ttl) { updated_at = stamp now },
  false,
  none,
)
