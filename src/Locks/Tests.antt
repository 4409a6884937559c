-- ===== src/Locks/Tests.antt =====
-- Runs of internal/core/locks/locks.go on small inputs, and the theorems at them.
use reeve.Prelude.{
  ℕ, ◌*◌, ◌≡◌, refl, true, false, List, [], ◌∷◌, some, String, arith, ℤ, pos, second, at, unset,
  garbled,
}
use reeve.Locks.{
  Holder, QueueItem, Lock, held, expired_lease, new_lock, try_acquire, release, unlock_pr, status,
  remove_pr, vacate, promote_next, evict_if_expired,
}
use reeve.Locks.Invariant.{IsValid}
use reeve.Locks.Exclusion.{try_acquire-Outcome, Outcome}
use reeve.Locks.Fairness.{Served, step-Served}
use reeve.Locks.History.{
  Call, acquires, releases, unlocks, reaps, step, run, run-new_lock-IsValid, run-holder_live,
}

abbrev applicant : ℕ → String → Holder
applicant pr run_id = record {
  pr = pr;
  commit_sha = "c0ffee";
  run_id = run_id;
  actor = "ana";
  acquired_at = unset;
  expires_at = unset;
  promoted = false;
}

abbrev minute : ℤ
minute = pos (60 * second)

abbrev active : Holder
active = record (applicant 7 "r1") { acquired_at = at 100; expires_at = at 160 }

abbrev waiter : ℕ → QueueItem
waiter pr = record {
  pr = pr;
  commit_sha = "beef";
  run_id = "q";
  actor = "bob";
  enqueued_at = at 110;
}

-- Pull request 7 holds the lock for the seconds 100 to 160; 8 and 9 wait.
abbrev contended : Lock
contended = record {
  project = "net";
  stack = "prod";
  holder = some active;
  queue = waiter 8 ∷ waiter 9 ∷ [];
  updated_at = at 110;
}

-- A lease that ends at a garbled time is evictable, one with no end is not.
status_garbled :
    status (record contended { holder = some (record active { expires_at = garbled }) }) 0
    ≡ expired_lease
unfolding status
status_garbled = refl

status_unset :
    status (record contended { holder = some (record active { expires_at = unset }) }) 0 ≡ held
unfolding status
status_unset = refl

release_promotes : (release contended 7 "r1" minute (120 * second)).0 ≡ record contended {
  holder = some (record (applicant 8 "q") {
    commit_sha = "beef";
    actor = "bob";
    acquired_at = at 120;
    expires_at = at 180;
    promoted = true;
  });
  queue = waiter 9 ∷ [];
  updated_at = at 120;
}
unfolding release evict_if_expired vacate promote_next
release_promotes = refl

unlock_removes : (unlock_pr contended 9 "" minute (120 * second)).queue ≡ waiter 8 ∷ []
unfolding unlock_pr remove_pr
unlock_removes = refl

abbrev calls : List (ℕ × ℤ × Call)
calls =
    (100 * second, minute, acquires (applicant 7 "r1"))
    ∷ (110 * second, minute, acquires (applicant 8 "r2"))
    ∷ (170 * second, minute, reaps)
    ∷ (171 * second, minute, unlocks 8 "")
    ∷ []

run-new_lock-IsValid_example : IsValid (run (new_lock "net" "prod" 0) calls)
run-new_lock-IsValid_example = run-new_lock-IsValid "net" "prod" 0 calls

run-holder_live_example :
    (run contended (
      (120 * second, minute, acquires (applicant 9 "r3"))
      ∷ (150 * second, minute, reaps)
      ∷ [])).holder
    ≡ some active
run-holder_live_example =
    run-holder_live contended active
      ((120 * second, minute, acquires (applicant 9 "r3")) ∷ (150 * second, minute, reaps) ∷ [])
      refl (refl, omega arith, (refl, tt, tt))

try_acquire-Outcome_example :
    Outcome
      (applicant 8 "r2")
      minute
      (170 * second)
      (try_acquire contended (applicant 8 "r2") minute (170 * second))
try_acquire-Outcome_example = try_acquire-Outcome contended (applicant 8 "r2") minute (170 * second)

step-Served_example : Served 9 1 (step contended (170 * second, minute, releases 8 "q"))
step-Served_example =
    step-Served 9 contended (170 * second) minute (releases 8 "q") refl (omega arith)
