-- ===== src/Store/Tests.antt =====
-- Runs of internal/blob/locks/store.go against a bucket whose objects take a given course, with others who
-- write first, and the theorems at them.
use reeve.Locks.{reap}
use reeve.Prelude.{
  ℕ, zero, suc, ◌*◌, ◌<◌, ◌≡◌, refl, ◌⊎◌, inl, inr, true, false, not, ◌&&◌, Bool, Option, none,
  some, [], ◌∷◌, String, if◌then◌else◌, str_eq, str_eq_iff, is_blank, pos, second, arith, at,
}
use reeve.Locks.{
  Holder, QueueItem, Lock, new_lock, install, try_acquire, acquire_held, evict_if_expired,
  remove_pr,
}
use reeve.Locks.Invariant.{IsValid}
use reeve.Keys.{key}
use reeve.Store.{
  Bucket, Fetched, stored, not_found, Written, done, precondition_failed, Answer, answered,
  TransitionError, get, put, mutate_round, mutate_from, mutate, maintain_stack,
}
use reeve.Store.Changes.{acquiring, reaping}
use reeve.Store.Transition.{IsConditional, Matches, Follows, mutate-Follows}
use reeve.Store.{maintain_from, maintain_round, maintain_write}
use reeve.Store.Walks.{snapshot_for, walk_from, reap_all}
use reeve.Store.Upkeep.{Swaps, maintain_stack-Swaps, reaping-new_lock}
use reeve.Store.Guarantees.{Acquires, acquired-holder}
use reeve.Store.Progress.{IsReliable, tag_of, is_readable, is_answered, mutate_answered}

abbrev digest : String → String
digest s = "d41d8cd98f00b204e9800998ecf8427e"

abbrev holder_of : ℕ → String → Holder
holder_of pr run_id = record {
  pr = pr;
  commit_sha = "c0ffee";
  run_id = run_id;
  actor = "ann";
  acquired_at = at 10;
  expires_at = at 100;
  promoted = false;
}

abbrev waiting_8 : QueueItem
waiting_8 = record {
  pr = 8;
  commit_sha = "beef";
  run_id = "r8";
  actor = "bob";
  enqueued_at = at 20;
}

abbrev taken : Lock
taken = record {
  project = "net";
  stack = "prod";
  holder = some (holder_of 5 "r5");
  queue = [];
  updated_at = at 10;
}

abbrev awaited : Lock
awaited = record taken { queue = waiting_8 ∷ [] }

-- The object as one write after another leaves it.
abbrev course : ℕ → Option (Lock × String)
course zero = none
course (suc zero) = some (taken, "v1")
course (suc (suc n)) = some (awaited, "v2")

record Course : Type 0 where
  version : ℕ
  rivals : ℕ
  clock : ℕ

abbrev is_suc : ℕ → Bool
is_suc zero = false
is_suc (suc n) = true

abbrev rest : ℕ → ℕ
rest zero = zero
rest (suc n) = n

abbrev met_version : Course → ℕ
met_version w = if is_suc w.rivals then suc w.version else w.version

abbrev matches : String → Option (Lock × String) → Bool
matches etag none = is_blank etag
matches etag (some (l, e)) = not (is_blank etag) && str_eq e etag

abbrev fetched : Option (Lock × String) → Fetched
fetched none = not_found
fetched (some (l, etag)) = stored l etag

abbrev write : String → Course → Written × Course
write etag w =
    if matches etag (course (met_version w))
    then (done, record w { version = suc (met_version w); rivals = rest w.rivals })
    else (precondition_failed, record w { version = met_version w; rivals = rest w.rivals })

abbrev bucket : Bucket Course
bucket = record {
  get = λ k w. (fetched (course w.version), w);
  put_if_match = λ k l etag w. write etag w;
  ensure_cas = λ w. (true, w);
  now = λ w. w.clock;
  met = λ k w. course (met_version w);
}

matched : (etag : String) (o : Option (Lock × String)) → matches etag o ≡ true → Matches etag o
matched etag none e = e
matched etag (some (l, tag)) e = ground (arith, e, str_eq_iff tag etag)

bucket-IsConditional : IsConditional bucket
bucket-IsConditional = record {
  put_matched = λ k l etag w e. matched etag (course (met_version w)) (ground (arith, e));
}

abbrev applicant : Holder
applicant = holder_of 7 "r7"

-- Nobody holds the lock, and nobody else writes.
abbrev quiet : Course
quiet = record { version = 0; rivals = 0; clock = 30 * second }

-- Nobody holds the lock, and another pull request takes it before the first write.
abbrev raced : Course
raced = record { version = 0; rivals = 1; clock = 30 * second }

-- The holder's lease has run out, with one waiting.
abbrev late : Course
late = record { version = 2; rivals = 0; clock = 200 * second }

-- The writer that loses the race reads again and waits behind the winner.
race_lost :
    is_answered (mutate bucket digest 0 "net" "prod" (acquiring applicant (pos second)) raced).0
    ≡ false
unfolding mutate mutate_from mutate_round get put new_lock acquiring
race_lost = refl

race_retried :
    (mutate bucket digest 1 "net" "prod" (acquiring applicant (pos second)) raced).0
    ≡ answered
        (record taken {
          queue =
              record {
                pr = 7;
                commit_sha = "c0ffee";
                run_id = "r7";
                actor = "ann";
                enqueued_at = at 30;
              }
              ∷ [];
          updated_at = at 30;
        })
        false
        none
unfolding mutate mutate_from mutate_round get put new_lock acquiring try_acquire evict_if_expired
    acquire_held
race_retried = refl

course_readable : (i : ℕ) → is_readable (fetched (course i)) ≡ true
course_readable zero = refl
course_readable (suc zero) = refl
course_readable (suc (suc i)) = refl

-- A write right behind the read of the course.
abbrev written : ℕ → ℕ → ℕ → Written × Course
written v r c = write (tag_of (fetched (course v))) (record { version = v; rivals = r; clock = c })

course_written :
    (v r c : ℕ)
    → ((written v r c).0 ≡ done)
      ⊎ (((written v r c).0 ≡ precondition_failed) × ((written v r c).1.rivals < r))
course_written zero zero c = inl refl
course_written (suc zero) zero c = inl refl
course_written (suc (suc v)) zero c = inl refl
course_written zero (suc r) c = inr (refl, omega arith)
course_written (suc zero) (suc r) c = inr (refl, omega arith)
course_written (suc (suc v)) (suc r) c = inl refl

bucket-IsReliable : IsReliable bucket (key digest "net" "prod") (λ w. w.rivals)
bucket-IsReliable = record {
  probed = λ w. refl;
  probe_rivals = λ w. omega arith;
  readable = λ w. course_readable w.version;
  read_rivals = λ w. omega arith;
  won_or_lost = λ l w. course_written w.version w.rivals w.clock;
}

course-IsValid : (u : ℕ) (l : Lock) (etag : String) → course u ≡ some (l, etag) → IsValid l
course-IsValid zero l etag e = ground (arith, e)
course-IsValid (suc zero) l etag e = ground (arith, e)
course-IsValid (suc (suc u)) l etag e = ground (arith, e)

abbrev raced_answer : Answer
raced_answer =
    answered
      (record taken {
        queue =
            record {
              pr = 7;
              commit_sha = "c0ffee";
              run_id = "r7";
              actor = "ann";
              enqueued_at = at 30;
            }
            ∷ [];
        updated_at = at 30;
      })
      false none

mutate-Follows_example :
    Follows bucket digest "net" "prod" (acquiring applicant (pos second)) raced_answer
unfolding mutate mutate_from mutate_round get put new_lock acquiring try_acquire evict_if_expired
    acquire_held
mutate-Follows_example =
    mutate-Follows bucket digest bucket-IsConditional 1 "net" "prod"
      (acquiring applicant (pos second)) raced

mutate_answered_example :
    is_answered (mutate bucket digest 1 "net" "prod" (acquiring applicant (pos second)) raced).0
    ≡ true
mutate_answered_example =
    mutate_answered bucket digest "net" "prod" (λ w. w.rivals) bucket-IsReliable 1
      (acquiring applicant (pos second)) raced (omega arith)

abbrev queued_lock : Lock
queued_lock = record taken {
  queue =
      record { pr = 7; commit_sha = "c0ffee"; run_id = "r7"; actor = "ann"; enqueued_at = at 30 }
      ∷ [];
  updated_at = at 30;
}

abbrev no_error : Option TransitionError
no_error = none

abbrev acquired_lock : Lock
acquired_lock = record {
  project = "net";
  stack = "prod";
  holder = some (record applicant { acquired_at = at 30; expires_at = at 31 });
  queue = [];
  updated_at = at 30;
}

acquired-holder_example :
    Acquires bucket digest "net" "prod" applicant (pos second) acquired_lock no_error
unfolding mutate mutate_from mutate_round get put new_lock acquiring try_acquire evict_if_expired
    install remove_pr
acquired-holder_example =
    acquired-holder bucket digest bucket-IsConditional 1 "net" "prod" quiet applicant (pos second)
      acquired_lock no_error refl

maintain_stack-Swaps_example :
    Swaps bucket digest
      (key digest "net" "prod")
      (reaping (pos second))
      (maintain_stack bucket digest 5 "net" "prod" (reaping (pos second)) late).0
maintain_stack-Swaps_example =
    maintain_stack-Swaps bucket digest bucket-IsConditional 5 "net" "prod" (reaping (pos second))
      late (λ t. reaping-new_lock (pos second) "net" "prod" t)

late_reaped :
    (reap_all bucket digest 5
      (pos second)
      (some (key digest "net" "prod" ∷ "locks/readme.md" ∷ []))
      late).0.count
    ≡ 1
unfolding reap_all walk_from snapshot_for maintain_from maintain_round maintain_write reaping reap
    put key reeve.Keys.slug_component reeve.Keys.passthrough_or_digest reeve.Keys.is_passthrough
late_reaped = refl
