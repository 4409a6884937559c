-- ===== src/Store.antt =====
-- internal/blob/locks/store.go: the locks as objects of a bucket, written under the condition that nobody
-- else has written since the read.
pub mod Changes
pub mod Transition
pub mod Upkeep
pub mod Walks
pub mod Swept
pub mod Guarantees
pub mod Unlock
pub mod Progress
mod Tests
use reeve.Prelude.{
  ℕ, ◌*◌, zero, suc, Bool, true, false, not, ◌&&◌, ◌||◌, List, [], ◌∷◌, Option, none, some, String,
  ltb, ◌==◌, if◌then◌else◌, any, ℤ, pos, is_positive, add_time, second, Stamp, unset, at, garbled,
  stamp, str_eq, is_blank,
}
use reeve.Locks as core
use reeve.Locks.{
  Holder, QueueItem, Lock, new_lock, already_holder, reservation, default_promote_ttl,
}
use reeve.Keys.{key}

-- What a read of an object gives: a lock and its ETag, or that there is none, or a failure to read or to
-- decode it.
pub data Fetched : Type 0 where
  stored : Lock → String → Fetched
  not_found unreadable undecodable : Fetched

pub data Written : Type 0 where
  done precondition_failed write_failed : Written

-- internal/blob/store.go: Store, as far as locks use it, with the clock and the probe of
-- internal/blob/cas.go. A state is the bucket with all that others are still going to do to it, so each
-- call answers a state.
pub record Bucket (World : Type 0) : Type 0 where
  pub get : String → World → Fetched × World
  pub put_if_match : String → Lock → String → World → Written × World
  pub ensure_cas : World → Bool × World
  pub now : World → ℕ
  -- The object as a write in that state meets it, with its ETag.
  pub met : String → World → Option (Lock × String)

pub data Failure : Type 0 where
  conditional_writes_unsupported get_failed decode_failed put_failed : Failure
  retries_exceeded wrong_key : Failure

-- The errors of a transition and of the store itself.
pub data TransitionError : Type 0 where
  lock_error : core.Error → TransitionError
  holder_active : TransitionError

pub data Answer : Type 0 where
  failed : Failure → Answer
  answered : Lock → Bool → Option TransitionError → Answer

-- A transition at a time: the next lock, a flag and an error.
abbrev pub Transition : Type 0
Transition = ℕ → Lock → Lock × Bool × Option TransitionError

-- A lock as it was read, with the ETag; an empty ETag means that there was no object.
pub data Snapshot : Type 0 where
  snapshot : Lock → String → Snapshot
  lost : Failure → Snapshot

module _ {World : Type 0} (bucket : Bucket World) (short_hash : String → String) where
  abbrev pub as_snapshot : String → String → ℕ → Fetched → Snapshot
  as_snapshot project stack now (stored l etag) = snapshot l etag
  as_snapshot project stack now not_found = snapshot (new_lock project stack now) ""
  as_snapshot project stack now unreadable = lost get_failed
  as_snapshot project stack now undecodable = lost decode_failed

  unfoldable pub get : String → String → World → Snapshot × World
  get project stack w =
      let answer = bucket.get (key short_hash project stack) w in
      (as_snapshot project stack (bucket.now answer.1) answer.0, answer.1)

  -- The write that ends a round: an answer, or none where another write came first.
  unfoldable pub put :
      String → String → Lock × Bool × Option TransitionError → World → Option Answer × World
  put k etag (next, flag, err) w =
      let answer = bucket.put_if_match k next etag w in
      elim answer.0 [
        | done ↦ (some (answered next flag err), answer.1)
        | precondition_failed ↦ (none, answer.1)
        | write_failed ↦ (some (failed put_failed), answer.1)
      ]

  unfoldable pub mutate_round : String → String → Transition → World → Option Answer × World
  mutate_round project stack fn w =
      let answer = get project stack w in
      elim answer.0 [
        | lost f ↦ (some (failed f), answer.1)
        | snapshot cur etag ↦
            put (key short_hash project stack) etag (fn (bucket.now answer.1) cur) answer.1
      ]

  unfoldable pub mutate_from : ℕ → String → String → Transition → World → Answer × World
  mutate_from zero project stack fn w = (failed retries_exceeded, w)
  mutate_from (suc n) project stack fn w =
      let round = mutate_round project stack fn w in
      elim round.0 [ some a ↦ (a, round.1) | none ↦ mutate_from n project stack fn round.1 ]

  -- With MaxRetries retries.
  unfoldable pub mutate : ℕ → String → String → Transition → World → Answer × World
  mutate max_retries project stack fn w =
      let probe = bucket.ensure_cas w in
      if probe.0
      then mutate_from (suc max_retries) project stack fn probe.1
      else (failed conditional_writes_unsupported, probe.1)

  abbrev pub has_key : Lock → String → Bool
  has_key l k =
      not (is_blank l.project)
      && not (is_blank l.stack)
      && str_eq (key short_hash l.project l.stack) k

  -- A round of `maintain` behind the transition.
  unfoldable pub maintain_write :
      String → Lock → String → Lock × Bool × Option TransitionError → World → Option Answer × World
  maintain_write k cur etag (next, changed, err) w =
      let probe = bucket.ensure_cas w in
      elim err [
        | some e ↦ (some (answered cur false (some e)), w)
        | none ↦
            if not changed
            then (some (answered cur false none), w)
            else (if probe.0
                then put k etag (next, true, none) probe.1
                else (some (failed conditional_writes_unsupported), probe.1))
      ]

  unfoldable pub maintain_round :
      String → Lock → String → Transition → World → Option Answer × World
  maintain_round k cur etag fn w =
      if has_key cur k
      then maintain_write k cur etag (fn (bucket.now w) cur) w
      else (some (failed wrong_key), w)

  -- The loop of `maintain`, with the attempts that are left.
  unfoldable pub maintain_from : ℕ → String → Lock → String → Transition → World → Answer × World
  maintain_from zero k cur etag fn w = (failed retries_exceeded, w)
  maintain_from (suc zero) k cur etag fn w =
      let round = maintain_round k cur etag fn w in
      elim round.0 [ some a ↦ (a, round.1) | none ↦ (failed retries_exceeded, round.1) ]
  maintain_from (suc (suc n)) k cur etag fn w =
      let round = maintain_round k cur etag fn w in
      let again = bucket.get k round.1 in
      elim round.0 [
        | some a ↦ (a, round.1)
        | none ↦ elim again.0 [
          | stored l e ↦ maintain_from (suc n) k l e fn again.1
          | not_found ↦
              (answered (new_lock cur.project cur.stack (bucket.now again.1)) false none, again.1)
          | unreadable ↦ (failed get_failed, again.1)
          | undecodable ↦ (failed decode_failed, again.1)
        ]
      ]

  -- UnlockPR and Reap: a read, then `maintain`.
  unfoldable pub maintain_stack : ℕ → String → String → Transition → World → Answer × World
  maintain_stack max_retries project stack fn w =
      let answer = get project stack w in
      elim answer.0 [
        | lost f ↦ (failed f, answer.1)
        | snapshot cur etag ↦
            maintain_from (suc max_retries) (key short_hash project stack) cur etag fn answer.1
      ]
