-- ===== src/Store/Transition.antt =====
-- The compare and swap of internal/blob/locks/store.go: what an answer is a transition of.
use reeve.Prelude.{
  ℕ, zero, suc, ◌≡◌, refl, ◌⊎◌, subst, true, false, Option, none, some, String, is_blank, arith,
  Option-cases, inl, inr,
}
use reeve.Locks.{Lock}
use reeve.Keys.{key}
use reeve.Store.{
  Bucket, Fetched, stored, not_found, unreadable, undecodable, Written, done, precondition_failed,
  write_failed, Failure, Snapshot, snapshot, lost, Answer, answered, failed, Transition, get, put,
  mutate_round, mutate_from, mutate,
}

-- The ETag that a conditional write gives is that of the object it meets; an empty one asks that there is
-- none.
abbrev pub Matches : String → Option (Lock × String) → Type 0
Matches etag none = is_blank etag ≡ true
Matches etag (some (l, e)) = (is_blank etag ≡ false) × (e ≡ etag)

-- What internal/blob/store.go documents of PutIfMatch: it writes only over an object that has the ETag
-- given, and for an empty one only where there is no object.
pub record IsConditional {World : Type 0} (bucket : Bucket World) : Type 0 where
  pub put_matched :
      (k : String) (l : Lock) (etag : String) (w : World)
      → (bucket.put_if_match k l etag w).0 ≡ done
      → Matches etag (bucket.met k w)

pub Written-cases : (x : Written) → (x ≡ done) ⊎ ((x ≡ precondition_failed) ⊎ (x ≡ write_failed))
Written-cases done = inl refl
Written-cases precondition_failed = inr (inl refl)
Written-cases write_failed = inr (inr refl)

pub Fetched-cases :
    (x : Fetched)
    → ((l : Lock) × (etag : String) × (x ≡ stored l etag))
      ⊎ ((x ≡ not_found) ⊎ ((x ≡ unreadable) ⊎ (x ≡ undecodable)))
Fetched-cases (stored l etag) = inl (l, etag, refl)
Fetched-cases not_found = inr (inl refl)
Fetched-cases unreadable = inr (inr (inl refl))
Fetched-cases undecodable = inr (inr (inr refl))

module _ {World : Type 0} (bucket : Bucket World) (short_hash : String → String) where
  -- A lock was read together with an ETag, in state u; the next thing that this store did to the bucket was
  -- to write another lock under that very ETag, and the write met an object that still had it, or none if
  -- the ETag is the empty one of a missing object.
  abbrev pub Replaces : String → String → World → Lock → String → Lock → Type 0
  Replaces project stack u cur etag next =
      ((get bucket short_hash project stack u).0 ≡ snapshot cur etag)
      × ((bucket.put_if_match (key short_hash project stack) next etag
            (get bucket short_hash project stack u).1).0
          ≡ done)
      × Matches etag
          (bucket.met (key short_hash project stack) (get bucket short_hash project stack u).1)

  -- The answer was written in place of a lock of which it is the transition.
  abbrev pub Follows : String → String → Transition → Answer → Type 0
  Follows project stack fn (failed f) = Unit {0}
  Follows project stack fn (answered next flag err) =
      (u : World) × (cur : Lock) × (etag : String) × Replaces project stack u cur etag next
      × (fn (bucket.now (get bucket short_hash project stack u).1) cur ≡ (next, flag, err))

  abbrev FollowsRound : String → String → Transition → Option Answer → Type 0
  FollowsRound project stack fn none = Unit {0}
  FollowsRound project stack fn (some a) = Follows project stack fn a

  Snapshot-cases :
      (x : Snapshot)
      → ((l : Lock) × (etag : String) × (x ≡ snapshot l etag)) ⊎ ((f : Failure) × (x ≡ lost f))
  Snapshot-cases (snapshot l etag) = inl (l, etag, refl)
  Snapshot-cases (lost f) = inr (f, refl)

  module _ (conditional : IsConditional bucket) where
    put-FollowsRound :
        (project stack etag : String) (fn : Transition) (cur : Lock) (u : World)
        → (get bucket short_hash project stack u).0 ≡ snapshot cur etag
        → FollowsRound project stack fn
            (put bucket short_hash
              (key short_hash project stack)
              etag
              (fn (bucket.now (get bucket short_hash project stack u).1) cur)
              (get bucket short_hash project stack u).1).0
    unfolding put
    put-FollowsRound project stack etag fn cur u g =
        let w = (get bucket short_hash project stack u).1 in
        let next = (fn (bucket.now w) cur).0 in
        let k = key short_hash project stack in
        elim (Written-cases (bucket.put_if_match k next etag w).0) [
          | inl e ↦
              rw (e, FollowsRound, put)
                (u, cur, etag, (g, e, conditional.put_matched k next etag w e), refl)
          | inr (inl e) ↦ rw (e, FollowsRound, put) tt
          | inr (inr e) ↦ rw (e, FollowsRound, put) tt
        ]

    mutate_round-FollowsRound :
        (project stack : String) (fn : Transition) (w : World)
        → FollowsRound project stack fn (mutate_round bucket short_hash project stack fn w).0
    unfolding mutate_round
    mutate_round-FollowsRound project stack fn w =
        elim (Snapshot-cases (get bucket short_hash project stack w).0) [
          | inl (l, etag, e) ↦
              rw (e, FollowsRound, mutate_round) (put-FollowsRound project stack etag fn l w e)
          | inr (f, e) ↦ rw (e, FollowsRound, mutate_round) tt
        ]

    mutate_from-Follows :
        (n : ℕ) (project stack : String) (fn : Transition) (w : World)
        → Follows project stack fn (mutate_from bucket short_hash n project stack fn w).0
    unfolding mutate_from
    mutate_from-Follows zero project stack fn w = tt
    mutate_from-Follows (suc n) project stack fn w =
        let round = mutate_round bucket short_hash project stack fn w in
        elim (Option-cases round.0) [
          | inl e ↦ rw (e, Follows, mutate_from) (mutate_from-Follows n project stack fn round.1)
          | inr (a, e) ↦
              rw (e, Follows, mutate_from)
                (subst (FollowsRound project stack fn) e
                  (mutate_round-FollowsRound project stack fn w))
        ]

    -- Let PutIfMatch write only over an object that has the ETag given, and none for an empty one, as
    -- store.go documents. Then what TryAcquire, Release and ForceUnlock of the store answer is the
    -- transition of a lock that was read together with an ETag, a new lock with an empty one where there was
    -- none to read; it was written right after that read, under that ETag, and the write met an object
    -- that still had it, or none if it is empty.
    pub mutate-Follows :
        (max_retries : ℕ) (project stack : String) (fn : Transition) (w : World)
        → Follows project stack fn (mutate bucket short_hash max_retries project stack fn w).0
    unfolding mutate
    mutate-Follows max_retries project stack fn w =
        ground
          (arith, mutate_from-Follows (suc max_retries) project stack fn (bucket.ensure_cas w).1)
