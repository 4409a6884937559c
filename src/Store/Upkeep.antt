-- ===== src/Store/Upkeep.antt =====
-- UnlockPR and Reap of internal/blob/locks/store.go, which write only a lock that they change.
use reeve.Prelude.{
  ℕ, zero, suc, ◌≡◌, refl, subst, ap, true, false, Option, none, some, String, Bool, ℤ, arith,
  Option-cases, if_cases, inl, inr,
}
use reeve.Locks.{Lock, new_lock, reap, unlock_pr, remove_pr}
use reeve.Keys.{key}
use reeve.Store.{
  Bucket, stored, done, Answer, answered, failed, TransitionError, Transition, get, put,
  maintain_write, maintain_round, maintain_from, maintain_stack, has_key,
}
use reeve.Store.Changes.{unlocking, reaping}
use reeve.Store.Transition.{Matches, IsConditional, Written-cases, Fetched-cases}

module _ {World : Type 0} (bucket : Bucket World) (short_hash : String → String) where
  -- The lock and the ETag that a call of Get in a state has answered, with the state after it.
  abbrev pub IsRead : String → World → Lock → String → World → Type 0
  IsRead k u l etag w = ((bucket.get k u).0 ≡ stored l etag) × ((bucket.get k u).1 ≡ w)

  -- A lock was read together with an ETag, the transition at that time changed it, and the next thing that
  -- this store did to the bucket, but for the probe of ensure_cas, was to write the change under that ETag,
  -- over an object that still had it, or none if it is empty.
  abbrev pub IsSwap : String → Transition → Lock → Type 0
  IsSwap k fn next =
      (u : World) × (w : World) × (l : Lock) × (etag : String) × IsRead k u l etag w
      × ((fn (bucket.now w) l).0 ≡ next)
      × ((fn (bucket.now w) l).1 ≡ true)
      × ((bucket.put_if_match k next etag (bucket.ensure_cas w).1).0 ≡ done)
      × Matches etag (bucket.met k (bucket.ensure_cas w).1)

  -- A change that is answered was written in place of a lock of which it is the transition.
  abbrev pub Swaps : String → Transition → Answer → Type 0
  Swaps k fn (failed f) = Unit {0}
  Swaps k fn (answered next false err) = Unit {0}
  Swaps k fn (answered next true err) = IsSwap k fn next

  abbrev SwapsRound : String → Transition → Option Answer → Type 0
  SwapsRound k fn none = Unit {0}
  SwapsRound k fn (some a) = Swaps k fn a

  -- A lock that the transition leaves ends the loop in its first round.
  maintain_from_unchanged :
      (n : ℕ) (k : String) (cur : Lock) (etag : String) (fn : Transition) (w : World)
      → (fn (bucket.now w) cur).1 ≡ false
      → Swaps k fn (maintain_from bucket short_hash (suc n) k cur etag fn w).0
  unfolding maintain_from maintain_round maintain_write
  maintain_from_unchanged zero k cur etag fn w e = ground (arith, e)
  maintain_from_unchanged (suc n) k cur etag fn w e = ground (arith, e)

  module _ (conditional : IsConditional bucket) where
    put-SwapsRound :
        (k : String) (u w : World) (cur next : Lock) (etag : String) (fn : Transition)
        → IsRead k u cur etag w
        → (fn (bucket.now w) cur).0 ≡ next
        → (fn (bucket.now w) cur).1 ≡ true
        → SwapsRound k fn
            (put bucket short_hash k etag (next, true, none) (bucket.ensure_cas w).1).0
    unfolding put
    put-SwapsRound k u w cur next etag fn read e c =
        let v = (bucket.ensure_cas w).1 in
        elim (Written-cases (bucket.put_if_match k next etag v).0) [
          | inl d ↦
              rw (d, SwapsRound, put)
                (u, w, cur, etag, read, e, c, d, conditional.put_matched k next etag v d)
          | inr (inl d) ↦ rw (d, SwapsRound, put) tt
          | inr (inr d) ↦ rw (d, SwapsRound, put) tt
        ]

    maintain_write-SwapsRound :
        (k : String) (u w : World) (cur : Lock) (etag : String) (fn : Transition)
        → IsRead k u cur etag w
        → (a : Lock × Bool × Option TransitionError) → fn (bucket.now w) cur ≡ a
        → SwapsRound k fn (maintain_write bucket short_hash k cur etag a w).0
    unfolding maintain_write
    maintain_write-SwapsRound k u w cur etag fn read (next, changed, some err) e = tt
    maintain_write-SwapsRound k u w cur etag fn read (next, false, none) e = tt
    maintain_write-SwapsRound k u w cur etag fn read (next, true, none) e =
        if_cases (λ (r : Option Answer × World). SwapsRound k fn r.0) (bucket.ensure_cas w).0 _ _
          (λ _. put-SwapsRound k u w cur next etag fn read (ap (λ a. a.0) e) (ap (λ a. a.1) e))
          (λ _. tt)

    maintain_round-SwapsRound :
        (k : String) (u w : World) (cur : Lock) (etag : String) (fn : Transition)
        → IsRead k u cur etag w
        → SwapsRound k fn (maintain_round bucket short_hash k cur etag fn w).0
    unfolding maintain_round
    maintain_round-SwapsRound k u w cur etag fn read =
        if_cases (λ (r : Option Answer × World). SwapsRound k fn r.0)
          (has_key bucket short_hash cur k) _ _
          (λ _. maintain_write-SwapsRound k u w cur etag fn read _ refl) (λ _. tt)

    pub maintain_from-Swaps :
        (n : ℕ) (k : String) (u w : World) (cur : Lock) (etag : String) (fn : Transition)
        → IsRead k u cur etag w
        → Swaps k fn (maintain_from bucket short_hash n k cur etag fn w).0
    unfolding maintain_from
    maintain_from-Swaps zero k u w cur etag fn read = tt
    maintain_from-Swaps (suc zero) k u w cur etag fn read =
        let round = maintain_round bucket short_hash k cur etag fn w in
        elim (Option-cases round.0) [
          | inl e ↦ rw (e, Swaps, maintain_from) tt
          | inr (a, e) ↦
              rw (e, Swaps, maintain_from)
                (subst (SwapsRound k fn) e (maintain_round-SwapsRound k u w cur etag fn read))
        ]
    maintain_from-Swaps (suc (suc n)) k u w cur etag fn read =
        let round = maintain_round bucket short_hash k cur etag fn w in
        let again = bucket.get k round.1 in
        elim (Option-cases round.0) [
          | inr (a, e) ↦
              rw (e, Swaps, maintain_from)
                (subst (SwapsRound k fn) e (maintain_round-SwapsRound k u w cur etag fn read))
          | inl e ↦ elim (Fetched-cases again.0) [
            | inl (l, tag, g) ↦
                rw (e, g, Swaps, maintain_from)
                  (maintain_from-Swaps (suc n) k round.1 again.1 l tag fn (g, refl))
            | inr (inl g) ↦ rw (e, g, Swaps, maintain_from) tt
            | inr (inr (inl g)) ↦ rw (e, g, Swaps, maintain_from) tt
            | inr (inr (inr g)) ↦ rw (e, g, Swaps, maintain_from) tt
          ]
        ]

    -- Let PutIfMatch write only over an object that has the ETag given, and none for an empty one, as
    -- store.go documents, and let the transition change no new lock. Then a change that UnlockPR or Reap of
    -- the store answers is the transition of a lock that was read together with an ETag; it was written under
    -- that ETag, with nothing but the probe of the bucket between, and the write met an object that still
    -- had it, or none if it is empty.
    pub maintain_stack-Swaps :
        (max_retries : ℕ) (project stack : String) (fn : Transition) (w : World)
        → ((t : ℕ) → (fn t (new_lock project stack t)).1 ≡ false)
        → Swaps
            (key short_hash project stack)
            fn
            (maintain_stack bucket short_hash max_retries project stack fn w).0
    unfolding maintain_stack get
    maintain_stack-Swaps max_retries project stack fn w new =
        let k = key short_hash project stack in
        elim (Fetched-cases (bucket.get k w).0) [
          | inl (l, etag, e) ↦
              rw (e, Swaps, maintain_stack, get)
                (maintain_from-Swaps (suc max_retries) k w (bucket.get k w).1 l etag fn (e, refl))
          | inr (inl e) ↦
              rw (e, Swaps, maintain_stack, get)
                (maintain_from_unchanged max_retries k
                  (new_lock project stack (bucket.now (bucket.get k w).1)) "" fn (bucket.get k w).1
                  (new (bucket.now (bucket.get k w).1)))
          | inr (inr (inl e)) ↦ rw (e, Swaps, maintain_stack, get) tt
          | inr (inr (inr e)) ↦ rw (e, Swaps, maintain_stack, get) tt
        ]

-- Neither UnlockPR nor Reap changes a new lock.
pub unlocking-new_lock :
    (pr : ℕ) (run_id : String) (ttl : ℤ) (force : Bool) (project stack : String) (t : ℕ)
    → (unlocking pr run_id ttl force t (new_lock project stack t)).1 ≡ false
unfolding unlocking unlock_pr new_lock remove_pr
unlocking-new_lock pr run_id ttl force project stack t = ground arith

pub reaping-new_lock :
    (ttl : ℤ) (project stack : String) (t : ℕ)
    → (reaping ttl t (new_lock project stack t)).1 ≡ false
unfolding reaping reap new_lock
reaping-new_lock ttl project stack t = ground arith
