-- ===== src/Store/Guarantees.antt =====
-- What internal/blob/locks/store.go keeps of the guarantees of the lock, with others at the same bucket.
use reeve.Prelude.{
  ℕ, ◌≡◌, refl, sym, ◌∙◌, subst, ap, true, false, Option, none, some, String, Bool, ℤ, add_time,
  stamp, arith, inl, inr,
}
use reeve.Locks as core
use reeve.Locks.{
  Holder, Lock, new_lock, vacate, already_holder, already_queued, held_by_same_pr, not_holder,
}
use reeve.Locks.Invariant.{IsValid, try_acquire-IsValid, release-IsValid, vacate-IsValid}
use reeve.Locks.Exclusion.{Outcome, try_acquire-Outcome}
use reeve.Keys.{key}
use reeve.Store.{
  Bucket, stored, Snapshot, snapshot, lost, as_snapshot, answered, TransitionError, Transition, get,
  mutate,
}
use reeve.Store.Changes.{acquiring, releasing, forcing, idempotent}
use reeve.Store.Transition.{IsConditional, Fetched-cases, Replaces, Follows, mutate-Follows}
use reeve.Store.Unlock.{forcing-vacate}

-- The calls that write whatever they find: TryAcquire, Release and ForceUnlock.
pub data Call : Type 0 where
  try_acquire : Holder → ℤ → Call
  release : ℕ → String → ℤ → Call
  force_unlock : ℤ → Call

unfoldable pub transition : Call → Transition
transition (try_acquire applicant ttl) = acquiring applicant ttl
transition (release pr run_id ttl) = releasing pr run_id ttl
transition (force_unlock ttl) = forcing ttl

idempotent-lock : (a : Lock × Bool × Option core.Error) → (idempotent a).0 ≡ a.0
idempotent-lock (l, ok, none) = refl
idempotent-lock (l, ok, some already_holder) = refl
idempotent-lock (l, ok, some already_queued) = refl
idempotent-lock (l, ok, some held_by_same_pr) = refl
idempotent-lock (l, ok, some not_holder) = refl

transition-IsValid : (c : Call) (t : ℕ) (l : Lock) → IsValid l → IsValid (transition c t l).0
unfolding transition acquiring releasing
transition-IsValid (try_acquire a ttl) t l v =
    subst IsValid (sym (idempotent-lock (core.try_acquire l a ttl t)))
      (try_acquire-IsValid l a ttl t v)
transition-IsValid (release pr run_id ttl) t l v = release-IsValid l pr run_id ttl t v
transition-IsValid (force_unlock ttl) t l v = subst IsValid (sym (forcing-vacate l ttl t)) (record {
  distinct = (vacate-IsValid l ttl t v).distinct;
  apart = (vacate-IsValid l ttl t v).apart;
})

-- What an acquisition answers for a state of the bucket's clock.
idempotent-Outcome :
    (a : Holder) (ttl : ℤ) (t : ℕ) (r : Lock × Bool × Option core.Error)
    → Outcome a ttl t r
    → (next : Lock) (err : Option TransitionError) → idempotent r ≡ (next, true, err)
    → (h : Holder) × (next.holder ≡ some h)
      × (h.pr ≡ a.pr)
      × (h.run_id ≡ a.run_id)
      × (h.promoted ≡ false)
      × (h.expires_at ≡ stamp (add_time t ttl))
      × (err ≡ none)
idempotent-Outcome a ttl t (l, true, none) o next err e =
    (o.0, ap (λ r. r.0.holder) (sym e) ∙ o.1, o.2, o.3, o.4, o.5, ap (λ r. r.2) (sym e))
idempotent-Outcome a ttl t (l, true, some already_holder) o next err e =
    (o.0, ap (λ r. r.0.holder) (sym e) ∙ o.1, o.2, o.3, o.4, o.5, ap (λ r. r.2) (sym e))
idempotent-Outcome a ttl t (l, true, some already_queued) o next err e = ground (arith, o)
idempotent-Outcome a ttl t (l, true, some held_by_same_pr) o next err e = ground (arith, o)
idempotent-Outcome a ttl t (l, true, some not_holder) o next err e = ground (arith, o)
idempotent-Outcome a ttl t (l, false, none) o next err e = ground (arith, o, ap (λ r. r.1) e)
idempotent-Outcome a ttl t (l, false, some already_holder) o next err e = ground (arith, o)
idempotent-Outcome a ttl t (l, false, some already_queued) o next err e =
    ground (arith, ap (λ r. r.1) e)
idempotent-Outcome a ttl t (l, false, some held_by_same_pr) o next err e =
    ground (arith, ap (λ r. r.1) e)
idempotent-Outcome a ttl t (l, false, some not_holder) o next err e =
    ground (arith, ap (λ r. r.1) e)

abbrev snapshot_lock : Snapshot → Lock
snapshot_lock (snapshot l etag) = l
snapshot_lock (lost f) = new_lock "" "" 0

module _ {World : Type 0} (bucket : Bucket World) (short_hash : String → String) where
  -- The lock was written in place of one that TryAcquire makes it of, and in it the applicant's run is the
  -- active holder, with a lease that ends ttl after the time of that.
  abbrev pub Acquires : String → String → Holder → ℤ → Lock → Option TransitionError → Type 0
  Acquires project stack a ttl next err =
      (u : World) × (cur : Lock) × (etag : String) × (h : Holder) × Replaces bucket short_hash
        project stack u cur etag next
      × (acquiring a ttl (bucket.now (get bucket short_hash project stack u).1) cur
          ≡ (next, true, err))
      × (next.holder ≡ some h)
      × (h.pr ≡ a.pr)
      × (h.run_id ≡ a.run_id)
      × (h.promoted ≡ false)
      × (h.expires_at ≡ stamp (add_time (bucket.now (get bucket short_hash project stack u).1) ttl))
      × (err ≡ none)

  module _ (conditional : IsConditional bucket) (max_retries : ℕ) (project stack : String)
      (w : World) where
    read-IsValid :
        ((u : World) (l : Lock) (etag : String)
          → (bucket.get (key short_hash project stack) u).0 ≡ stored l etag
          → IsValid l)
        → (u : World) (cur : Lock) (etag : String)
        → (get bucket short_hash project stack u).0 ≡ snapshot cur etag
        → IsValid cur
    unfolding get new_lock
    read-IsValid valid u cur etag g =
        elim (Fetched-cases (bucket.get (key short_hash project stack) u).0) [
          | inl (l, tag, e) ↦ ground (arith, e, g, valid u l tag e)
          | inr (inl e) ↦
              subst IsValid
                (ap (λ x. snapshot_lock x)
                  (sym (ap (as_snapshot bucket short_hash project stack _) e) ∙ g))
                (record { distinct = tt; apart = refl })
          | inr (inr (inl e)) ↦ ground (arith, e, g)
          | inr (inr (inr e)) ↦ ground (arith, e, g)
        ]

    -- If every lock that is read at the key is valid, so is each that TryAcquire, Release or ForceUnlock of
    -- the store writes there, however the calls interleave.
    pub mutate-IsValid :
        (c : Call) (next : Lock) (flag : Bool) (err : Option TransitionError)
        → ((u : World) (l : Lock) (etag : String)
            → (bucket.get (key short_hash project stack) u).0 ≡ stored l etag
            → IsValid l)
        → (mutate bucket short_hash max_retries project stack (transition c) w).0
          ≡ answered next flag err
        → IsValid next
    mutate-IsValid c next flag err valid e =
        let f = subst (Follows bucket short_hash project stack (transition c)) e (
          mutate-Follows bucket short_hash conditional max_retries project stack (transition c)
            w) in
        subst IsValid (ap (λ a. a.0) f.4)
          (transition-IsValid c _ f.1 (read-IsValid valid f.0 f.1 f.2 f.3.0))

    -- Let PutIfMatch write only over an object that has the ETag given, and none for an empty one, as
    -- store.go documents. Then TryAcquire of the store answers true only without an error, and with a lock
    -- in which the applicant's run is the active holder, with a lease that ends ttl after the read. The core
    -- made it of a lock that was read together with an ETag, and it was written right after that read, under
    -- that ETag, over an object that still had it, or over none if it is empty.
    pub acquired-holder :
        (a : Holder) (ttl : ℤ) (next : Lock) (err : Option TransitionError)
        → (mutate bucket short_hash max_retries project stack (acquiring a ttl) w).0
          ≡ answered next true err
        → Acquires project stack a ttl next err
    unfolding acquiring
    acquired-holder a ttl next err e =
        let f = subst (Follows bucket short_hash project stack (acquiring a ttl)) e (
          mutate-Follows bucket short_hash conditional max_retries project stack (acquiring a ttl)
            w) in
        let t = bucket.now (get bucket short_hash project stack f.0).1 in
        let o = idempotent-Outcome a ttl t _ (try_acquire-Outcome f.1 a ttl t) next err f.4 in
        (f.0, f.1, f.2, o.0, f.3, f.4, o.1, o.2, o.3, o.4, o.5, o.6)
