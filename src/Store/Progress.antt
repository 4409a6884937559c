-- ===== src/Store/Progress.antt =====
-- The retry loop of internal/blob/locks/store.go: MaxRetries retries are enough for as many rivals.
use reeve.Prelude.{
  ℕ, zero, suc, ◌≤◌, ◌<◌, ◌≡◌, refl, ◌⊎◌, inl, inr, true, false, Bool, Option, none, some, String,
  arith, Option-cases, subst, ap,
}
use reeve.Locks.{Lock, new_lock}
use reeve.Keys.{key}
use reeve.Store.{
  Bucket, Fetched, stored, not_found, unreadable, undecodable, done, precondition_failed, Answer,
  answered, failed, Transition, TransitionError, get, put, mutate_round, mutate_from, mutate,
}
use reeve.Store.Transition.{Fetched-cases}

abbrev pub is_answered : Answer → Bool
is_answered (failed f) = false
is_answered (answered l flag err) = true

-- The ETag that a read hands to the write after it.
abbrev pub tag_of : Fetched → String
tag_of (stored l etag) = etag
tag_of _ = ""

abbrev pub is_readable : Fetched → Bool
is_readable (stored l etag) = true
is_readable not_found = true
is_readable unreadable = false
is_readable undecodable = false

-- No call on the key fails for a reason of its own, and a write right behind a read loses only to the
-- write of another, of which rivals says how many are still to come.
pub record IsReliable {World : Type 0} (bucket : Bucket World) (k : String) (rivals : World → ℕ)
    : Type 0 where
  pub probed : (w : World) → (bucket.ensure_cas w).0 ≡ true
  pub probe_rivals : (w : World) → rivals (bucket.ensure_cas w).1 ≤ rivals w
  pub readable : (w : World) → is_readable (bucket.get k w).0 ≡ true
  pub read_rivals : (w : World) → rivals (bucket.get k w).1 ≤ rivals w
  pub won_or_lost :
      (l : Lock) (w : World)
      → ((bucket.put_if_match k l (tag_of (bucket.get k w).0) (bucket.get k w).1).0 ≡ done)
        ⊎ (((bucket.put_if_match k l (tag_of (bucket.get k w).0) (bucket.get k w).1).0
              ≡ precondition_failed)
            × (rivals (bucket.put_if_match k l (tag_of (bucket.get k w).0) (bucket.get k w).1).1
                < rivals (bucket.get k w).1))

module _ {World : Type 0} (bucket : Bucket World) (short_hash : String → String)
    (project stack : String) (rivals : World → ℕ)
    (reliable : IsReliable bucket (key short_hash project stack) rivals) where
  abbrev Ended : World → Option Answer × World → Type 0
  Ended w (some a, w') = is_answered a ≡ true
  Ended w (none, w') = rivals w' < rivals w

  put-Ended :
      (a : Lock × Bool × Option TransitionError) (w : World)
      → Ended w (
          put bucket short_hash
            (key short_hash project stack)
            (tag_of (bucket.get (key short_hash project stack) w).0)
            a
            (bucket.get (key short_hash project stack) w).1)
  unfolding put
  put-Ended a w = elim (reliable.won_or_lost a.0 w) [
    | inl d ↦ rw (d, Ended, put) refl
    | inr (d, less) ↦ rw (d, Ended, put) (ground (arith, less, reliable.read_rivals w))
  ]

  mutate_round-Ended :
      (fn : Transition) (w : World) → Ended w (mutate_round bucket short_hash project stack fn w)
  unfolding mutate_round get
  mutate_round-Ended fn w =
      let k = key short_hash project stack in
      let u = (bucket.get k w).1 in
      elim (Fetched-cases (bucket.get k w).0) [
        | inl (l, etag, e) ↦
            rw (e, mutate_round, get)
              (subst (λ g. Ended w (put bucket short_hash k (tag_of g) (fn (bucket.now u) l) u)) e
                (put-Ended (fn (bucket.now u) l) w))
        | inr (inl e) ↦
            rw (e, mutate_round, get)
              (subst
                (λ g. Ended w (
                  put bucket short_hash k (tag_of g)
                    (fn (bucket.now u) (new_lock project stack (bucket.now u))) u))
                e (put-Ended (fn (bucket.now u) (new_lock project stack (bucket.now u))) w))
        | inr (inr (inl e)) ↦ ground (arith, e, ap is_readable e, reliable.readable w)
        | inr (inr (inr e)) ↦ ground (arith, e, ap is_readable e, reliable.readable w)
      ]

  mutate_from_answered :
      (n : ℕ) (fn : Transition) (w : World)
      → rivals w < n
      → is_answered (mutate_from bucket short_hash n project stack fn w).0 ≡ true
  unfolding mutate_from
  mutate_from_answered zero fn w less = ground (arith, less)
  mutate_from_answered (suc n) fn w less =
      let round = mutate_round bucket short_hash project stack fn w in
      elim (Option-cases round.0) [
        | inl e ↦
            rw (e, mutate_from)
              (mutate_from_answered n fn round.1 (
                omega (arith, less, subst (λ o. Ended w (o, round.1)) e (mutate_round-Ended fn w))))
        | inr (a, e) ↦
            rw (e, mutate_from) (subst (λ o. Ended w (o, round.1)) e (mutate_round-Ended fn w))
      ]

  -- TryAcquire, Release and ForceUnlock of the store answer, and do not exceed their retries, if the calls
  -- of the bucket work and at most MaxRetries writes of others to the lock are still to come.
  pub mutate_answered :
      (max_retries : ℕ) (fn : Transition) (w : World)
      → rivals w ≤ max_retries
      → is_answered (mutate bucket short_hash max_retries project stack fn w).0 ≡ true
  unfolding mutate
  mutate_answered max_retries fn w le = ground (
    arith,
    reliable.probed w,
    mutate_from_answered (suc max_retries) fn (bucket.ensure_cas w).1
        (omega (arith, le, reliable.probe_rivals w)),
  )
