-- ===== src/Store/Swept.antt =====
-- internal/blob/locks/store.go: what the walks over all locks have changed.
use reeve.Prelude.{
  ℕ, suc, ◌+◌, ◌≡◌, refl, subst, ◌⊎◌, inl, inr, Bool, true, false, List, [], ◌∷◌, none, some,
  String, length, ℤ, arith, Bool-cases, Option-cases, has_suffix,
}
use reeve.Locks as core
use reeve.Locks.{Lock}
use reeve.Store.{
  Bucket, Answer, failed, answered, Failure, lock_error, holder_active, Transition, maintain_from,
}
use reeve.Store.Changes.{unlocking, reaping}
use reeve.Store.Transition.{IsConditional, Fetched-cases}
use reeve.Store.Upkeep.{IsRead, IsSwap, Swaps, maintain_from-Swaps}
use reeve.Store.Walks.{snapshot_for, walk_from, reap_all, unlock_pr_all, involves_pr}

-- The keys of one list, each as often at most as in another and in its order.
abbrev pub Sub : List String → List String → Type 0
Sub xs [] = xs ≡ []
Sub xs (k ∷ keys) = Sub xs keys ⊎ ((ys : List String) × (xs ≡ k ∷ ys) × Sub ys keys)

Sub-none : (keys : List String) → Sub [] keys
Sub-none [] = refl
Sub-none (k ∷ keys) = inl (Sub-none keys)

Answer-known :
    (a : Answer)
    → ((f : Failure) × (a ≡ failed f))
      ⊎ (((next : Lock) × (changed : Bool) × (a ≡ answered next changed none))
          ⊎ (((next : Lock) × (changed : Bool) × (a ≡ answered next changed (some holder_active)))
              ⊎ ((next : Lock) × (changed : Bool) × (x : core.Error) × (a
                    ≡ answered next changed (some (lock_error x))))))
Answer-known (failed f) = inl (f, refl)
Answer-known (answered next changed none) = inr (inl (next, changed, refl))
Answer-known (answered next changed (some holder_active)) = inr (inr (inl (next, changed, refl)))
Answer-known (answered next changed (some (lock_error x))) =
    inr (inr (inr (next, changed, x, refl)))

module _ {World : Type 0} (bucket : Bucket World) (short_hash : String → String) (max_retries : ℕ)
    (fn : Transition) where
  -- At the key a lock that was read was replaced by its transition, which changed it.
  abbrev pub IsSwept : String → Type 0
  IsSwept k = (next : Lock) × IsSwap bucket short_hash k fn next

  abbrev pub AllSwept : List String → Type 0
  AllSwept [] = Unit {0}
  AllSwept (k ∷ keys) = IsSwept k × AllSwept keys

  -- What has been counted beyond a number.
  abbrev pub IsCountOf : List String → ℕ → ℕ → Type 0
  IsCountOf keys n count =
      (swept : List String) × Sub swept keys × (count ≡ n + length swept) × AllSwept swept

  counts_nothing : (keys : List String) (count : ℕ) → IsCountOf keys count count
  counts_nothing keys count = ([], Sub-none keys, omega arith, tt)

  counts_passed :
      (k : String) (keys : List String) (n : ℕ) (count : ℕ)
      → IsCountOf keys n count
      → IsCountOf (k ∷ keys) n count
  counts_passed k keys n count (swept, sub, e, all) = (swept, inl sub, e, all)

  counts_one :
      (k : String) (keys : List String) (n : ℕ) (count : ℕ)
      → IsSwept k
      → IsCountOf keys (n + 1) count
      → IsCountOf (k ∷ keys) n count
  counts_one k keys n count s (swept, sub, e, all) =
      (k ∷ swept, inr (swept, refl, sub), omega (arith, e), (s, all))

  module _ (conditional : IsConditional bucket) where
    snapshot_for-IsRead :
        (k : String) (w : World) (l : Lock) (etag : String)
        → (snapshot_for bucket short_hash max_retries k w).0 ≡ some (l, etag)
        → IsRead bucket short_hash k w l etag (snapshot_for bucket short_hash max_retries k w).1
    unfolding snapshot_for
    snapshot_for-IsRead k w l etag e = elim (Fetched-cases (bucket.get k w).0) [
      | inl (m, tag, g) ↦ ground (arith, g, e)
      | inr (inl g) ↦ ground (arith, g, e)
      | inr (inr (inl g)) ↦ ground (arith, g, e)
      | inr (inr (inr g)) ↦ ground (arith, g, e)
    ]

    walk_from-IsCountOf :
        (wanted : Lock → Bool) (keys : List String) (n : ℕ) (active : List String) (w : World)
        → IsCountOf keys n
            (walk_from bucket short_hash max_retries wanted fn keys n active w).0.count
    unfolding walk_from
    walk_from-IsCountOf wanted [] n active w = counts_nothing [] _
    walk_from-IsCountOf wanted (k ∷ keys) n active w =
        let read = snapshot_for bucket short_hash max_retries k w in
        elim (Bool-cases (has_suffix k ".json")) [
          | inr e ↦
              rw (e, walk_from)
                (counts_passed k keys n _ (walk_from-IsCountOf wanted keys n active w))
          | inl e ↦ elim (Option-cases read.0) [
            | inl r ↦
                rw (e, r, walk_from)
                  (counts_passed k keys n _ (walk_from-IsCountOf wanted keys n active read.1))
            | inr ((cur, etag), r) ↦ elim (Bool-cases (wanted cur)) [
              | inr v ↦
                  rw (e, r, v, walk_from)
                    (counts_passed k keys n _ (walk_from-IsCountOf wanted keys n active read.1))
              | inl v ↦
                  let change =
                    maintain_from bucket short_hash (suc max_retries) k cur etag fn read.1 in
                  let swaps =
                    maintain_from-Swaps bucket short_hash conditional (suc max_retries) k w read.1
                      cur etag fn (snapshot_for-IsRead k w cur etag r) in
                  elim (Answer-known change.0) [
                    | inl (f, c) ↦ rw (e, r, v, c, walk_from) (counts_nothing (k ∷ keys) _)
                    | inr (inl (next, true, c)) ↦
                        rw (e, r, v, c, walk_from)
                          (counts_one k keys n _
                            (next, subst (Swaps bucket short_hash k fn) c swaps)
                            (walk_from-IsCountOf wanted keys (n + 1) active change.1))
                    | inr (inl (next, false, c)) ↦
                        rw (e, r, v, c, walk_from)
                          (counts_passed k keys n _
                            (walk_from-IsCountOf wanted keys n active change.1))
                    | inr (inr (inl (next, changed, c))) ↦
                        rw (e, r, v, c, walk_from)
                          (counts_passed k keys n _ (walk_from-IsCountOf wanted keys n _ change.1))
                    | inr (inr (inr (next, changed, x, c))) ↦
                        rw (e, r, v, c, walk_from) (counts_nothing (k ∷ keys) _)
                  ]
            ]
          ]
        ]

-- What ReapAll answers is how many of the listed keys, each counted once for every time it is listed, had a
-- lock that was read and replaced by its reap with an eviction, under the ETag that it was read with, which
-- the object that the write met still had.
pub reap_all-IsCountOf :
    {World : Type 0}
    → (bucket : Bucket World) (short_hash : String → String) (max_retries : ℕ)
      (conditional : IsConditional bucket) (ttl : ℤ) (keys : List String) (w : World)
    → IsCountOf bucket short_hash max_retries
        (reaping ttl)
        keys
        0
        (reap_all bucket short_hash max_retries ttl (some keys) w).0.count
unfolding reap_all
reap_all-IsCountOf bucket short_hash max_retries conditional ttl keys w =
    walk_from-IsCountOf bucket short_hash max_retries (reaping ttl) conditional (λ l. true) keys 0
      [] w

-- The same of UnlockPRAll, with the removal of the pull request for the reap.
pub unlock_pr_all-IsCountOf :
    {World : Type 0}
    → (bucket : Bucket World) (short_hash : String → String) (max_retries : ℕ)
      (conditional : IsConditional bucket) (pr : ℕ) (run_id : String) (ttl : ℤ) (force : Bool)
      (keys : List String) (w : World)
    → IsCountOf bucket short_hash max_retries
        (unlocking pr run_id ttl force)
        keys
        0
        (unlock_pr_all bucket short_hash max_retries pr run_id ttl force (some keys) w).0.count
unfolding unlock_pr_all
unlock_pr_all-IsCountOf bucket short_hash max_retries conditional pr run_id ttl force keys w =
    walk_from-IsCountOf bucket short_hash max_retries (unlocking pr run_id ttl force) conditional
      (λ l. involves_pr l pr) keys 0 [] w
