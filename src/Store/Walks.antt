-- ===== src/Store/Walks.antt =====
-- internal/blob/locks/store.go: ReapAll, UnlockPRAll and ListAll, which walk over the keys that the bucket
-- lists under locks.
use reeve.Prelude.{
  ℕ, suc, ◌+◌, Bool, true, false, not, ◌||◌, List, [], ◌∷◌, ◌++◌, Option, none, some, String,
  if◌then◌else◌, any, ◌==◌, ℤ, append, has_suffix,
}
use reeve.Locks.{Lock}
use reeve.Store.{
  Bucket, Fetched, stored, not_found, unreadable, undecodable, failed, answered, Failure,
  TransitionError, lock_error, holder_active, Transition, maintain_from, has_key,
}
use reeve.Store.Changes.{unlocking, reaping}

abbrev pub involves_pr : Lock → ℕ → Bool
involves_pr l pr =
    elim l.holder [ none ↦ false | some h ↦ h.pr == pr ] || any (λ q. q.pr == pr) l.queue

pub data WalkError : Type 0 where
  listing_failed : WalkError
  walk_failed : Failure → WalkError
  walk_refused : TransitionError → WalkError

-- What a walk answers: how many locks it changed, those it skipped for their active holder, and the error
-- that ended it.
pub record Walked : Type 0 where
  pub count : ℕ
  pub skipped : List String
  pub ended_by : Option WalkError

module _ {World : Type 0} (bucket : Bucket World) (short_hash : String → String)
    (max_retries : ℕ) where
  abbrev pub snapshot_of : String → Fetched → Option (Lock × String)
  snapshot_of k (stored l etag) = if has_key bucket short_hash l k then some (l, etag) else none
  snapshot_of k not_found = none
  snapshot_of k unreadable = none
  snapshot_of k undecodable = none

  unfoldable pub snapshot_for : String → World → Option (Lock × String) × World
  snapshot_for k w = let answer = bucket.get k w in (snapshot_of k answer.0, answer.1)

  -- The loop of ReapAll and of UnlockPRAll, which differ in the locks that they pass over and in their
  -- transition. No reap is refused for an active holder.
  unfoldable pub walk_from :
      (Lock → Bool) → Transition → List String → ℕ → List String → World → Walked × World
  walk_from wanted fn [] n active w = (record { count = n; skipped = active; ended_by = none }, w)
  walk_from wanted fn (k ∷ keys) n active w =
      let read = snapshot_for k w in
      elim (has_suffix k ".json") [
        | false ↦ walk_from wanted fn keys n active w
        | true ↦ elim (read.0) [
          | none ↦ walk_from wanted fn keys n active read.1
          | some (cur, etag) ↦ elim (wanted cur) [
            | false ↦ walk_from wanted fn keys n active read.1
            | true ↦
                let change =
                  maintain_from bucket short_hash (suc max_retries) k cur etag fn read.1 in
                elim (change.0) [
                  | failed f ↦ (
                    record { count = n; skipped = active; ended_by = some (walk_failed f) },
                    change.1,
                  )
                  | answered next changed err ↦ elim err [
                    | none ↦ walk_from wanted fn keys (if changed then n + 1 else n) active change.1
                    | some e ↦ elim e [
                      | holder_active ↦
                          walk_from wanted fn keys n
                            (active ++ (append cur.project (append "/" cur.stack) ∷ [])) change.1
                      | lock_error x ↦ (
                        record {
                          count = n;
                          skipped = active;
                          ended_by = some (walk_refused (lock_error x));
                        },
                        change.1,
                      )
                    ]
                  ]
                ]
          ]
        ]
      ]

  abbrev pub walk : (Lock → Bool) → Transition → Option (List String) → World → Walked × World
  walk wanted fn none w = (record { count = 0; skipped = []; ended_by = some listing_failed }, w)
  walk wanted fn (some keys) w = walk_from wanted fn keys 0 [] w

  -- With the keys that List answers, or none for its error.
  unfoldable pub reap_all : ℤ → Option (List String) → World → Walked × World
  reap_all ttl keys w = walk (λ l. true) (reaping ttl) keys w

  unfoldable pub unlock_pr_all :
      ℕ → String → ℤ → Bool → Option (List String) → World → Walked × World
  unlock_pr_all pr run_id ttl force keys w =
      walk (λ l. involves_pr l pr) (unlocking pr run_id ttl force) keys w

  unfoldable pub list_from : List String → World → List Lock × World
  list_from [] w = ([], w)
  list_from (k ∷ keys) w =
      let read = snapshot_for k w in
      let passed = list_from keys w in
      let rest = list_from keys read.1 in
      if not (has_suffix k ".json")
      then passed
      else elim (read.0) [ none ↦ rest | some (l, etag) ↦ (l ∷ rest.0, rest.1) ]

  abbrev pub list_all : Option (List String) → World → Option (List Lock) × World
  list_all none w = (none, w)
  list_all (some keys) w = let all = list_from keys w in (some all.0, all.1)
