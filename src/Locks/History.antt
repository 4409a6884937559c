-- ===== src/Locks/History.antt =====
-- Any sequence of transitions of one lock, each at its own time and lease length.
use reeve.Prelude.{ℕ, ◌≡◌, refl, ◌≢◌, false, List, [], ◌∷◌, some, String, ℤ}
use reeve.Locks.{Holder, Lock, new_lock, try_acquire, release, unlock_pr, reap, expired}
use reeve.Locks.Invariant.{
  IsValid, try_acquire-IsValid, release-IsValid, unlock_pr-IsValid, reap-IsValid,
}
use reeve.Locks.Exclusion.{
  try_acquire-holder_foreign, release-holder_foreign, unlock_pr-holder_foreign, reap-holder_live,
}

pub data Call : Type 0 where
  acquires : Holder → Call
  releases : ℕ → String → Call
  unlocks : ℕ → String → Call
  reaps : Call

unfoldable pub step : Lock → ℕ × ℤ × Call → Lock
step l (now, ttl, acquires a) = (try_acquire l a ttl now).0
step l (now, ttl, releases pr run_id) = (release l pr run_id ttl now).0
step l (now, ttl, unlocks pr run_id) = unlock_pr l pr run_id ttl now
step l (now, ttl, reaps) = (reap l ttl now).0

unfoldable pub run : Lock → List (ℕ × ℤ × Call) → Lock
run l [] = l
run l (c ∷ cs) = run (step l c) cs

step-IsValid : (l : Lock) (c : ℕ × ℤ × Call) → IsValid l → IsValid (step l c)
unfolding step
step-IsValid l (now, ttl, acquires a) v = try_acquire-IsValid l a ttl now v
step-IsValid l (now, ttl, releases pr run_id) v = release-IsValid l pr run_id ttl now v
step-IsValid l (now, ttl, unlocks pr run_id) v = unlock_pr-IsValid l pr run_id ttl now v
step-IsValid l (now, ttl, reaps) v = reap-IsValid l ttl now v

pub run-IsValid : (l : Lock) (cs : List (ℕ × ℤ × Call)) → IsValid l → IsValid (run l cs)
unfolding run
run-IsValid l [] v = v
run-IsValid l (c ∷ cs) v = run-IsValid (step l c) cs (step-IsValid l c v)

-- Whatever sequence of acquires, releases, unlocks and reaps a new lock goes through, at any times
-- and with any lease lengths: no pull request waits twice, the holder's pull request does not
-- wait, and nobody waits for a free lock.
pub run-new_lock-IsValid :
    (project stack : String) (now : ℕ) (cs : List (ℕ × ℤ × Call))
    → IsValid (run (new_lock project stack now) cs)
unfolding new_lock
run-new_lock-IsValid project stack now cs =
    run-IsValid _ cs (record { distinct = tt; apart = refl })

-- A call on behalf of another pull request. The reaper always is one.
abbrev pub IsForeign : ℕ → Call → Type 0
IsForeign pr (acquires a) = pr ≢ a.pr
IsForeign pr (releases other run_id) = pr ≢ other
IsForeign pr (unlocks other run_id) = pr ≢ other
IsForeign pr reaps = Unit {0}

abbrev pub AllForeign : Holder → List (ℕ × ℤ × Call) → Type 0
AllForeign h [] = Unit {0}
AllForeign h ((now, ttl, c) ∷ cs) = (expired h now ≡ false) × IsForeign h.pr c × AllForeign h cs

step-holder_live :
    (l : Lock) (h : Holder) (now : ℕ) (ttl : ℤ) (c : Call)
    → l.holder ≡ some h
    → expired h now ≡ false
    → IsForeign h.pr c
    → (step l (now, ttl, c)).holder ≡ some h
unfolding step
step-holder_live l h now ttl (acquires a) e live f =
    try_acquire-holder_foreign l h a ttl now e live f
step-holder_live l h now ttl (releases pr run_id) e live f =
    release-holder_foreign l h pr run_id ttl now e live f
step-holder_live l h now ttl (unlocks pr run_id) e live f =
    unlock_pr-holder_foreign l h pr run_id ttl now e f
step-holder_live l h now ttl reaps e live f = reap-holder_live l h ttl now e live

-- While a lease runs, no sequence of calls on behalf of other pull requests, the reaper's included,
-- takes the lock from its holder or changes anything of the holder's record, its lease end included.
pub run-holder_live :
    (l : Lock) (h : Holder) (cs : List (ℕ × ℤ × Call))
    → l.holder ≡ some h
    → AllForeign h cs
    → (run l cs).holder ≡ some h
unfolding run
run-holder_live l h [] e f = e
run-holder_live l h ((now, ttl, c) ∷ cs) e f =
    run-holder_live (step l (now, ttl, c)) h cs (step-holder_live l h now ttl c e f.0 f.1) f.2
