-- ===== src/Run/Cleared.antt =====
-- internal/run/apply.go: what holds of a stack that the pipeline lets through to its engine.
use reeve.Prelude.{
  ◌≡◌, refl, ◌∙◌, ap, ◌⊎◌, inl, inr, Bool, true, false, not, ◌&&◌, ◌||◌, Option, none, some, String,
  arith, Bool-cases,
}
use reeve.Locks as locks
use reeve.Locks.{Holder, Lock, held_by_same_pr}
use reeve.Store.{
  Bucket, Answer, failed, answered, Failure, TransitionError, lock_error, holder_active, mutate,
}
use reeve.Store.Changes.{acquiring}
use reeve.Store.Transition.{IsConditional}
use reeve.Store.Guarantees.{Acquires, acquired-holder}
use reeve.Freeze.{Schedule, Verdict, active, bad_cron, inactive}
use reeve.Gates.{Result, evaluate, fork, draft, policy, approvals, lock, freeze}
use reeve.Gates.Clear.{condition, evaluate-condition}
use reeve.Discovery.{Stack}
use reeve.Run.{
  Preview, PolicyRun, Invocation, StackDecision, lock_failed, cleared, run_holder, in_freeze,
  policy_passes, approvals_of, freeze_of, gate_inputs, gate_result, gated, lock_refusal,
  decide_stack,
}

abbrev cleared_lock : StackDecision → Option Lock
cleared_lock (cleared res l) = some l
cleared_lock d = none

Answer-cases :
    (a : Answer)
    → ((f : Failure) × (a ≡ failed f))
      ⊎ ((l : Lock) × (ok : Bool) × (err : Option TransitionError) × (a ≡ answered l ok err))
Answer-cases (failed f) = inl (f, refl)
Answer-cases (answered l ok err) = inr (l, ok, err, refl)

cleared_lock-lock_refusal :
    (l : Lock) (e : TransitionError) → cleared_lock (lock_refusal l e) ≡ none
cleared_lock-lock_refusal l (lock_error held_by_same_pr) = refl
cleared_lock-lock_refusal l (lock_error locks.already_holder) = refl
cleared_lock-lock_refusal l (lock_error locks.already_queued) = refl
cleared_lock-lock_refusal l (lock_error locks.not_holder) = refl
cleared_lock-lock_refusal l holder_active = refl

in_freeze-inactive : (v : Verdict) → in_freeze v ≡ false → v ≡ inactive
in_freeze-inactive inactive e = refl
in_freeze-inactive (active name) e = ground (arith, e)
in_freeze-inactive (bad_cron name) e = ground (arith, e)

module _ (glob_match : String → String → Bool) (parse : String → Option Schedule) where
  -- The gates' part of leave to apply.
  abbrev pub IsAdmitted : Invocation → Preview → PolicyRun → Stack → Type 0
  IsAdmitted run prev ran s =
      (not run.is_fork || run.allows_fork_prs ≡ true)
      × (run.is_draft ≡ false)
      × ((approvals_of glob_match parse run s).satisfied || run.break_glass ≡ true)
      × ((freeze_of glob_match parse run s ≡ inactive)
          ⊎ (run.break_glass && run.override_freeze ≡ true))
      × (not run.has_hooks || prev.has_plan && not ran.errored && ran.passed ≡ true)

  gate_result-IsAdmitted :
      (run : Invocation) (prev : Preview) (ran : PolicyRun) (s : Stack) (acquired : Bool) (l : Lock)
      → (gate_result glob_match parse run prev ran s acquired l).blocked ≡ false
      → IsAdmitted run prev ran s × (acquired ≡ true)
  unfolding gate_result condition
  gate_result-IsAdmitted run prev ran s acquired l e =
      let inp = gate_inputs glob_match parse run prev s acquired l in
      let cfg = run.gate_config in
      let again = record inp { policy_passed = some (policy_passes prev ran) } in
      elim (Bool-cases (evaluate cfg inp).blocked) [
        | inl b ↦ ground (arith, e, b)
        | inr b ↦ (
          (
            evaluate-condition cfg inp fork b,
            ground (arith, evaluate-condition cfg inp draft b),
            evaluate-condition cfg inp approvals b,
            ground (
              arith,
              evaluate-condition cfg inp freeze b,
              in_freeze-inactive (freeze_of glob_match parse run s),
            ),
            ground (arith, e, b, evaluate-condition cfg again policy),
          ),
          evaluate-condition cfg inp lock b,
        )
      ]

  module _ {World : Type 0} (bucket : Bucket World) (short_hash : String → String) where
    -- A gated stack that is cleared has passed the gates, with the lock that was answered.
    gated-cleared :
        (run : Invocation) (prev : Preview) (ran : PolicyRun) (s : Stack) (acquired : Bool)
        (m : Lock) (w : World) (res : Result) (l : Lock)
        → (gated glob_match parse bucket short_hash run prev ran s acquired m w).0 ≡ cleared res l
        → ((gate_result glob_match parse run prev ran s acquired m).blocked ≡ false) × (m ≡ l)
    unfolding gated
    gated-cleared run prev ran s acquired m w res l e =
        elim (Bool-cases (gate_result glob_match parse run prev ran s acquired m).blocked) [
          | inl b ↦ ground (arith, b, ap cleared_lock e)
          | inr b ↦ (b, ground (arith, b, ap cleared_lock e))
        ]

    abbrev pub decided :
        Invocation → Preview → PolicyRun → Stack → Answer × World → StackDecision × World
    decided run prev ran s answer = elim answer.0 [
      | failed f ↦ (lock_failed f, answer.1)
      | answered l acquired err ↦ elim err [
        | some e ↦ (lock_refusal l e, answer.1)
        | none ↦ gated glob_match parse bucket short_hash run prev ran s acquired l answer.1
      ]
    ]

    decided-cleared :
        (run : Invocation) (prev : Preview) (ran : PolicyRun) (s : Stack) (answer : Answer × World)
        (res : Result) (l : Lock)
        → (decided run prev ran s answer).0 ≡ cleared res l
        → (answer.0 ≡ answered l true none) × IsAdmitted run prev ran s
    decided-cleared run prev ran s (failed f, w) res l e = ground (arith, ap cleared_lock e)
    decided-cleared run prev ran s (answered m acquired (some err), w) res l e =
        ground (arith, cleared_lock-lock_refusal m err, ap cleared_lock e)
    decided-cleared run prev ran s (answered m acquired none, w) res l e =
        let g = gated-cleared run prev ran s acquired m w res l e in
        let a = gate_result-IsAdmitted run prev ran s acquired m g.0 in
        (ap (λ x. answered x acquired none) g.1 ∙ ap (λ b. answered l b none) a.1, a.0)

    -- Let PutIfMatch write only over an object that has the ETag given, and none for an empty one, as
    -- store.go documents. Then a stack is let through to its engine only with a lock in which the run of this
    -- invocation is the active holder, with a lease of ttl. TryAcquire made that lock of one that was read
    -- together with an ETag, and it was written right after that read, under that ETag, over an object that
    -- still had it, or over none if it is empty. And a stack is let through only from a pull request that is
    -- no draft, and no fork unless forks are allowed; with satisfied approvals or by break-glass; outside
    -- every freeze window, or by break-glass with the permission for freezes; and, where there are policy
    -- hooks, with a plan that they have passed.
    pub decide_stack-cleared :
        (conditional : IsConditional bucket) (is_cancelled : Bool) (run : Invocation)
        (prev : Preview) (ran : PolicyRun) (s : Stack) (w : World) (res : Result) (l : Lock)
        → (decide_stack glob_match parse bucket short_hash is_cancelled run prev ran s w).0
          ≡ cleared res l
        → Acquires bucket short_hash s.project s.name (run_holder run) run.ttl l none
          × IsAdmitted run prev ran s
    unfolding decide_stack
    decide_stack-cleared conditional true run prev ran s w res l e =
        ground (arith, ap cleared_lock e)
    decide_stack-cleared conditional false run prev ran s w res l e =
        let d =
          decided-cleared run prev ran s
            (mutate bucket short_hash run.max_retries s.project s.name
              (acquiring (run_holder run) run.ttl) w)
            res l e in
        let h =
          acquired-holder bucket short_hash conditional run.max_retries s.project s.name w
            (run_holder run) run.ttl l none d.0 in
        (h, d.1)
