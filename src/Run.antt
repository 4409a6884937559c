-- ===== src/Run.antt =====
-- internal/run/apply.go: what the apply pipeline decides on one stack before it touches its engine. The
-- bucket, the previews, the hooks, cron and doublestar are parameters.
pub mod Cleared
mod Tests
use reeve.Prelude.{
  ℕ, Bool, true, false, not, ◌&&◌, ◌||◌, List, [], ◌∷◌, Option, none, some, String, if◌then◌else◌,
  ℤ, pos, append, unset,
}
use reeve.Locks as locks
use reeve.Locks.{Holder, Lock, held_by_same_pr}
use reeve.Store.{
  Bucket, Answer, failed, answered, Failure, TransitionError, lock_error, holder_active, mutate,
}
use reeve.Store.Changes.{acquiring, releasing}
use reeve.Approvals.{Approval, Pr, Rules}
use reeve.Approvals as approvals
use reeve.Approvals.Resolve.{resolve}
use reeve.Approvals.Evaluate as evaluation
use reeve.Approvals.Evaluate.{Resolution}
use reeve.Freeze.{Window, Schedule, Verdict, active, bad_cron, inactive, active_for}
use reeve.Gates as gates
use reeve.Gates.{Inputs, Result}
use reeve.Discovery.{Stack, ref_of}

-- What the snapshot of the previews has of a stack.
pub record Preview : Type 0 where
  pub found : Bool
  pub succeeded : Bool
  pub age : ℤ
  pub has_plan : Bool

pub record PolicyRun : Type 0 where
  pub passed : Bool
  pub errored : Bool

-- What one invocation knows before its loop over the stacks.
pub record Invocation : Type 0 where
  pub pr : ℕ
  pub commit_sha : String
  pub run_id : String
  pub actor : String
  pub ttl : ℤ
  pub max_retries : ℕ
  pub is_fork : Bool
  pub is_draft : Bool
  pub allows_fork_prs : Bool
  pub is_up_to_date : Bool
  pub behind : ℤ
  pub checks_are_green : Bool
  pub gate_config : gates.Config
  pub approvals_config : approvals.Config
  pub team_members : List (String × List String)
  pub raw_approvals : List Approval
  pub head_sha : String
  pub author : String
  pub repo_private : Bool
  pub codeowners : List (String × List String)
  pub windows : List Window
  pub break_glass : Bool
  pub override_freeze : Bool
  pub history_unavailable : Bool
  pub history_error : String
  pub has_hooks : Bool
  pub now : ℕ

-- How the part of the loop ends: with the entry of a stack that is not applied, or with leave to apply.
pub data StackDecision : Type 0 where
  cancelled : StackDecision
  held_by_run : Lock → StackDecision
  lock_failed : Failure → StackDecision
  lock_refused : TransitionError → StackDecision
  blocked : Result → StackDecision
  cleared : Result → Lock → StackDecision

abbrev pub run_holder : Invocation → Holder
run_holder run = record {
  pr = run.pr;
  commit_sha = run.commit_sha;
  run_id = run.run_id;
  actor = run.actor;
  acquired_at = unset;
  expires_at = unset;
  promoted = false;
}

abbrev pub approval_pr : Invocation → Pr
approval_pr run = record {
  number = run.pr;
  head_sha = run.head_sha;
  author = run.author;
  base_ref = "";
  is_fork = false;
  repo_private = run.repo_private;
  opened_at = 0;
  changed = [];
}

-- `lockBlockedBy`.
abbrev pub lock_blocked_by : Bool → Lock → ℤ
lock_blocked_by acquired l = elim l.holder [
  | none ↦ pos 0
  | some h ↦ if acquired then pos 0 else pos h.pr
]

-- `inFreeze` and `freezeName`; a window that cannot be evaluated freezes. The text of the error is its
-- window.
abbrev pub in_freeze : Verdict → Bool
in_freeze inactive = false
in_freeze (active name) = true
in_freeze (bad_cron name) = true

abbrev pub freeze_name : Verdict → String
freeze_name inactive = ""
freeze_name (active name) = name
freeze_name (bad_cron name) = append "freeze evaluation failed: " name

abbrev pub policy_passes : Preview → PolicyRun → Bool
policy_passes prev policy = if not prev.has_plan || policy.errored then false else policy.passed

abbrev pub lock_refusal : Lock → TransitionError → StackDecision
lock_refusal l (lock_error held_by_same_pr) = held_by_run l
lock_refusal l (lock_error e) = lock_refused (lock_error e)
lock_refusal l holder_active = lock_refused holder_active

module _ (glob_match : String → String → Bool) (parse : String → Option Schedule) where
  abbrev pub approvals_of : Invocation → Stack → Resolution
  approvals_of run s =
      evaluation.evaluate
        (record (resolve glob_match run.approvals_config (ref_of s)) {
          team_members = run.team_members;
        })
        run.raw_approvals (approval_pr run) run.codeowners run.author run.now

  abbrev pub freeze_of : Invocation → Stack → Verdict
  freeze_of run s = active_for glob_match parse run.windows (ref_of s) run.now

  -- `pcInputs`, before the policy hooks.
  abbrev pub gate_inputs : Invocation → Preview → Stack → Bool → Lock → Inputs
  gate_inputs run prev s acquired l = record {
    stack_ref = ref_of s;
    pr_is_fork = run.is_fork;
    pr_is_draft = run.is_draft;
    fork_opt_in_allowed = run.allows_fork_prs;
    is_up_to_date = run.is_up_to_date;
    behind = run.behind;
    checks_are_green = run.checks_are_green;
    has_fresh_preview = prev.found;
    preview_age = prev.age;
    preview_succeeded = prev.succeeded;
    policy_passed = none;
    approvals_satisfied = (approvals_of run s).satisfied;
    lock_acquirable = acquired;
    lock_blocked_by_pr = lock_blocked_by acquired l;
    in_freeze = in_freeze (freeze_of run s);
    freeze_name = freeze_name (freeze_of run s);
    break_glass = run.break_glass;
    break_glass_override_freeze = run.override_freeze;
    preview_history_unavailable = run.history_unavailable;
    preview_history_error = run.history_error;
  }

  -- The gates, and once more with what the policy hooks say where they run.
  unfoldable pub gate_result : Invocation → Preview → PolicyRun → Stack → Bool → Lock → Result
  gate_result run prev policy s acquired l =
      let first = gates.evaluate run.gate_config (gate_inputs run prev s acquired l) in
      if not first.blocked && run.has_hooks
      then gates.evaluate run.gate_config (record (gate_inputs run prev s acquired l) {
        policy_passed = some (policy_passes prev policy);
      })
      else first

  module _ {World : Type 0} (bucket : Bucket World) (short_hash : String → String) where
    -- `releaseLockOrLog`, which only logs its error.
    abbrev pub release_or_log : Invocation → Stack → World → World
    release_or_log run s w =
        (mutate bucket short_hash run.max_retries s.project s.name
          (releasing run.pr run.run_id run.ttl) w).1

    unfoldable pub gated :
        Invocation → Preview → PolicyRun → Stack → Bool → Lock → World → StackDecision × World
    gated run prev policy s acquired l w =
        let res = gate_result run prev policy s acquired l in
        if res.blocked
        then (blocked res, if acquired then release_or_log run s w else w)
        else (cleared res l, w)

    unfoldable pub decide_stack :
        Bool → Invocation → Preview → PolicyRun → Stack → World → StackDecision × World
    decide_stack true run prev policy s w = (cancelled, w)
    decide_stack false run prev policy s w =
        let answer =
          mutate bucket short_hash run.max_retries s.project s.name
            (acquiring (run_holder run) run.ttl) w in
        elim answer.0 [
          | failed f ↦ (lock_failed f, answer.1)
          | answered l acquired err ↦ elim err [
            | some e ↦ (lock_refusal l e, answer.1)
            | none ↦ gated run prev policy s acquired l answer.1
          ]
        ]
