-- ===== src/Run/Tests.antt =====
-- Runs of internal/run/apply.go on a small bucket, and the theorem at one.
use reeve.Prelude.{
  ℕ, ◌*◌, ◌≡◌, refl, Bool, true, false, [], Option, none, some, String, if◌then◌else◌, is_blank,
  str_eq, second, at, pos, arith,
}
use reeve.Locks.{Lock, new_lock, try_acquire, evict_if_expired, install, remove_pr}
use reeve.Store.{
  Bucket, not_found, done, precondition_failed, mutate, mutate_from, mutate_round, get, put,
}
use reeve.Store.Changes.{acquiring}
use reeve.Store.Transition.{IsConditional}
use reeve.Approvals.{Rules, Approval}
use reeve.Approvals as approvals
use reeve.Approvals.Resolve.{resolve}
use reeve.Approvals.Evaluate as evaluation
use reeve.Gates as gates
use reeve.Gates.{Result}
use reeve.Freeze.{active_for}
use reeve.Discovery.{Stack}
use reeve.Run.{
  Preview, PolicyRun, Invocation, StackDecision, cleared, run_holder, gate_result, gated,
  decide_stack,
}
use reeve.Store.Guarantees.{Acquires}
use reeve.Run.Cleared.{IsAdmitted, decide_stack-cleared}

-- A bucket without objects, in which writes are forgotten; its state is nothing but its clock.
abbrev empty : Bucket ℕ
empty = record {
  get = λ k w. (not_found, w);
  put_if_match = λ k l etag w. (if is_blank etag then done else precondition_failed, w);
  ensure_cas = λ w. (true, w);
  now = λ w. w;
  met = λ k w. none;
}

put_blank :
    (etag : String)
    → (if is_blank etag then done else precondition_failed) ≡ done
    → is_blank etag ≡ true
put_blank etag e = ground (arith, e)

empty-IsConditional : IsConditional empty
empty-IsConditional = record { put_matched = λ k l etag w e. put_blank etag e }

abbrev digest : String → String
digest s = s

abbrev one_approval : Rules
one_approval = record {
  required_approvals = pos 1;
  approvers = [];
  codeowners = false;
  require_all_groups = false;
  dismiss_on_new_commit = false;
  allow_unpinned_comments = false;
  freshness = pos 0;
  allow_unlisted_approvals_on_public = false;
  team_members = [];
}

abbrev prod : Stack
prod = record { project = "net"; path = "net"; name = "prod"; env = "prod" }

abbrev run : Bool → Invocation
run break_glass = record {
  pr = 7;
  commit_sha = "c0ffee";
  run_id = "r7";
  actor = "ann";
  ttl = pos second;
  max_retries = 3;
  is_fork = false;
  is_draft = false;
  allows_fork_prs = false;
  is_up_to_date = true;
  behind = pos 0;
  checks_are_green = true;
  gate_config = record {
    require_up_to_date = true;
    require_checks_passing = true;
    preview_freshness = pos 0;
    preview_max_commits_behind = pos 0;
    fail_on_fork_prs = true;
  };
  approvals_config = record { sources = []; default = one_approval; stacks = [] };
  team_members = [];
  raw_approvals = [];
  head_sha = "c0ffee";
  author = "ann";
  repo_private = true;
  codeowners = [];
  windows = [];
  break_glass = break_glass;
  override_freeze = false;
  history_unavailable = false;
  history_error = "";
  has_hooks = false;
  now = 30 * second;
}

abbrev seen : Preview
seen = record { found = true; succeeded = true; age = pos 5; has_plan = true }

abbrev ran : PolicyRun
ran = record { passed = true; errored = false }

abbrev no_cron : String → Option (ℕ → ℕ)
no_cron expr = none

abbrev taken : Lock
taken = record {
  project = "net";
  stack = "prod";
  holder = some (record {
    pr = 7;
    commit_sha = "c0ffee";
    run_id = "r7";
    actor = "ann";
    acquired_at = at 30;
    expires_at = at 31;
    promoted = false;
  });
  queue = [];
  updated_at = at 30;
}

abbrev decided : Bool → StackDecision × ℕ
decided break_glass =
    decide_stack str_eq no_cron empty digest false (run break_glass) seen ran prod (30 * second)

abbrev let_through : Result
let_through = gate_result str_eq no_cron (run true) seen ran prod true taken

by_break_glass : (decided true).0 ≡ cleared let_through taken
unfolding decide_stack gated gate_result mutate mutate_from mutate_round get put new_lock acquiring
    try_acquire evict_if_expired install remove_pr active_for gates.evaluate gates.eval_gate
    evaluation.evaluate evaluation.add_gates evaluation.add_owners evaluation.with_default resolve
    evaluation.add_groups evaluation.add_required evaluation.started approvals.names
    evaluation.effective evaluation.stale
by_break_glass = refl

abbrev cleared_of : StackDecision → Bool
cleared_of (cleared res l) = true
cleared_of d = false

not_approved : cleared_of (decided false).0 ≡ false
unfolding decide_stack gated gate_result mutate mutate_from mutate_round get put new_lock acquiring
    try_acquire evict_if_expired install remove_pr active_for gates.evaluate gates.eval_gate
    evaluation.evaluate evaluation.add_gates evaluation.add_owners evaluation.with_default resolve
    evaluation.add_groups evaluation.add_required evaluation.started approvals.names
    evaluation.effective evaluation.stale
not_approved = refl

decide_stack-cleared_example :
    Acquires empty digest "net" "prod" (run_holder (run true)) (pos second) taken none
    × IsAdmitted str_eq no_cron (run true) seen ran prod
decide_stack-cleared_example =
    decide_stack-cleared str_eq no_cron empty digest empty-IsConditional false (run true) seen ran
      prod (30 * second) let_through taken by_break_glass
