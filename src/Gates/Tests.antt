-- ===== src/Gates/Tests.antt =====
-- Runs of internal/core/preconditions/gates.go on small inputs, and the theorems at them.
use reeve.Prelude.{◌≡◌, refl, true, false, not, [], ◌∷◌, none, pos, all}
use reeve.Gates.{
  fork, draft, up_to_date, checks_green, preview_ok, preview_fresh, approvals, lock, freeze, policy,
  Config, Inputs, eval_gate, evaluate, evaluate_all,
}
use reeve.Gates.Clear.{condition, evaluate-blocked_iff}

abbrev strict : Config
strict = record {
  require_up_to_date = true;
  require_checks_passing = true;
  preview_freshness = pos 100;
  preview_max_commits_behind = pos 5;
  fail_on_fork_prs = true;
}

abbrev ready : Inputs
ready = record {
  stack_ref = "net/prod";
  pr_is_fork = false;
  pr_is_draft = false;
  fork_opt_in_allowed = false;
  is_up_to_date = false;
  behind = pos 5;
  checks_are_green = true;
  has_fresh_preview = true;
  preview_age = pos 100;
  preview_succeeded = true;
  policy_passed = none;
  approvals_satisfied = true;
  lock_acquirable = true;
  lock_blocked_by_pr = pos 0;
  in_freeze = false;
  freeze_name = "";
  break_glass = false;
  break_glass_override_freeze = false;
  preview_history_unavailable = false;
  preview_history_error = "";
}

-- An emergency: nobody approved, the freeze is on, and another run holds the lock.
abbrev emergency : Inputs
emergency = record ready {
  approvals_satisfied = false;
  in_freeze = true;
  freeze_name = "friday";
  lock_acquirable = false;
  lock_blocked_by_pr = pos 12;
  break_glass = true;
  break_glass_override_freeze = true;
}

ready_passes : (evaluate strict ready).blocked ≡ false
unfolding evaluate eval_gate
ready_passes = refl

emergency_blocked : (evaluate strict emergency).blocked ≡ true
unfolding evaluate eval_gate
emergency_blocked = refl

emergency_overrides : (evaluate_all strict emergency).overridden ≡ approvals ∷ freeze ∷ []
unfolding evaluate_all eval_gate
emergency_overrides = refl

evaluate-blocked_iff_example :
    (evaluate strict emergency).blocked
    ≡ not (
        all (condition strict emergency) (
          fork ∷ draft ∷ up_to_date ∷ checks_green ∷ preview_ok ∷ preview_fresh ∷ approvals ∷ lock
          ∷ freeze ∷ policy ∷ []))
evaluate-blocked_iff_example = evaluate-blocked_iff strict emergency
