-- ===== src/Gates.antt =====
-- internal/core/preconditions/gates.go: the gates that an apply of one stack passes, in order. A
-- message that the code formats is kept as its arguments.
pub mod Trace
pub mod Clear
pub mod Overrides
mod Tests
use reeve.Prelude.{
  ℕ, Bool, true, false, not, ◌&&◌, List, [], ◌∷◌, ◌++◌, Option, none, some, String, if◌then◌else◌,
  ℤ, pos, is_positive, is_zero_int, le_int, lt_int, is_blank,
}

pub data Outcome : Type 0 where
  passed failed warning skipped : Outcome

pub data GateId : Type 0 where
  up_to_date checks_green preview_fresh preview_ok policy approvals lock freeze fork draft : GateId

abbrev pub gate_order : List GateId
gate_order =
    fork ∷ draft ∷ up_to_date ∷ checks_green ∷ preview_ok ∷ preview_fresh ∷ approvals ∷ lock
    ∷ freeze ∷ policy ∷ []

pub data Reason : Type 0 where
  plain : String → Reason
  commits_behind : ℤ → ℤ → Reason
  preview_too_old preview_within : ℤ → ℤ → Reason
  held_by_pr : ℤ → Reason
  in_window in_window_overridden : String → Reason
  history_unavailable : Option String → Reason

pub record GateResult : Type 0 where
  pub gate : GateId
  pub outcome : Outcome
  pub reason : Reason

pub record Config : Type 0 where
  pub require_up_to_date : Bool
  pub require_checks_passing : Bool
  pub preview_freshness : ℤ
  pub preview_max_commits_behind : ℤ
  pub fail_on_fork_prs : Bool

pub record Inputs : Type 0 where
  pub stack_ref : String
  pub pr_is_fork : Bool
  pub pr_is_draft : Bool
  pub fork_opt_in_allowed : Bool
  pub is_up_to_date : Bool
  pub behind : ℤ
  pub checks_are_green : Bool
  pub has_fresh_preview : Bool
  pub preview_age : ℤ
  pub preview_succeeded : Bool
  pub policy_passed : Option Bool
  pub approvals_satisfied : Bool
  pub lock_acquirable : Bool
  pub lock_blocked_by_pr : ℤ
  pub in_freeze : Bool
  pub freeze_name : String
  pub break_glass : Bool
  pub break_glass_override_freeze : Bool
  pub preview_history_unavailable : Bool
  pub preview_history_error : String

pub record Result : Type 0 where
  pub stack_ref : String
  pub gates : List GateResult
  pub blocked : Bool
  pub overridden : List GateId

abbrev pass : GateId → String → GateResult
pass g msg = record { gate = g; outcome = passed; reason = plain msg }

abbrev fail : GateId → Reason → GateResult
fail g msg = record { gate = g; outcome = failed; reason = msg }

abbrev warn : GateId → Reason → GateResult
warn g msg = record { gate = g; outcome = warning; reason = msg }

abbrev skip : GateId → String → GateResult
skip g msg = record { gate = g; outcome = skipped; reason = plain msg }

unfoldable pub eval_gate_base : GateId → Config → Inputs → GateResult
eval_gate_base fork cfg inp =
    if inp.pr_is_fork && not inp.fork_opt_in_allowed
    then fail fork
        (plain "fork PR - apply denied by default; see docs/auth.md#fork-pr-policy to opt in")
    else (if not inp.pr_is_fork
        then skip fork "not a fork PR"
        else pass fork "fork PR with per-repo opt-in")
eval_gate_base draft cfg inp =
    if inp.pr_is_draft
    then fail draft (plain "PR is in draft - convert to ready for review before applying")
    else skip draft "not a draft PR"
eval_gate_base up_to_date cfg inp =
    if not cfg.require_up_to_date
    then skip up_to_date "require_up_to_date disabled"
    else (if inp.is_up_to_date
        then pass up_to_date "branch up-to-date with base"
        else (if is_positive cfg.preview_max_commits_behind
              && le_int inp.behind cfg.preview_max_commits_behind
            then warn up_to_date (commits_behind inp.behind cfg.preview_max_commits_behind)
            else fail up_to_date (plain "branch is behind base")))
eval_gate_base checks_green cfg inp =
    if not cfg.require_checks_passing
    then skip checks_green "require_checks_passing disabled"
    else (if inp.checks_are_green
        then pass checks_green "required checks passing"
        else fail checks_green (plain "required checks are not passing"))
eval_gate_base preview_ok cfg inp =
    if inp.preview_succeeded
    then pass preview_ok "preview succeeded"
    else fail preview_ok (plain "preview failed for this stack")
eval_gate_base preview_fresh cfg inp =
    if is_zero_int cfg.preview_freshness
    then skip preview_fresh
        "preview_freshness disabled - a plan of any age may be applied; concurrent merges are not accounted for"
    else (if not inp.has_fresh_preview
        then fail preview_fresh (plain "no preview on current HEAD")
        else (if lt_int cfg.preview_freshness inp.preview_age
            then fail preview_fresh (preview_too_old inp.preview_age cfg.preview_freshness)
            else record {
              gate = preview_fresh;
              outcome = passed;
              reason = preview_within inp.preview_age cfg.preview_freshness;
            }))
eval_gate_base policy cfg inp = elim inp.policy_passed [
  | none ↦ skip policy "no policy hooks configured"
  | some ok ↦
      if ok
      then pass policy "all policy hooks passed"
      else fail policy (plain "one or more policy hooks failed")
]
eval_gate_base approvals cfg inp =
    if inp.approvals_satisfied
    then pass approvals "approvals satisfied"
    else fail approvals (plain "approvals not satisfied")
eval_gate_base lock cfg inp =
    if inp.lock_acquirable
    then pass lock "lock is acquirable"
    else (if is_positive inp.lock_blocked_by_pr
        then fail lock (held_by_pr inp.lock_blocked_by_pr)
        else fail lock (plain "lock not acquirable"))
eval_gate_base freeze cfg inp =
    if inp.in_freeze
    then fail freeze (in_window inp.freeze_name)
    else pass freeze "not in freeze window"

abbrev pub is_fail : Outcome → Bool
is_fail failed = true
is_fail _ = false

-- The case of the two preview gates under break-glass.
abbrev eval_preview : GateResult → Inputs → GateResult × Bool
eval_preview base inp =
    if inp.preview_history_unavailable
    then (if is_fail base.outcome
        then (
          warn base.gate (
              history_unavailable (
                if is_blank inp.preview_history_error
                then none
                else some inp.preview_history_error)),
          true,
        )
        else (base, false))
    else (base, false)

eval_break_glass : GateId → Config → Inputs → GateResult × Bool
eval_break_glass approvals cfg inp =
    if inp.approvals_satisfied
    then (pass approvals "approvals satisfied", false)
    else (warn approvals (plain "approvals not satisfied - overridden by break-glass"), true)
eval_break_glass freeze cfg inp =
    if inp.in_freeze && inp.break_glass_override_freeze
    then (warn freeze (in_window_overridden inp.freeze_name), true)
    else (eval_gate_base freeze cfg inp, false)
eval_break_glass preview_ok cfg inp = eval_preview (eval_gate_base preview_ok cfg inp) inp
eval_break_glass preview_fresh cfg inp = eval_preview (eval_gate_base preview_fresh cfg inp) inp
eval_break_glass g cfg inp = (eval_gate_base g cfg inp, false)

unfoldable pub eval_gate : GateId → Config → Inputs → GateResult × Bool
unfolding eval_break_glass eval_gate_base
eval_gate g cfg inp =
    if inp.break_glass then eval_break_glass g cfg inp else (eval_gate_base g cfg inp, false)

-- One round of either loop, up to its test for a failure.
abbrev pub add_gate : Config → Inputs → Result → GateId → Result
add_gate cfg inp res g =
    let (gr, overridden) = eval_gate g cfg inp in
    record res {
      gates = res.gates ++ (gr ∷ []);
      overridden = if overridden then res.overridden ++ (g ∷ []) else res.overridden;
    }

abbrev pub gate_fails : Config → Inputs → GateId → Bool
gate_fails cfg inp g = is_fail (eval_gate g cfg inp).0.outcome

pub evaluate_from : Config → Inputs → Result → List GateId → Result
evaluate_from cfg inp res [] = res
evaluate_from cfg inp res (g ∷ gs) =
    let res' = add_gate cfg inp res g in
    let rest = evaluate_from cfg inp res' gs in
    if gate_fails cfg inp g then record res' { blocked = true } else rest

-- One round of EvaluateAll.
abbrev pub add_any : Config → Inputs → Result → GateId → Result
add_any cfg inp res g =
    let res' = add_gate cfg inp res g in
    record res' { blocked = if gate_fails cfg inp g then true else res'.blocked }

pub evaluate_all_from : Config → Inputs → Result → List GateId → Result
evaluate_all_from cfg inp res [] = res
evaluate_all_from cfg inp res (g ∷ gs) = evaluate_all_from cfg inp (add_any cfg inp res g) gs

abbrev pub start : Inputs → Result
start inp = record { stack_ref = inp.stack_ref; gates = []; blocked = false; overridden = [] }

unfoldable pub evaluate : Config → Inputs → Result
unfolding evaluate_from
evaluate cfg inp = evaluate_from cfg inp (start inp) gate_order

unfoldable pub evaluate_all : Config → Inputs → Result
unfolding evaluate_all_from
evaluate_all cfg inp = evaluate_all_from cfg inp (start inp) gate_order
