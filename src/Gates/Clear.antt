-- ===== src/Gates/Clear.antt =====
-- When internal/core/preconditions/gates.go lets an apply through.
use reeve.Prelude.{
  ◌≡◌, refl, ◌∙◌, Bool, true, false, not, ◌&&◌, ◌||◌, List, [], ◌∷◌, none, some, any, all, arith,
  is_positive, is_zero_int, le_int,
}
use reeve.Gates.{
  GateId, up_to_date, checks_green, preview_fresh, preview_ok, policy, approvals, lock, freeze,
  fork, draft, gate_order, Config, Inputs, eval_gate, gate_fails, evaluate,
}
use reeve.Gates.Trace.{evaluate-blocked}

-- What each gate asks for, break-glass included.
unfoldable pub condition : Config → Inputs → GateId → Bool
condition cfg inp fork = not inp.pr_is_fork || inp.fork_opt_in_allowed
condition cfg inp draft = not inp.pr_is_draft
condition cfg inp up_to_date =
    not cfg.require_up_to_date
    || inp.is_up_to_date
    || (is_positive cfg.preview_max_commits_behind
        && le_int inp.behind cfg.preview_max_commits_behind)
condition cfg inp checks_green = not cfg.require_checks_passing || inp.checks_are_green
condition cfg inp preview_ok =
    inp.preview_succeeded || (inp.break_glass && inp.preview_history_unavailable)
condition cfg inp preview_fresh =
    is_zero_int cfg.preview_freshness
    || (inp.has_fresh_preview && le_int inp.preview_age cfg.preview_freshness)
    || (inp.break_glass && inp.preview_history_unavailable)
condition cfg inp approvals = inp.approvals_satisfied || inp.break_glass
condition cfg inp lock = inp.lock_acquirable
condition cfg inp freeze = not inp.in_freeze || (inp.break_glass && inp.break_glass_override_freeze)
condition cfg inp policy = elim inp.policy_passed [ none ↦ true | some ok ↦ ok ]

gate_fails-condition :
    (cfg : Config) (inp : Inputs) (g : GateId) → gate_fails cfg inp g ≡ not (condition cfg inp g)
unfolding eval_gate condition
gate_fails-condition cfg inp fork = ground arith
gate_fails-condition cfg inp g = ground arith

any-not {ℓ} :
    {A : Type ℓ} (p f : A → Bool)
    → ((a : A) → f a ≡ not (p a))
    → (xs : List A) → any f xs ≡ not (all p xs)
any-not p f h [] = refl
any-not p f h (x ∷ xs) = ground (arith, h x, any-not p f h xs)

-- An apply is blocked unless the condition of every one of the ten gates holds: only approvals, a
-- freeze with its own permission, and the two preview gates when the preview history could not be
-- read, give way to break-glass.
pub evaluate-blocked_iff :
    (cfg : Config) (inp : Inputs)
    → (evaluate cfg inp).blocked
      ≡ not (
          all (condition cfg inp) (
            fork ∷ draft ∷ up_to_date ∷ checks_green ∷ preview_ok ∷ preview_fresh ∷ approvals ∷ lock
            ∷ freeze ∷ policy ∷ []))
evaluate-blocked_iff cfg inp =
    evaluate-blocked cfg inp
    ∙ any-not (condition cfg inp) _ (gate_fails-condition cfg inp) gate_order

all-gates :
    (p : GateId → Bool) (g : GateId)
    → all p (
        fork ∷ draft ∷ up_to_date ∷ checks_green ∷ preview_ok ∷ preview_fresh ∷ approvals ∷ lock
        ∷ freeze ∷ policy ∷ [])
      ≡ true
    → p g ≡ true
all-gates p fork e = ground (arith, e)
all-gates p draft e = ground (arith, e)
all-gates p up_to_date e = ground (arith, e)
all-gates p checks_green e = ground (arith, e)
all-gates p preview_ok e = ground (arith, e)
all-gates p preview_fresh e = ground (arith, e)
all-gates p approvals e = ground (arith, e)
all-gates p lock e = ground (arith, e)
all-gates p freeze e = ground (arith, e)
all-gates p policy e = ground (arith, e)

-- Of an apply that is not blocked, the condition of every gate holds.
pub evaluate-condition :
    (cfg : Config) (inp : Inputs) (g : GateId)
    → (evaluate cfg inp).blocked ≡ false
    → condition cfg inp g ≡ true
evaluate-condition cfg inp g e =
    all-gates (condition cfg inp) g (ground (arith, e, evaluate-blocked_iff cfg inp))
