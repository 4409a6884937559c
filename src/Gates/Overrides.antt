-- ===== src/Gates/Overrides.antt =====
-- What break-glass overrides in internal/core/preconditions/gates.go.
use mathlib.Core.List.{append-nil, append_assoc}
use reeve.Prelude.{
  ◌≡◌, sym, ◌∙◌, Bool, false, ◌&&◌, List, [], ◌∷◌, ◌++◌, select, arith, Bool-cases, inl, inr,
}
use reeve.Gates.{
  GateId, approvals, freeze, preview_ok, preview_fresh, fork, gate_order, is_fail, Config, Inputs,
  Result, eval_gate, eval_gate_base, add_any, evaluate_all_from, evaluate_all, start,
}

-- The gates that break-glass may override at these inputs.
abbrev pub may_override : Inputs → GateId → Bool
may_override inp approvals = inp.break_glass
may_override inp freeze = inp.break_glass && inp.break_glass_override_freeze
may_override inp preview_ok = inp.break_glass && inp.preview_history_unavailable
may_override inp preview_fresh = inp.break_glass && inp.preview_history_unavailable
may_override inp _ = false

-- The gate would have failed without break-glass.
abbrev pub base_fails : Config → Inputs → GateId → Bool
base_fails cfg inp g = is_fail (eval_gate_base g cfg inp).outcome

-- The flag that evalGate returns, and what it decides on the gates that are not overridden.
pub eval_gate-overridden :
    (cfg : Config) (inp : Inputs) (g : GateId)
    → ((eval_gate g cfg inp).1 ≡ (may_override inp g && base_fails cfg inp g))
      × ((eval_gate g cfg inp).1 ≡ false
          → (eval_gate g cfg inp).0.outcome ≡ (eval_gate_base g cfg inp).outcome)
unfolding eval_gate
eval_gate-overridden cfg inp fork = (ground arith, λ e. ground arith)
eval_gate-overridden cfg inp g = (ground arith, λ e. ground arith)

module _ (cfg : Config) (inp : Inputs) where
  evaluate_all_from-overridden :
      (res : Result) (gs : List GateId)
      → (evaluate_all_from cfg inp res gs).overridden
        ≡ res.overridden ++ select (λ g. may_override inp g && base_fails cfg inp g) gs
  unfolding evaluate_all_from
  evaluate_all_from-overridden res [] = sym (append-nil res.overridden)
  evaluate_all_from-overridden res (g ∷ gs) =
      evaluate_all_from-overridden (add_any cfg inp res g) gs
      ∙ elim (Bool-cases (may_override inp g && base_fails cfg inp g)) [
        | inl e ↦ rw ((eval_gate-overridden cfg inp g).0, e) (append_assoc res.overridden _ _)
        | inr e ↦ rw ((eval_gate-overridden cfg inp g).0, e)
      ]

-- The audit trail is exact: EvaluateAll lists as overridden, in the order of the gates, those that
-- break-glass may override at these inputs and that fail without it, and no other.
pub evaluate_all-overridden :
    (cfg : Config) (inp : Inputs)
    → (evaluate_all cfg inp).overridden
      ≡ select (λ g. may_override inp g && base_fails cfg inp g) gate_order
unfolding evaluate_all
evaluate_all-overridden cfg inp = evaluate_all_from-overridden cfg inp (start inp) gate_order
