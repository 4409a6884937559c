-- ===== src/Gates/Trace.antt =====
-- The two loops of internal/core/preconditions/gates.go, and how their traces compare.
use mathlib.Core.List.{append-nil, append_assoc}
use reeve.Prelude.{
  ◌≡◌, refl, sym, ap, ◌∙◌, false, ◌||◌, List, [], ◌∷◌, ◌++◌, map, if◌then◌else◌, any, Bool-cases,
  inl, inr, arith,
}
use reeve.Gates.{
  GateId, GateResult, Config, Inputs, Result, gate_order, is_fail, eval_gate, add_gate, add_any,
  gate_fails, evaluate_from, evaluate_all_from, start, evaluate, evaluate_all,
}

-- A trace cut behind its first failure.
abbrev pub up_to_fail : List GateResult → List GateResult
up_to_fail [] = []
up_to_fail (r ∷ rs) = if is_fail r.outcome then r ∷ [] else r ∷ up_to_fail rs

abbrev pub results : Config → Inputs → List GateId → List GateResult
results cfg inp = map (λ g. (eval_gate g cfg inp).0)

module _ (cfg : Config) (inp : Inputs) where
  evaluate_from-gates :
      (res : Result) (gs : List GateId)
      → (evaluate_from cfg inp res gs).gates ≡ res.gates ++ up_to_fail (results cfg inp gs)
  unfolding evaluate_from
  evaluate_from-gates res [] = sym (append-nil res.gates)
  evaluate_from-gates res (g ∷ gs) = elim (Bool-cases (gate_fails cfg inp g)) [
    | inl e ↦ rw e
    | inr e ↦ rw e (evaluate_from-gates (add_gate cfg inp res g) gs ∙ append_assoc res.gates _ _)
  ]

  evaluate_all_from-gates :
      (res : Result) (gs : List GateId)
      → (evaluate_all_from cfg inp res gs).gates ≡ res.gates ++ results cfg inp gs
  unfolding evaluate_all_from
  evaluate_all_from-gates res [] = sym (append-nil res.gates)
  evaluate_all_from-gates res (g ∷ gs) =
      evaluate_all_from-gates (add_any cfg inp res g) gs ∙ append_assoc res.gates _ _

  evaluate_from-blocked :
      (res : Result) (gs : List GateId)
      → res.blocked ≡ false
      → (evaluate_from cfg inp res gs).blocked ≡ any (gate_fails cfg inp) gs
  unfolding evaluate_from
  evaluate_from-blocked res [] e = e
  evaluate_from-blocked res (g ∷ gs) e =
      ground (arith, evaluate_from-blocked (add_gate cfg inp res g) gs)

  evaluate_all_from-blocked :
      (res : Result) (gs : List GateId)
      → (evaluate_all_from cfg inp res gs).blocked ≡ (res.blocked || any (gate_fails cfg inp) gs)
  unfolding evaluate_all_from
  evaluate_all_from-blocked res [] = ground arith
  evaluate_all_from-blocked res (g ∷ gs) =
      ground (arith, evaluate_all_from-blocked (add_any cfg inp res g) gs)

  pub evaluate-blocked : (evaluate cfg inp).blocked ≡ any (gate_fails cfg inp) gate_order
  unfolding evaluate
  evaluate-blocked = evaluate_from-blocked (start inp) gate_order refl

-- The apply path and the report agree: Evaluate blocks exactly when EvaluateAll does, and its trace
-- is EvaluateAll's cut behind the first failed gate.
pub evaluate_trace :
    (cfg : Config) (inp : Inputs)
    → ((evaluate cfg inp).gates ≡ up_to_fail (evaluate_all cfg inp).gates)
      × ((evaluate cfg inp).blocked ≡ (evaluate_all cfg inp).blocked)
unfolding evaluate evaluate_all
evaluate_trace cfg inp = (
  evaluate_from-gates cfg inp (start inp) gate_order
      ∙ ap up_to_fail (sym (evaluate_all_from-gates cfg inp (start inp) gate_order)),
  evaluate_from-blocked cfg inp (start inp) gate_order refl
      ∙ sym (evaluate_all_from-blocked cfg inp (start inp) gate_order),
)
