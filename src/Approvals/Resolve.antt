-- ===== src/Approvals/Resolve.antt =====
-- internal/core/approvals/rules.go: Resolve, which merges the default rule with the rules of the
-- stack patterns that match. doublestar.Match is the parameter `glob`, pattern first.
use mathlib.Core.List.{reverse}
use Prim.Native.Char.{code}
use reeve.Prelude.{
  ℕ, Bool, List, [], ◌∷◌, ◌++◌, String, if◌then◌else◌, ℤ, pos, negsuc, ◌+ℤ◌, lt_int, ◌==◌, ◌||◌,
  is_empty, member,
}
use reeve.Approvals.{Rules, StackRule, Config}

-- The weight of one character of a pattern.
abbrev weight : ℕ → ℤ
weight c =
    if c == b'*' || c == b'?'
    then negsuc 1
    else (if c == b'[' || c == b']' then negsuc 0 else pos 1)

specificity_from : ℤ → String → ℤ
specificity_from score String.[] = score
specificity_from score (String.◌∷◌ c s) = specificity_from (score +ℤ weight (code c)) s

unfoldable pub specificity : String → ℤ
unfolding specificity_from
specificity p = specificity_from (pos 0) p

-- The inner loop: `rule` moves down past every rule of greater specificity. The list is the sorted
-- front of the slice, its last element first.
unfoldable pub insert_back : StackRule → List StackRule → List StackRule
insert_back rule [] = rule ∷ []
insert_back rule (r ∷ rs) =
    if lt_int (specificity rule.pattern) (specificity r.pattern)
    then r ∷ insert_back rule rs
    else rule ∷ r ∷ rs

unfoldable pub sort_from : List StackRule → List StackRule → List StackRule
unfolding insert_back
sort_from front [] = front
sort_from front (r ∷ rs) = sort_from (insert_back r front) rs

unfoldable pub sort_by_specificity : List StackRule → List StackRule
unfolding sort_from
sort_by_specificity rules = reverse (sort_from [] rules)

union_from : List String → List String → List String
union_from seen [] = []
union_from seen (s ∷ rest) =
    let skipped = union_from seen rest in
    let taken = s ∷ union_from (s ∷ seen) rest in if member s seen then skipped else taken

unfoldable pub union_strings : List String → List String → List String
unfolding union_from
union_strings a b = union_from [] (a ++ b)

-- One round of the loop that applies the rules.
unfoldable pub apply_rule : Rules → StackRule → Rules
apply_rule out r = record out {
  required_approvals =
      if r.present "required_approvals" then r.rules.required_approvals else out.required_approvals;
  require_all_groups =
      if r.present "require_all_groups" then r.rules.require_all_groups else out.require_all_groups;
  codeowners = if r.present "codeowners" then r.rules.codeowners else out.codeowners;
  dismiss_on_new_commit =
      if r.present "dismiss_on_new_commit"
      then r.rules.dismiss_on_new_commit
      else out.dismiss_on_new_commit;
  allow_unpinned_comments =
      if r.present "allow_unpinned_comment_approvals"
      then r.rules.allow_unpinned_comments
      else out.allow_unpinned_comments;
  freshness = if r.present "freshness" then r.rules.freshness else out.freshness;
  approvers =
      if is_empty r.rules.approvers
      then out.approvers
      else union_strings out.approvers r.rules.approvers;
}

unfoldable pub apply_rules : Rules → List StackRule → Rules
unfolding apply_rule
apply_rules out [] = out
apply_rules out (r ∷ rs) = apply_rules (apply_rule out r) rs

unfoldable pub matching : (String → String → Bool) → String → List StackRule → List StackRule
matching glob ref [] = []
matching glob ref (r ∷ rs) =
    if glob r.pattern ref then r ∷ matching glob ref rs else matching glob ref rs

unfoldable pub resolve : (String → String → Bool) → Config → String → Rules
unfolding apply_rules sort_by_specificity matching
resolve glob cfg ref = apply_rules cfg.default (sort_by_specificity (matching glob ref cfg.stacks))
