-- ===== src/Approvals/Tests.antt =====
-- Runs of internal/core/approvals on small inputs, and the theorems at them.
use mathlib.Core.List.{Memᴰ}
use reeve.Prelude.{
  ◌≤◌, ◌≡◌, refl, ◌⊎◌, true, false, ◌&&◌, List, [], ◌∷◌, map, String, ℤ, pos, arith, member,
  trim_at, is_empty, length, str_eq,
}
use reeve.Approvals.{Approval, Pr, Rules, StackRule, Config, names, eligible}
use reeve.Approvals.Sources.{pr_review_enabled}
use reeve.Approvals.Resolve.{specificity, sort_by_specificity, apply_rules, matching, resolve}
use reeve.Approvals.Evaluate.{
  verdict, effective, stale, effective_owners, with_default, add_required, add_groups, add_owners,
  add_gates, started, evaluate,
}
use reeve.Approvals.Decision.{
  numeric_met, groups_met, owners_met, has_gate, counted, evaluate-satisfied,
}
use reeve.Approvals.Counting.{Eligible, satisfied-Eligible}
use reeve.Approvals.Order.{Unique, satisfied-people}

abbrev rules : Rules
rules = record {
  required_approvals = pos 2;
  approvers = "acme/sre" ∷ "@dana" ∷ [];
  codeowners = false;
  require_all_groups = false;
  dismiss_on_new_commit = true;
  allow_unpinned_comments = false;
  freshness = pos 100;
  allow_unlisted_approvals_on_public = false;
  team_members = ("acme/sre", "sam" ∷ "kim" ∷ []) ∷ [];
}

abbrev no_rules : Rules
no_rules = record rules {
  required_approvals = pos 0;
  approvers = [];
  dismiss_on_new_commit = false;
  freshness = pos 0;
}

abbrev pr : Pr
pr = record {
  number = 7;
  head_sha = "c0ffee";
  author = "ana";
  base_ref = "main";
  is_fork = false;
  repo_private = true;
  opened_at = 1;
  changed = "net/main.tf" ∷ [];
}

abbrev by : String → Approval
by who = record {
  source = "pr_review";
  approver = who;
  submitted_at = 950;
  commit_sha = "c0ffee";
  pinned = true;
}

two_people :
    (evaluate rules (by "sam" ∷ by "sam" ∷ by "dana" ∷ []) pr [] "ana" 1000).satisfied ≡ true
unfolding evaluate started add_gates with_default add_required add_groups add_owners
    effective_owners effective stale verdict names
two_people = refl

one_person_twice :
    (evaluate rules (by "sam" ∷ by "sam" ∷ by "ana" ∷ []) pr [] "ana" 1000).satisfied ≡ false
unfolding evaluate started add_gates with_default add_required add_groups add_owners
    effective_owners effective stale verdict names
one_person_twice = refl

no_rules_nobody : (evaluate no_rules [] pr [] "ana" 1000).satisfied ≡ false
unfolding evaluate started add_gates with_default add_required add_groups add_owners
    effective_owners effective stale verdict names
no_rules_nobody = refl

abbrev two : List Approval
two = by "sam" ∷ by "dana" ∷ []

evaluate-satisfied_example :
    let eo = effective_owners rules [] in
    let rules' = with_default rules eo in
    let who = counted rules two pr "ana" 1000 in
    (evaluate rules two pr [] "ana" 1000).satisfied ≡ (
      numeric_met rules' pr who
      && groups_met rules' who
      && owners_met rules' who eo
      && has_gate rules' eo)
evaluate-satisfied_example = evaluate-satisfied rules two pr [] "ana" 1000

satisfied-Eligible_example : (a : Approval) × Memᴰ a two × Eligible rules pr "ana" 1000 a
unfolding evaluate started add_gates with_default add_required add_groups add_owners
    effective_owners effective stale verdict names
satisfied-Eligible_example = satisfied-Eligible rules two pr [] "ana" 1000 refl

satisfied-people_example :
    (people : List String) × Unique people
    × (2 ≤ length people)
    × ((s : String)
        → member s people ≡ true
        → (member s (map trim_at (counted rules two pr "ana" 1000)) ≡ true)
          × ((is_empty rules.approvers ≡ true)
              ⊎ (member s (eligible rules.approvers rules.team_members) ≡ true)))
unfolding evaluate started add_gates with_default add_required add_groups add_owners
    effective_owners effective stale verdict names
satisfied-people_example = satisfied-people rules two pr [] "ana" 1000 2 refl (omega arith) refl

-- Two patterns that match everything of a project; the longer one is the more specific.
abbrev sets : String → ℤ → StackRule
sets pattern n = record {
  pattern = pattern;
  rules = record rules { required_approvals = n };
  present = λ key. str_eq key "required_approvals";
}

abbrev config : Config
config = record {
  sources = [];
  default = rules;
  stacks = sets "net/prod" (pos 3) ∷ sets "net/*" (pos 1) ∷ [];
}

resolve_specific : (resolve (λ p r. true) config "net/prod").required_approvals ≡ pos 3
unfolding resolve matching sort_by_specificity apply_rules specificity
resolve_specific = refl

reviews_by_default : pr_review_enabled config ≡ true
unfolding pr_review_enabled
reviews_by_default = refl
