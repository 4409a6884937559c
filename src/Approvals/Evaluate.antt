-- ===== src/Approvals/Evaluate.antt =====
-- internal/core/approvals/rules.go: Evaluate, part by part. A message that the code formats is kept
-- as its arguments.
use reeve.Prelude.{
  ℕ, ◌+◌, ◌-◌, Bool, true, false, not, ◌&&◌, ◌||◌, List, [], ◌∷◌, ◌++◌, String, if◌then◌else◌, ℤ,
  pos, negsuc, lt_int, is_positive, is_zero_int, is_zero_time, sub_time, any, is_empty, length,
  str_eq, is_blank, ltb, select,
}
use reeve.Approvals.{Approval, Pr, Rules, is_email_owner, names, intersect, distinct, matches_one}

pub data Line : Type 0 where
  dismissed_unpinned dismissed_commit ignored_self stale_untimed stale_old : Approval → Line
  email_owner : String → String → Line
  all_email : String → Line
  default_required public_unlisted_line : Line
  required_line : ℤ → List String → Line
  group_satisfied group_missing : String → Line
  owners_satisfied : String → Line
  owners_needed : String → List String → Line

pub data Lack : Type 0 where
  unlisted : ℤ → Lack
  more : ℕ → Lack
  more_from : ℕ → List String → Lack
  group : String → Lack
  owners : String → Lack
  re_approval : List String → ℤ → Lack

pub record Resolution : Type 0 where
  pub ref : ℕ
  pub rules : Rules
  pub satisfied : Bool
  pub total_needed : ℕ
  pub got : ℕ
  pub trace : List Line
  pub missing : List Lack

-- What the first loop does with one approval.
pub data Verdict : Type 0 where
  counts unpinned other_commit self untimed old : Verdict

abbrev later_verdict : Rules → String → ℕ → Approval → Verdict
later_verdict rules author now a =
    if str_eq a.approver author
    then self
    else (if is_positive rules.freshness
        then (if is_zero_time a.submitted_at
            then untimed
            else (if lt_int rules.freshness (sub_time now a.submitted_at) then old else counts))
        else counts)

unfoldable pub verdict : Rules → Pr → String → ℕ → Approval → Verdict
verdict rules pr author now a =
    if rules.dismiss_on_new_commit
    then (if not a.pinned
        then (if not rules.allow_unpinned_comments
            then unpinned
            else later_verdict rules author now a)
        else (if not (is_blank a.commit_sha) && not (str_eq a.commit_sha pr.head_sha)
            then other_commit
            else later_verdict rules author now a))
    else later_verdict rules author now a

abbrev pub counts_as : Verdict → Bool
counts_as counts = true
counts_as _ = false

abbrev pub is_stale : Verdict → Bool
is_stale untimed = true
is_stale old = true
is_stale _ = false

abbrev verdict_line : Approval → Verdict → List Line
verdict_line a counts = []
verdict_line a unpinned = dismissed_unpinned a ∷ []
verdict_line a other_commit = dismissed_commit a ∷ []
verdict_line a self = ignored_self a ∷ []
verdict_line a untimed = stale_untimed a ∷ []
verdict_line a old = stale_old a ∷ []

module _ (rules : Rules) (pr : Pr) (author : String) (now : ℕ) where
  unfoldable pub effective : List Approval → List Approval
  effective rest = select (λ a. counts_as (verdict rules pr author now a)) rest

  unfoldable pub stale : List Approval → List String
  unfolding names
  stale rest = names (select (λ a. is_stale (verdict rules pr author now a)) rest)

  unfoldable pub sift_trace : List Approval → List Line
  sift_trace [] = []
  sift_trace (a ∷ rest) = verdict_line a (verdict rules pr author now a) ++ sift_trace rest

-- Owners that can be matched to a login, for each path that has one.
unfoldable pub matchable : List (String × List String) → List (String × List String)
matchable [] = []
matchable ((path, os) ∷ m) =
    let kept = select (λ o. not (is_email_owner o)) os in
    if is_empty kept then matchable m else (path, kept) ∷ matchable m

email_lines : String → List String → List Line
email_lines path [] = []
email_lines path (o ∷ os) =
    if is_email_owner o then email_owner path o ∷ email_lines path os else email_lines path os

owner_trace : List (String × List String) → List Line
unfolding email_lines
owner_trace [] = []
owner_trace ((path, os) ∷ m) =
    email_lines path os
    ++ ((if is_empty (select (λ o. not (is_email_owner o)) os) then all_email path ∷ [] else [])
        ++ owner_trace m)

unfoldable pub effective_owners : Rules → List (String × List String) → List (String × List String)
unfolding matchable
effective_owners rules codeowners = if rules.codeowners then matchable codeowners else codeowners

-- No gate at all: then one approval is required.
unfoldable pub no_gate : Rules → List (String × List String) → Bool
no_gate rules eo =
    is_zero_int rules.required_approvals
    && (not rules.require_all_groups || is_empty rules.approvers)
    && (not rules.codeowners || is_empty eo)

unfoldable pub with_default : Rules → List (String × List String) → Rules
unfolding no_gate
with_default rules eo =
    if no_gate rules eo then record rules { required_approvals = pos 1 } else rules

unfoldable pub public_unlisted : Rules → Pr → Bool
public_unlisted rules pr =
    is_empty rules.approvers && not pr.repo_private && not rules.allow_unlisted_approvals_on_public

unfoldable pub hits : Rules → Pr → List String → List String
unfolding public_unlisted intersect distinct
hits rules pr approvers =
    if public_unlisted rules pr
    then []
    else (if is_empty rules.approvers
        then distinct approvers
        else intersect approvers rules.approvers rules.team_members)

-- The magnitude of a positive int.
abbrev pub to_ℕ : ℤ → ℕ
to_ℕ (pos n) = n
to_ℕ (negsuc n) = 0

abbrev pub lack_hits : Rules → ℕ → List Lack
lack_hits rules n =
    if ltb n (to_ℕ rules.required_approvals)
    then ((if is_empty rules.approvers
          then more (to_ℕ rules.required_approvals - n)
          else more_from (to_ℕ rules.required_approvals - n) rules.approvers)
        ∷ [])
    else []

-- `required_approvals`.
unfoldable pub add_required : Rules → Pr → List String → Resolution → Resolution
unfolding hits
add_required rules pr approvers res =
    let hs = hits rules pr approvers in
    if is_positive rules.required_approvals
    then record res {
      total_needed = res.total_needed + to_ℕ rules.required_approvals;
      got = res.got + length hs;
      trace =
          res.trace
          ++ ((if public_unlisted rules pr
                then public_unlisted_line
                else required_line rules.required_approvals hs)
              ∷ []);
      missing =
          res.missing
          ++ (if public_unlisted rules pr
              then unlisted rules.required_approvals ∷ []
              else lack_hits rules (length hs));
    }
    else res

-- The loop over the approver groups, and its body.
unfoldable pub add_group : Rules → List String → String → Resolution → Resolution
add_group rules approvers g res =
    if matches_one approvers g rules.team_members
    then record res { got = res.got + 1; trace = res.trace ++ (group_satisfied g ∷ []) }
    else record res {
      trace = res.trace ++ (group_missing g ∷ []);
      missing = res.missing ++ (group g ∷ []);
    }

unfoldable pub add_groups_from : Rules → List String → List String → Resolution → Resolution
unfolding add_group
add_groups_from rules approvers [] res = res
add_groups_from rules approvers (g ∷ gs) res =
    add_groups_from rules approvers gs (add_group rules approvers g res)

unfoldable pub add_groups : Rules → List String → Resolution → Resolution
unfolding add_groups_from
add_groups rules approvers res =
    let res' = add_groups_from rules approvers rules.approvers res in
    if rules.require_all_groups && not (is_empty rules.approvers)
    then record res' { total_needed = res'.total_needed + length rules.approvers }
    else res

-- The loop over the owned paths, and its body.
unfoldable pub add_owner : Rules → List String → String → List String → Resolution → Resolution
add_owner rules approvers path os res =
    if any (λ o. matches_one approvers o rules.team_members) os
    then record res {
      total_needed = res.total_needed + 1;
      got = res.got + 1;
      trace = res.trace ++ (owners_satisfied path ∷ []);
    }
    else record res {
      total_needed = res.total_needed + 1;
      trace = res.trace ++ (owners_needed path os ∷ []);
      missing = res.missing ++ (owners path ∷ []);
    }

unfoldable pub add_owners_from :
    Rules → List String → List (String × List String) → Resolution → Resolution
unfolding add_owner
add_owners_from rules approvers [] res = res
add_owners_from rules approvers ((path, os) ∷ m) res =
    add_owners_from rules approvers m (add_owner rules approvers path os res)

unfoldable pub add_owners :
    Rules → List String → List (String × List String) → Resolution → Resolution
unfolding add_owners_from
add_owners rules approvers eo res =
    if rules.codeowners && not (is_empty eo) then add_owners_from rules approvers eo res else res

-- The end of Evaluate.
abbrev pub conclude : ℤ → List String → ℕ → Resolution → Resolution
conclude freshness st number res =
    let missing =
      if not (is_empty res.missing) && not (is_empty st)
      then res.missing ++ (re_approval st freshness ∷ [])
      else res.missing in
    record res {
      missing = missing;
      satisfied = is_empty missing && ltb 0 res.total_needed;
      ref = number;
    }

-- The resolution before the first gate is counted.
unfoldable pub started :
    Rules → List Approval → Pr → List (String × List String) → String → ℕ → Resolution
unfolding sift_trace owner_trace no_gate
started rules approvals pr codeowners author now = record {
  ref = 0;
  rules = rules;
  satisfied = false;
  total_needed = 0;
  got = 0;
  trace =
      sift_trace rules pr author now approvals
      ++ ((if rules.codeowners then owner_trace codeowners else [])
          ++ (if no_gate rules (effective_owners rules codeowners)
              then default_required ∷ []
              else []));
  missing = [];
}

-- The three gates.
unfoldable pub add_gates :
    Rules → Pr → List String → List (String × List String) → Resolution → Resolution
add_gates rules pr approvers eo res =
    add_owners rules approvers eo (add_groups rules approvers (add_required rules pr approvers res))

unfoldable pub evaluate :
    Rules → List Approval → Pr → List (String × List String) → String → ℕ → Resolution
evaluate rules approvals pr codeowners author now =
    let eo = effective_owners rules codeowners in
    conclude rules.freshness (stale rules pr author now approvals) pr.number (
      add_gates (with_default rules eo) pr (names (effective rules pr author now approvals)) eo
        (started rules approvals pr codeowners author now))
