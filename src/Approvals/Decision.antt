-- ===== src/Approvals/Decision.antt =====
-- When Evaluate of internal/core/approvals/rules.go is satisfied.
use reeve.Prelude.{
  ℕ, ◌+◌, ◌≡◌, refl, sym, ◌∙◌, Bool, true, not, ◌&&◌, ◌||◌, List, [], ◌∷◌, String, ℤ, pos, negsuc,
  if◌then◌else◌, is_positive, any, all, is_empty, is_empty-append, length, leb, ltb, arith,
}
use reeve.Approvals.{Approval, Pr, Rules, names, matches_one}
use reeve.Approvals.Evaluate.{
  unlisted, group, owners, re_approval, lack_hits, Resolution, effective, stale, effective_owners,
  with_default, public_unlisted, hits, to_ℕ, add_required, add_group, add_groups_from, add_groups,
  add_owner, add_owners_from, add_owners, add_gates, started, conclude, evaluate,
}

-- Enough approvals are counted, on a repository where unlisted ones may count.
abbrev pub numeric_met : Rules → Pr → List String → Bool
numeric_met rules pr approvers =
    not (is_positive rules.required_approvals)
    || (not (public_unlisted rules pr)
        && leb (to_ℕ rules.required_approvals) (length (hits rules pr approvers)))

-- Every group has an approver.
abbrev pub groups_met : Rules → List String → Bool
groups_met rules approvers =
    not (rules.require_all_groups && not (is_empty rules.approvers))
    || all (λ g. matches_one approvers g rules.team_members) rules.approvers

-- One of that path's owners is among the approvers.
abbrev pub owned_by : Rules → List String → String × List String → Bool
owned_by rules approvers entry = any (λ o. matches_one approvers o rules.team_members) entry.1

-- Every owned path has an owner among the approvers.
abbrev pub owners_met : Rules → List String → List (String × List String) → Bool
owners_met rules approvers eo = not rules.codeowners || all (owned_by rules approvers) eo

-- The rules ask for something.
abbrev pub has_gate : Rules → List (String × List String) → Bool
has_gate rules eo =
    is_positive rules.required_approvals
    || (rules.require_all_groups && not (is_empty rules.approvers))
    || (rules.codeowners && not (is_empty eo))

add_required-missing :
    (rules : Rules) (pr : Pr) (approvers : List String) (res : Resolution)
    → is_empty (add_required rules pr approvers res).missing
      ≡ (is_empty res.missing && numeric_met rules pr approvers)
unfolding add_required
add_required-missing rules pr approvers res =
    let n = length (hits rules pr approvers) in
    ground (
      arith,
      is_empty-append res.missing (unlisted rules.required_approvals ∷ []),
      is_empty-append res.missing (lack_hits rules n),
    )

add_group-missing :
    (rules : Rules) (approvers : List String) (g : String) (res : Resolution)
    → is_empty (add_group rules approvers g res).missing
      ≡ (is_empty res.missing && matches_one approvers g rules.team_members)
unfolding add_group
add_group-missing rules approvers g res = ground (arith, is_empty-append res.missing (group g ∷ []))

add_groups_from-missing :
    (rules : Rules) (approvers gs : List String) (res : Resolution)
    → is_empty (add_groups_from rules approvers gs res).missing
      ≡ (is_empty res.missing && all (λ g. matches_one approvers g rules.team_members) gs)
unfolding add_groups_from
add_groups_from-missing rules approvers [] res = ground arith
add_groups_from-missing rules approvers (g ∷ gs) res =
    add_groups_from-missing rules approvers gs (add_group rules approvers g res)
    ∙ ground (arith, add_group-missing rules approvers g res)

add_groups-missing :
    (rules : Rules) (approvers : List String) (res : Resolution)
    → is_empty (add_groups rules approvers res).missing
      ≡ (is_empty res.missing && groups_met rules approvers)
unfolding add_groups
add_groups-missing rules approvers res =
    ground (arith, add_groups_from-missing rules approvers rules.approvers res)

add_owner-missing :
    (rules : Rules) (approvers : List String) (path : String) (os : List String) (res : Resolution)
    → is_empty (add_owner rules approvers path os res).missing
      ≡ (is_empty res.missing && any (λ o. matches_one approvers o rules.team_members) os)
unfolding add_owner
add_owner-missing rules approvers path os res =
    ground (arith, is_empty-append res.missing (owners path ∷ []))

add_owners_from-missing :
    (rules : Rules) (approvers : List String) (eo : List (String × List String)) (res : Resolution)
    → is_empty (add_owners_from rules approvers eo res).missing
      ≡ (is_empty res.missing && all (owned_by rules approvers) eo)
unfolding add_owners_from
add_owners_from-missing rules approvers [] res = ground arith
add_owners_from-missing rules approvers ((path, os) ∷ eo) res =
    add_owners_from-missing rules approvers eo (add_owner rules approvers path os res)
    ∙ ground (arith, add_owner-missing rules approvers path os res)

add_owners-missing :
    (rules : Rules) (approvers : List String) (eo : List (String × List String)) (res : Resolution)
    → is_empty (add_owners rules approvers eo res).missing
      ≡ (is_empty res.missing && owners_met rules approvers eo)
unfolding add_owners
add_owners-missing rules approvers eo res =
    ground (arith, add_owners_from-missing rules approvers eo res)

-- How many gates are counted.
add_groups_from-needed :
    (rules : Rules) (approvers gs : List String) (res : Resolution)
    → (add_groups_from rules approvers gs res).total_needed ≡ res.total_needed
unfolding add_groups_from add_group
add_groups_from-needed rules approvers [] res = refl
add_groups_from-needed rules approvers (g ∷ gs) res =
    add_groups_from-needed rules approvers gs (add_group rules approvers g res) ∙ ground arith

add_owners_from-needed :
    (rules : Rules) (approvers : List String) (eo : List (String × List String)) (res : Resolution)
    → (add_owners_from rules approvers eo res).total_needed ≡ res.total_needed + length eo
unfolding add_owners_from add_owner
add_owners_from-needed rules approvers [] res = omega arith
add_owners_from-needed rules approvers ((path, os) ∷ eo) res =
    add_owners_from-needed rules approvers eo (add_owner rules approvers path os res) ∙ ground arith

add_required-needed :
    (rules : Rules) (pr : Pr) (approvers : List String) (res : Resolution)
    → (add_required rules pr approvers res).total_needed
      ≡ res.total_needed
        + (if is_positive rules.required_approvals then to_ℕ rules.required_approvals else 0)
unfolding add_required
add_required-needed rules pr approvers res = ground arith

add_groups-needed :
    (rules : Rules) (approvers : List String) (res : Resolution)
    → (add_groups rules approvers res).total_needed
      ≡ res.total_needed
        + (if rules.require_all_groups && not (is_empty rules.approvers)
            then length rules.approvers
            else 0)
unfolding add_groups
add_groups-needed rules approvers res =
    ground (arith, add_groups_from-needed rules approvers rules.approvers res)

add_owners-needed :
    (rules : Rules) (approvers : List String) (eo : List (String × List String)) (res : Resolution)
    → (add_owners rules approvers eo res).total_needed
      ≡ res.total_needed + (if rules.codeowners && not (is_empty eo) then length eo else 0)
unfolding add_owners
add_owners-needed rules approvers eo res =
    ground (arith, add_owners_from-needed rules approvers eo res)

is_empty-length {ℓ} : {A : Type ℓ} (xs : List A) → ltb 0 (length xs) ≡ not (is_empty xs)
is_empty-length [] = refl
is_empty-length (x ∷ xs) = ground arith

is_positive-to_ℕ : (z : ℤ) → is_positive z ≡ ltb 0 (to_ℕ z)
is_positive-to_ℕ (pos n) = refl
is_positive-to_ℕ (negsuc n) = refl

module _ (rules : Rules) (pr : Pr) (approvers : List String)
    (eo : List (String × List String)) where
  gates-missing :
      (res : Resolution)
      → is_empty (add_gates rules pr approvers eo res).missing ≡ (
          is_empty res.missing
          && numeric_met rules pr approvers
          && groups_met rules approvers
          && owners_met rules approvers eo)
  unfolding add_gates
  gates-missing res =
      add_owners-missing rules approvers eo _
      ∙ ground (
        arith,
        add_groups-missing rules approvers (add_required rules pr approvers res),
        add_required-missing rules pr approvers res,
      )

  gates-needed :
      (res : Resolution)
      → res.total_needed ≡ 0
      → ltb 0 (add_gates rules pr approvers eo res).total_needed ≡ has_gate rules eo
  unfolding add_gates
  gates-needed res e = ground (
    arith,
    add_owners-needed rules approvers eo
        (add_groups rules approvers (add_required rules pr approvers res)),
    add_groups-needed rules approvers (add_required rules pr approvers res),
    add_required-needed rules pr approvers res,
    is_empty-length rules.approvers,
    is_empty-length eo,
    is_positive-to_ℕ rules.required_approvals,
  )

conclude-satisfied :
    (freshness : ℤ) (st : List String) (n : ℕ) (res : Resolution)
    → (conclude freshness st n res).satisfied ≡ (is_empty res.missing && ltb 0 res.total_needed)
conclude-satisfied freshness st n res =
    ground (arith, is_empty-append res.missing (re_approval st freshness ∷ []))

and_join :
    (x t e m g o h : Bool)
    → x ≡ (e && m && g && o)
    → t ≡ h
    → e ≡ true
    → (x && t) ≡ (m && g && o && h)
and_join x t e m g o h p q r = ground arith

-- The logins whose approvals count: not the author's, and bound to the head commit and fresh where
-- the rules ask for that.
abbrev pub counted : Rules → List Approval → Pr → String → ℕ → List String
counted rules approvals pr author now = names (effective rules pr author now approvals)

started_fresh :
    (rules : Rules) (approvals : List Approval) (pr : Pr) (codeowners : List (String × List String))
    (author : String) (now : ℕ)
    → let res = started rules approvals pr codeowners author now in
      (res.total_needed ≡ 0) × (is_empty res.missing ≡ true)
unfolding started
started_fresh rules approvals pr codeowners author now = (refl, refl)

-- Evaluate is satisfied exactly when the rules, completed by the default of one approval, ask for
-- something, enough counted logins approve, every group has one of them where groups are asked for,
-- and every path with a login or team for an owner has one where owners are asked for.
pub evaluate-satisfied :
    (rules : Rules) (approvals : List Approval) (pr : Pr) (codeowners : List (String × List String))
    (author : String) (now : ℕ)
    → let eo = effective_owners rules codeowners in
      let rules' = with_default rules eo in
      let who = counted rules approvals pr author now in
      (evaluate rules approvals pr codeowners author now).satisfied ≡ (
        numeric_met rules' pr who
        && groups_met rules' who
        && owners_met rules' who eo
        && has_gate rules' eo)
unfolding evaluate
evaluate-satisfied rules approvals pr codeowners author now =
    let eo = effective_owners rules codeowners in
    let rules' = with_default rules eo in
    let who = counted rules approvals pr author now in
    let res = started rules approvals pr codeowners author now in
    let (zeroed, emptied) = started_fresh rules approvals pr codeowners author now in
    conclude-satisfied rules.freshness (stale rules pr author now approvals) pr.number
      (add_gates rules' pr who eo res)
    ∙ and_join _ _ _ _ _ _ _ (gates-missing rules' pr who eo res)
        (gates-needed rules' pr who eo res zeroed) emptied

and_first : (a b c d : Bool) → (a && b && c && d) ≡ true → a ≡ true
and_first a b c d h = ground arith

pub satisfied-numeric :
    (rules : Rules) (approvals : List Approval) (pr : Pr) (codeowners : List (String × List String))
    (author : String) (now : ℕ)
    → (evaluate rules approvals pr codeowners author now).satisfied ≡ true
    → numeric_met
        (with_default rules (effective_owners rules codeowners))
        pr
        (counted rules approvals pr author now)
      ≡ true
satisfied-numeric rules approvals pr codeowners author now ok =
    let eo = effective_owners rules codeowners in
    let rules' = with_default rules eo in
    let who = counted rules approvals pr author now in
    and_first (numeric_met rules' pr who) (groups_met rules' who) (owners_met rules' who eo)
      (has_gate rules' eo) (sym (evaluate-satisfied rules approvals pr codeowners author now) ∙ ok)
