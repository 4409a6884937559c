-- ===== src/Approvals/Order.antt =====
-- Who is counted by intersect and distinct of internal/core/approvals/rules.go: people, each once.
use reeve.Prelude.{
  ℕ, ◌≤◌, ◌≡◌, refl, subst, Bool, true, false, ◌⊎◌, List, [], ◌∷◌, map, String, pos, ℤ, is_positive,
  length, arith, str_eq_iff, member, trim_at, is_empty, is_zero_int, ◌<◌, negsuc,
}
use reeve.Approvals.{Approval, Pr, Rules, intersect, distinct, distinct_from, eligible}
use reeve.Approvals.Evaluate.{hits, effective_owners, with_default, evaluate}
use reeve.Approvals.Decision.{counted, numeric_met, satisfied-numeric}

-- No text twice.
abbrev pub Unique : List String → Type 0
Unique [] = Unit {0}
Unique (x ∷ xs) = (member x xs ≡ false) × Unique xs

positive-nonzero : (z : ℤ) → is_positive z ≡ true → is_zero_int z ≡ false
positive-nonzero (pos n) h = ground arith
positive-nonzero (negsuc n) h = refl

module _ (p : String → Bool) where
  distinct_from-seen :
      (s : String) (seen rest : List String)
      → member s seen ≡ true
      → member s (distinct_from p seen rest) ≡ false
  unfolding distinct_from
  distinct_from-seen s seen [] h = refl
  distinct_from-seen s seen (a ∷ rest) h = ground (
    arith,
    str_eq_iff s (trim_at a),
    distinct_from-seen s seen rest h,
    distinct_from-seen s (trim_at a ∷ seen) rest,
  )

  distinct_from-Unique : (seen rest : List String) → Unique (distinct_from p seen rest)
  unfolding distinct_from
  distinct_from-Unique seen [] = tt
  distinct_from-Unique seen (a ∷ rest) = ground (
    arith,
    str_eq_iff (trim_at a) (trim_at a),
    distinct_from-Unique seen rest,
    distinct_from-Unique (trim_at a ∷ seen) rest,
    distinct_from-seen (trim_at a) (trim_at a ∷ seen) rest,
  )

  -- Each is a trimmed login of the list that passes the test.
  distinct_from_sound :
      (s : String) (seen rest : List String)
      → member s (distinct_from p seen rest) ≡ true
      → (p s ≡ true) × (member s (map trim_at rest) ≡ true)
  unfolding distinct_from
  distinct_from_sound s seen [] h = cc
  distinct_from_sound s seen (a ∷ rest) h = ground (
    arith,
    str_eq_iff s (trim_at a),
    distinct_from_sound s seen rest,
    distinct_from_sound s (trim_at a ∷ seen) rest,
  )

hits-Unique : (rules : Rules) (pr : Pr) (who : List String) → Unique (hits rules pr who)
unfolding hits intersect distinct
hits-Unique rules pr who = ground (
  arith,
  distinct_from-Unique (λ a. true) [] who,
  distinct_from-Unique (λ a. member a (eligible rules.approvers rules.team_members)) [] who,
)

hits_sound :
    (rules : Rules) (pr : Pr) (who : List String) (s : String)
    → member s (hits rules pr who) ≡ true
    → (member s (map trim_at who) ≡ true)
      × ((is_empty rules.approvers ≡ true)
          ⊎ (member s (eligible rules.approvers rules.team_members) ≡ true))
unfolding hits intersect distinct
hits_sound rules pr who s h = ground (
  arith,
  distinct_from_sound (λ a. true) s [] who,
  distinct_from_sound (λ a. member a (eligible rules.approvers rules.team_members)) s [] who,
)

with_default_gated :
    (rules : Rules) (eo : List (String × List String))
    → is_positive rules.required_approvals ≡ true
    → with_default rules eo ≡ rules
unfolding with_default
with_default_gated rules eo h = ground (arith, positive-nonzero rules.required_approvals)

numeric_met-le :
    (rules : Rules) (pr : Pr) (who : List String) (n : ℕ)
    → rules.required_approvals ≡ pos n
    → 0 < n
    → numeric_met rules pr who ≡ true
    → n ≤ length (hits rules pr who)
numeric_met-le rules pr who n e lt h = ground arith

enough :
    (rules : Rules) (approvals : List Approval) (pr : Pr) (codeowners : List (String × List String))
    (author : String) (now n : ℕ)
    → rules.required_approvals ≡ pos n
    → 0 < n
    → (evaluate rules approvals pr codeowners author now).satisfied ≡ true
    → n ≤ length (hits rules pr (counted rules approvals pr author now))
enough rules approvals pr codeowners author now n e lt ok =
    let gated =
      with_default_gated rules (effective_owners rules codeowners) (rw e (ground arith)) in
    numeric_met-le rules pr (counted rules approvals pr author now) n e lt (
      subst (λ r. numeric_met r pr (counted rules approvals pr author now) ≡ true) gated
        (satisfied-numeric rules approvals pr codeowners author now ok))

-- Rules that require n approvals, satisfied, name at least n different people. Each is a login whose
-- approval counts and, where the rules list approvers, one that is listed or a member of a listed
-- team.
pub satisfied-people :
    (rules : Rules) (approvals : List Approval) (pr : Pr) (codeowners : List (String × List String))
    (author : String) (now n : ℕ)
    → rules.required_approvals ≡ pos n
    → 0 < n
    → (evaluate rules approvals pr codeowners author now).satisfied ≡ true
    → let who = counted rules approvals pr author now in
      (people : List String) × Unique people
      × (n ≤ length people)
      × ((s : String)
          → member s people ≡ true
          → (member s (map trim_at who) ≡ true)
            × ((is_empty rules.approvers ≡ true)
                ⊎ (member s (eligible rules.approvers rules.team_members) ≡ true)))
satisfied-people rules approvals pr codeowners author now n e lt ok =
    let who = counted rules approvals pr author now in
    (
      hits rules pr who,
      hits-Unique rules pr who,
      enough rules approvals pr codeowners author now n e lt ok,
      hits_sound rules pr who,
    )
