-- ===== src/Approvals/Counting.antt =====
-- Who is behind a satisfied Evaluate of internal/core/approvals/rules.go.
use mathlib.Core.Bool.{false≢true}
use mathlib.Core.List.{Memᴰ}
use reeve.Prelude.{
  ℕ, ◌≡◌, ◌≢◌, refl, sym, ◌∙◌, Bool, true, false, ◌&&◌, ◌⊎◌, inl, inr, List, [], ◌∷◌, String,
  is_positive, any, all, select, is_empty, arith, Bool-cases, str_eq_iff, member, trim_at, lt_int,
  sub_time, is_zero_time,
}
use reeve.Approvals.{Approval, Pr, Rules, names, matches_one, intersect, distinct, members_of}
use reeve.Approvals.Evaluate.{
  counts_as, verdict, effective, effective_owners, with_default, public_unlisted, hits, evaluate,
  no_gate,
}
use reeve.Approvals.Decision.{
  numeric_met, groups_met, owners_met, owned_by, has_gate, counted, evaluate-satisfied,
}

any-eq-false {ℓ} :
    {A : Type ℓ} (p : A → Bool) → ((a : A) → p a ≡ false) → (xs : List A) → any p xs ≡ false
any-eq-false p h [] = refl
any-eq-false p h (x ∷ xs) = rw (h x) (any-eq-false p h xs)

all-eq-false {ℓ} :
    {A : Type ℓ} (p : A → Bool)
    → ((a : A) → p a ≡ false)
    → (xs : List A) → is_empty xs ≡ false
    → all p xs ≡ false
all-eq-false p h [] e = cc
all-eq-false p h (x ∷ xs) e = rw (h x)

matches_one-nil :
    (g : String) (teams : List (String × List String)) → matches_one [] g teams ≡ false
unfolding matches_one
matches_one-nil g teams =
    ground
      (arith, any-eq-false (λ m. member (trim_at m) []) (λ m. refl) (members_of teams (trim_at g)))

hits-nil : (rules : Rules) (pr : Pr) → hits rules pr [] ≡ []
unfolding hits intersect distinct
hits-nil rules pr = ground arith

owned_by-nil : (rules : Rules) (entry : String × List String) → owned_by rules [] entry ≡ false
owned_by-nil rules entry =
    any-eq-false (λ o. matches_one [] o rules.team_members)
      (λ o. matches_one-nil o rules.team_members) entry.1

-- With nobody counted no gate is met.
nobody :
    (rules : Rules) (pr : Pr) (eo : List (String × List String))
    → (numeric_met rules pr []
        && groups_met rules []
        && owners_met rules [] eo
        && has_gate rules eo)
      ≡ false
nobody rules pr eo = ground (
  arith,
  hits-nil rules pr,
  all-eq-false (λ g. matches_one [] g rules.team_members)
      (λ g. matches_one-nil g rules.team_members) rules.approvers,
  all-eq-false (owned_by rules []) (owned_by-nil rules) eo,
)

select-Memᴰ {ℓ} :
    {A : Type ℓ} (p : A → Bool) (xs : List A)
    → (select p xs ≡ []) ⊎ ((a : A) × Memᴰ a xs × (p a ≡ true))
select-Memᴰ p [] = inl refl
select-Memᴰ p (x ∷ xs) = elim (Bool-cases (p x)) [
  | inl e ↦ inr (x, Memᴰ.head refl, e)
  | inr e ↦ elim (select-Memᴰ p xs) [
    | inl n ↦ inl (rw e n)
    | inr (a, m, h) ↦ inr (a, Memᴰ.tail m, h)
  ]
]

-- What an approval that counts has shown.
pub record Eligible (rules : Rules) (pr : Pr) (author : String) (now : ℕ) (a : Approval)
    : Type 0 where
  pub not_author : a.approver ≢ author
  pub bound :
      rules.dismiss_on_new_commit ≡ true
      → ((a.pinned ≡ true) × ((a.commit_sha ≡ "") ⊎ (a.commit_sha ≡ pr.head_sha)))
        ⊎ ((a.pinned ≡ false) × (rules.allow_unpinned_comments ≡ true))
  pub fresh :
      is_positive rules.freshness ≡ true
      → (is_zero_time a.submitted_at ≡ false)
        × (lt_int rules.freshness (sub_time now a.submitted_at) ≡ false)

verdict-Eligible :
    (rules : Rules) (pr : Pr) (author : String) (now : ℕ) (a : Approval)
    → counts_as (verdict rules pr author now a) ≡ true
    → Eligible rules pr author now a
unfolding verdict
verdict-Eligible rules pr author now a h = record {
  not_author = λ e. ground (arith, str_eq_iff a.approver author);
  bound = λ d. ground (arith, str_eq_iff a.commit_sha "", str_eq_iff a.commit_sha pr.head_sha);
  fresh = λ f. ground arith;
}

nobody-blocks :
    (rules : Rules) (approvals : List Approval) (pr : Pr) (codeowners : List (String × List String))
    (author : String) (now : ℕ)
    → counted rules approvals pr author now ≡ []
    → (evaluate rules approvals pr codeowners author now).satisfied ≡ false
nobody-blocks rules approvals pr codeowners author now e =
    let eo = effective_owners rules codeowners in
    evaluate-satisfied rules approvals pr codeowners author now
    ∙ rw e (nobody (with_default rules eo) pr eo)

effective-nil :
    (rules : Rules) (approvals : List Approval) (pr : Pr) (author : String) (now : ℕ)
    → select (λ a. counts_as (verdict rules pr author now a)) approvals ≡ []
    → counted rules approvals pr author now ≡ []
unfolding effective names
effective-nil rules approvals pr author now e = rw e

-- No stack is applied on nobody's word: whatever the rules, the pull request and the code owners,
-- even with no rules at all, a satisfied Evaluate rests on an approval among those given that is not
-- the author's, is bound to the head commit where new commits dismiss approvals (unless unpinned
-- comments are allowed, or the approval names no commit), and is inside the freshness window where
-- there is one.
pub satisfied-Eligible :
    (rules : Rules) (approvals : List Approval) (pr : Pr) (codeowners : List (String × List String))
    (author : String) (now : ℕ)
    → (evaluate rules approvals pr codeowners author now).satisfied ≡ true
    → (a : Approval) × Memᴰ a approvals × Eligible rules pr author now a
satisfied-Eligible rules approvals pr codeowners author now s =
    elim (select-Memᴰ (λ a. counts_as (verdict rules pr author now a)) approvals) [
      | inl none_counts ↦ absurd (
          false≢true (
            sym (
              nobody-blocks rules approvals pr codeowners author now
                (effective-nil rules approvals pr author now none_counts))
            ∙ s))
      | inr (a, m, h) ↦ (a, m, verdict-Eligible rules pr author now a h)
    ]

-- On a public repository that has not opted in to unlisted approvals, rules that require approvals,
-- or ask for nothing, without an approvers list are never satisfied, whoever approves.
pub public_unlisted-blocks :
    (rules : Rules) (approvals : List Approval) (pr : Pr) (codeowners : List (String × List String))
    (author : String) (now : ℕ)
    → pr.repo_private ≡ false
    → rules.allow_unlisted_approvals_on_public ≡ false
    → rules.approvers ≡ []
    → (is_positive rules.required_approvals ≡ true)
      ⊎ (no_gate rules (effective_owners rules codeowners) ≡ true)
    → (evaluate rules approvals pr codeowners author now).satisfied ≡ false
unfolding with_default public_unlisted
public_unlisted-blocks rules approvals pr codeowners author now p o l n =
    evaluate-satisfied rules approvals pr codeowners author now ∙ ground arith
