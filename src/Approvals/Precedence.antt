-- ===== src/Approvals/Precedence.antt =====
-- Which stack rule wins in Resolve of internal/core/approvals/rules.go.
use mathlib.Core.Bool.{false≢true}
use mathlib.Core.List.{Memᴰ, reverse, reverse-cons}
use reeve.Prelude.{
  ◌≡◌, refl, sym, subst, ◌∙◌, Bool, true, false, ◌⊎◌, inl, inr, List, [], ◌∷◌, ◌++◌, Option, none,
  some, String, ℤ, lt_int, le_int, pos, negsuc, if◌then◌else◌, arith, Bool-cases,
}
use reeve.Approvals.{Rules, StackRule, Config}
use reeve.Approvals.Resolve.{
  specificity, insert_back, sort_from, sort_by_specificity, apply_rule, apply_rules, matching,
  resolve,
}

abbrev spec : StackRule → ℤ
spec r = specificity r.pattern

abbrev pub All : (StackRule → Type 0) → List StackRule → Type 0
All P [] = Unit {0}
All P (r ∷ rs) = P r × All P rs

-- Falling specificity, as the sorted front is kept.
abbrev pub Falling : List StackRule → Type 0
Falling [] = Unit {0}
Falling (r ∷ rs) = All (λ q. le_int (spec q) (spec r) ≡ true) rs × Falling rs

le_int_trans : (a b c : ℤ) → le_int a b ≡ true → le_int b c ≡ true → le_int a c ≡ true
le_int_trans a b c p q = ground arith

le_int_refl : (a : ℤ) → le_int a a ≡ true
le_int_refl (pos n) = ground arith
le_int_refl (negsuc n) = ground arith

le_of_lt : (a b : ℤ) → lt_int a b ≡ true → le_int a b ≡ true
le_of_lt a b p = ground arith

All-insert_back :
    (P : StackRule → Type 0) (r : StackRule) (rs : List StackRule)
    → P r
    → All P rs
    → All P (insert_back r rs)
unfolding insert_back
All-insert_back P r [] p a = (p, tt)
All-insert_back P r (x ∷ rs) p (q, a) = elim (Bool-cases (lt_int (spec r) (spec x))) [
  | inl e ↦ rw e (q, All-insert_back P r rs p a)
  | inr e ↦ rw e (p, (q, a))
]

All-mono :
    (P Q : StackRule → Type 0)
    → ((r : StackRule) → P r → Q r)
    → (rs : List StackRule) → All P rs
    → All Q rs
All-mono P Q f [] a = tt
All-mono P Q f (r ∷ rs) (p, a) = (f r p, All-mono P Q f rs a)

insert_back-Falling :
    (r : StackRule) (rs : List StackRule) → Falling rs → Falling (insert_back r rs)
unfolding insert_back
insert_back-Falling r [] f = (tt, tt)
insert_back-Falling r (x ∷ rs) (a, f) = elim (Bool-cases (lt_int (spec r) (spec x))) [
  | inl e ↦
      rw e (All-insert_back _ r rs (le_of_lt (spec r) (spec x) e) a, insert_back-Falling r rs f)
  | inr e ↦ rw e (
    (ge e, All-mono _ _ (λ q le. le_int_trans (spec q) (spec x) (spec r) le (ge e)) rs a),
    (a, f),
  )
]
  where
    ge : lt_int (spec r) (spec x) ≡ false → le_int (spec x) (spec r) ≡ true
    ge e = ground arith

sort_from-Falling : (front rs : List StackRule) → Falling front → Falling (sort_from front rs)
unfolding sort_from
sort_from-Falling front [] f = f
sort_from-Falling front (r ∷ rs) f =
    sort_from-Falling (insert_back r front) rs (insert_back-Falling r front f)

-- What holds of the rules given holds of those sorted, and the other way round.
All-sort_from :
    (P : StackRule → Type 0) (front rs : List StackRule)
    → All P front
    → All P rs
    → All P (sort_from front rs)
unfolding sort_from
All-sort_from P front [] a b = a
All-sort_from P front (r ∷ rs) a (p, b) =
    All-sort_from P (insert_back r front) rs (All-insert_back P r front p a) b

All-insert_back_inv :
    (P : StackRule → Type 0) (r : StackRule) (rs : List StackRule)
    → All P (insert_back r rs)
    → P r × All P rs
unfolding insert_back
All-insert_back_inv P r [] (p, a) = (p, tt)
All-insert_back_inv P r (x ∷ rs) a = elim (Bool-cases (lt_int (spec r) (spec x))) [
  | inl e ↦
      let (q, later) = subst (λ b. All P (if b then x ∷ insert_back r rs else r ∷ x ∷ rs)) e a in
      let (p, b) = All-insert_back_inv P r rs later in (p, (q, b))
  | inr e ↦ subst (λ b. All P (if b then x ∷ insert_back r rs else r ∷ x ∷ rs)) e a
]

All-sort_from_inv :
    (P : StackRule → Type 0) (front rs : List StackRule)
    → All P (sort_from front rs)
    → All P front × All P rs
unfolding sort_from
All-sort_from_inv P front [] a = (a, tt)
All-sort_from_inv P front (r ∷ rs) a =
    let (b, c) = All-sort_from_inv P (insert_back r front) rs a in
    let (p, d) = All-insert_back_inv P r front b in (d, (p, c))

All-Memᴰ : (rs : List StackRule) → All (λ q. Memᴰ q rs) rs
All-Memᴰ [] = tt
All-Memᴰ (r ∷ rs) = (
  Memᴰ.head refl,
  All-mono (λ q. Memᴰ q rs) (λ q. Memᴰ q (r ∷ rs)) (λ q m. Memᴰ.tail m) rs (All-Memᴰ rs),
)

-- The first rule of the list that has the key.
abbrev first_present : String → List StackRule → Option StackRule
first_present key [] = none
first_present key (r ∷ rs) = if r.present key then some r else first_present key rs

apply_rules-append :
    (out : Rules) (rs : List StackRule) (r : StackRule)
    → apply_rules out (rs ++ (r ∷ [])) ≡ apply_rule (apply_rules out rs) r
unfolding apply_rules
apply_rules-append out [] r = refl
apply_rules-append out (x ∷ rs) r = apply_rules-append (apply_rule out x) rs r

abbrev required_of : Rules → Option StackRule → ℤ
required_of out none = out.required_approvals
required_of out (some r) = r.rules.required_approvals

apply_rules-reverse :
    (out : Rules) (rs : List StackRule)
    → (apply_rules out (reverse rs)).required_approvals
      ≡ required_of out (first_present "required_approvals" rs)
unfolding apply_rules apply_rule
apply_rules-reverse out [] = refl
apply_rules-reverse out (r ∷ rs) =
    rw (reverse-cons r rs, apply_rules-append out (reverse rs) r)
      (ground (arith, apply_rules-reverse out rs))

-- The first rule with the key is among them, and the most specific of those with the key.
first_present-greatest :
    (key : String) (P : StackRule → Type 0) (rs : List StackRule)
    → Falling rs
    → All P rs
    → ((first_present key rs ≡ none) × All (λ q. q.present key ≡ false) rs)
      ⊎ ((r : StackRule) × (first_present key rs ≡ some r)
          × P r
          × (r.present key ≡ true)
          × All (λ q. q.present key ≡ true → le_int (spec q) (spec r) ≡ true) rs)
first_present-greatest key P [] f a = inl (refl, tt)
first_present-greatest key P (r ∷ rs) (f, fs) (p, a) = elim (Bool-cases (r.present key)) [
  | inl e ↦ inr (r, rw e, p, e, ((λ _. le_int_refl (spec r)), All-mono _ _ (λ q le _. le) rs f))
  | inr e ↦ elim (first_present-greatest key P rs fs a) [
    | inl (n, b) ↦ inl (rw e n, (e, b))
    | inr (w, s, pw, k, b) ↦ inr (w, rw e s, pw, k, ((λ t. absurd (false≢true (sym e ∙ t))), b))
  ]
]

-- Of the stack rules whose pattern matches the stack and that set required_approvals, the most
-- specific decides the number: the result is that of a matching rule which sets it and whose pattern is at
-- least as specific as that of every other such rule. Without one the default rule's number stays.
pub resolve-required_approvals :
    (glob : String → String → Bool) (cfg : Config) (ref : String)
    → let rs = matching glob ref cfg.stacks in
      (((resolve glob cfg ref).required_approvals ≡ cfg.default.required_approvals)
        × All (λ q. q.present "required_approvals" ≡ false) rs)
      ⊎ ((r : StackRule) × Memᴰ r rs
          × (r.present "required_approvals" ≡ true)
          × ((resolve glob cfg ref).required_approvals ≡ r.rules.required_approvals)
          × All
              (λ q.
                q.present "required_approvals" ≡ true
                → le_int (specificity q.pattern) (specificity r.pattern) ≡ true)
              rs)
unfolding resolve sort_by_specificity
resolve-required_approvals glob cfg ref =
    let rs = matching glob ref cfg.stacks in
    let done = sort_from [] rs in
    let value = apply_rules-reverse cfg.default done in
    elim (first_present-greatest "required_approvals" (λ q. Memᴰ q rs) done
      (sort_from-Falling [] rs tt) (All-sort_from (λ q. Memᴰ q rs) [] rs tt (All-Memᴰ rs))) [
        | inl (n, a) ↦ inl (value ∙ rw n, (All-sort_from_inv _ [] rs a).1)
        | inr (r, s, m, k, a) ↦ inr (r, m, k, value ∙ rw s, (All-sort_from_inv _ [] rs a).1)
      ]
