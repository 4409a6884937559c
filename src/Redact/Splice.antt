-- ===== src/Redact/Splice.antt =====
-- internal/core/redact/redact.go: a replacement with a marked text brings no secret into a text.
use reeve.Prelude.{
  ℕ, zero, suc, ◌+◌, ◌≡◌, refl, ap, ◌⊎◌, inl, inr, Bool, true, false, ◌||◌, subst, List, [], ◌∷◌,
  ◌++◌, ◌==◌, length, any, Bytes, arith,
}
use reeve.Redact.{
  starts, contains, matched, take, drop, replace_from, replace_matches, redact_secrets,
  redact_rules, Rule,
}

abbrev pub has_byte : ℕ → Bytes → Bool
has_byte b = any (λ x. x == b)

-- A replacement between two bytes, as "[redacted]" is.
abbrev pub marked : ℕ → Bytes → ℕ → Bytes
marked first middle last = first ∷ (middle ++ (last ∷ []))

module _ (first : ℕ) (middle : Bytes) (last : ℕ) (secret : Bytes) where
  -- A secret that has neither of the outer bytes of the replacement, and is no part of it.
  pub record IsGuarded : Type 0 where
    pub no_first : has_byte first secret ≡ false
    pub no_last : has_byte last secret ≡ false
    pub no_part : contains secret (marked first middle last) ≡ false

-- A text without the last byte of another does not reach behind it.
starts_before :
    (p u o : Bytes) (last : ℕ)
    → has_byte last p ≡ false
    → starts p ((u ++ (last ∷ [])) ++ o) ≡ true
    → starts p (u ++ (last ∷ [])) ≡ true
starts_before [] u o last h e = refl
starts_before (c ∷ p) [] o last h e = ground (arith, h, e)
starts_before (c ∷ p) (x ∷ u) o last h e = ground (arith, h, e, starts_before p u o last)

contains_before :
    (p u o : Bytes) (last : ℕ)
    → has_byte last p ≡ false
    → contains p ((u ++ (last ∷ [])) ++ o) ≡ true
    → (contains p (u ++ (last ∷ [])) || contains p o) ≡ true
contains_before p [] o last h e = ground (arith, e, starts_before p [] o last h)
contains_before p (x ∷ u) o last h e =
    ground (arith, e, contains_before p u o last h, starts_before p (x ∷ u) o last h)

-- Nor does one without the first byte of what follows reach into it.
starts_apart :
    (p u o : Bytes) (first : ℕ)
    → has_byte first p ≡ false
    → starts p (u ++ (first ∷ o)) ≡ true
    → starts p u ≡ true
starts_apart [] u o first h e = refl
starts_apart (c ∷ p) [] o first h e = ground (arith, h, e)
starts_apart (c ∷ p) (x ∷ u) o first h e = ground (arith, h, e, starts_apart p u o first)

contains_apart :
    (p u o : Bytes) (first : ℕ)
    → has_byte first p ≡ false
    → contains p (u ++ (first ∷ o)) ≡ true
    → (contains p u || contains p (first ∷ o)) ≡ true
contains_apart p [] o first h e = ground (arith, e)
contains_apart p (x ∷ u) o first h e =
    ground (arith, e, contains_apart p u o first h, starts_apart p (x ∷ u) o first h)

starts-take : (p s : Bytes) (n : ℕ) → starts p (take n s) ≡ true → starts p s ≡ true
starts-take [] s n e = refl
starts-take (c ∷ p) s zero e = ground (arith, e)
starts-take (c ∷ p) [] (suc n) e = e
starts-take (c ∷ p) (x ∷ s) (suc n) e = ground (arith, e, starts-take p s n)

contains_empty : (p s : Bytes) → starts p [] ≡ true → contains p s ≡ true
contains_empty [] [] e = refl
contains_empty [] (x ∷ s) e = refl
contains_empty (c ∷ p) s e = ground (arith, e)

contains-take : (p s : Bytes) (n : ℕ) → contains p (take n s) ≡ true → contains p s ≡ true
contains-take p s zero e = contains_empty p s e
contains-take p [] (suc n) e = e
contains-take p (x ∷ s) (suc n) e =
    ground (arith, e, starts-take p (x ∷ s) (suc n), contains-take p s n)

contains-drop : (p s : Bytes) (n : ℕ) → contains p (drop n s) ≡ true → contains p s ≡ true
contains-drop p s zero e = e
contains-drop p [] (suc n) e = e
contains-drop p (x ∷ s) (suc n) e = ground (arith, e, contains-drop p s n)

-- The cases of a replacement at a byte.
ℕ-cases : (n : ℕ) → (n ≡ zero) ⊎ ((m : ℕ) × (n ≡ suc m))
ℕ-cases zero = inl refl
ℕ-cases (suc m) = inr (m, refl)

replace_other :
    (olds : List Bytes) (new : Bytes) (x : ℕ) (s : Bytes)
    → matched olds (x ∷ s) ≡ zero
    → replace_from olds new 0 (x ∷ s) ≡ x ∷ replace_from olds new 0 s
unfolding replace_from
replace_other olds new x s m = ground (arith, m)

replace_match :
    (olds : List Bytes) (new : Bytes) (x n : ℕ) (s : Bytes)
    → matched olds (x ∷ s) ≡ suc n
    → replace_from olds new 0 (x ∷ s) ≡ new ++ replace_from olds new n s
unfolding replace_from
replace_match olds new x n s m = ground (arith, m)

blank_length : (p : Bytes) → length p ≡ zero → starts p [] ≡ true
blank_length [] e = refl
blank_length (c ∷ p) e = ground (arith, e)

starts_replaced :
    (olds : List Bytes) (first : ℕ) (rest p s : Bytes)
    → has_byte first p ≡ false
    → starts p (replace_from olds (first ∷ rest) 0 s) ≡ true
    → starts p s ≡ true
unfolding replace_from
starts_replaced olds first rest [] s h e = refl
starts_replaced olds first rest (c ∷ p) [] h e = e
starts_replaced olds first rest (c ∷ p) (x ∷ s) h e = elim (ℕ-cases (matched olds (x ∷ s))) [
  | inl m ↦ ground (arith, m, h, e, starts_replaced olds first rest p s)
  | inr (n, m) ↦ ground (arith, m, h, e)
]

module _ (first : ℕ) (middle : Bytes) (last : ℕ) (secret : Bytes)
    (guarded : IsGuarded first middle last secret) where
  contains_spliced :
      (u o : Bytes)
      → contains secret (u ++ (marked first middle last ++ o)) ≡ true
      → (contains secret u || contains secret o) ≡ true
  contains_spliced u o e = ground (
    arith,
    contains_apart secret u ((middle ++ (last ∷ [])) ++ o) first guarded.no_first e,
    contains_before secret (first ∷ middle) o last guarded.no_last,
    guarded.no_part,
  )

  -- Where another text is replaced, the secret is not if it was not there.
  pub contains_replaced :
      (olds : List Bytes) (skip : ℕ) (s : Bytes)
      → contains secret (replace_from olds (marked first middle last) skip s) ≡ true
      → contains secret s ≡ true
  unfolding replace_from
  contains_replaced olds skip [] e = e
  contains_replaced olds (suc skip) (x ∷ s) e = ground (arith, contains_replaced olds skip s e)
  contains_replaced olds zero (x ∷ s) e =
      let new = marked first middle last in
      elim (ℕ-cases (matched olds (x ∷ s))) [
        | inl m ↦ ground (
          arith,
          subst (λ r. contains secret r ≡ true) (replace_other olds new x s m) e,
          ap (starts secret) (replace_other olds new x s m),
          starts_replaced olds first (middle ++ (last ∷ [])) secret (x ∷ s) guarded.no_first,
          contains_replaced olds zero s,
        )
        | inr (n, m) ↦ ground (
          arith,
          contains_spliced [] (replace_from olds new n s)
              (subst (λ r. contains secret r ≡ true) (replace_match olds new x n s m) e),
          contains_replaced olds n s,
          contains_empty secret (x ∷ s),
        )
      ]

  contains_matches :
      (matches : List (ℕ × ℕ)) (s : Bytes)
      → contains secret (replace_matches matches (marked first middle last) s) ≡ true
      → contains secret s ≡ true
  unfolding replace_matches
  contains_matches [] s e = e
  contains_matches ((gap, size) ∷ matches) s e = ground (
    arith,
    contains_spliced (take gap s) _ e,
    contains-take secret s gap,
    contains-drop secret s (gap + size),
    contains_matches matches (drop (gap + size) s),
  )

  not_blank : starts secret [] ≡ false
  not_blank = ground (arith, contains_empty secret (marked first middle last), guarded.no_part)

  -- Where the secret itself is replaced, it is gone.
  pub contains-replace_from :
      (skip : ℕ) (s : Bytes)
      → contains secret (replace_from (secret ∷ []) (marked first middle last) skip s) ≡ false
  unfolding replace_from
  contains-replace_from skip [] = not_blank
  contains-replace_from (suc skip) (x ∷ s) = contains-replace_from skip s
  contains-replace_from zero (x ∷ s) =
      let new = marked first middle last in
      let olds = secret ∷ [] in
      elim (ℕ-cases (matched olds (x ∷ s))) [
        | inl m ↦ ground (
          arith,
          m,
          ap (contains secret) (replace_other olds new x s m),
          ap (starts secret) (replace_other olds new x s m),
          starts_replaced olds first (middle ++ (last ∷ [])) secret (x ∷ s) guarded.no_first,
          contains-replace_from zero s,
          blank_length secret,
          not_blank,
        )
        | inr (n, m) ↦ ground (
          arith,
          ap (contains secret) (replace_match olds new x n s m),
          contains_spliced [] (replace_from olds new n s),
          contains-replace_from n s,
          not_blank,
        )
      ]

  pub contains_secrets :
      (secrets : List Bytes) (s : Bytes)
      → contains secret (redact_secrets secrets (marked first middle last) s) ≡ true
      → contains secret s ≡ true
  unfolding redact_secrets
  contains_secrets [] s e = e
  contains_secrets (t ∷ secrets) s e = contains_replaced (t ∷ []) 0 s (contains_secrets secrets _ e)

  pub contains_rules :
      (rules : List Rule) (s : Bytes)
      → contains secret (redact_rules rules (marked first middle last) s) ≡ true
      → contains secret s ≡ true
  unfolding redact_rules
  contains_rules [] s e = e
  contains_rules (rule ∷ rules) s e = contains_matches (rule s) s (contains_rules rules _ e)
