-- ===== src/Codeowners/Last.antt =====
-- internal/vcs/codeowners/parse.go: the last rule that matches a path decides alone.
use reeve.Prelude.{
  ◌≡◌, refl, ap, inl, inr, Bool, true, false, List, [], ◌∷◌, ◌++◌, Option, none, some, String,
  if◌then◌else◌, any, is_empty, member, str_eq, str_eq_iff, arith, Bool-cases,
}
use reeve.Codeowners.{Rule, match, last_match, owned, resolve}

-- The entry of a map.
abbrev pub lookup : List (String × List String) → String → Option (List String)
lookup [] k = none
lookup ((j, v) ∷ m) k = if str_eq k j then some v else lookup m k

module _ (glob_match : String → String → Bool) where
  abbrev pub matches : String → Rule → Bool
  matches p r = match glob_match r.pattern p

  last_match-none :
      (rules : List Rule) (p : String)
      → any (matches p) rules ≡ false
      → last_match glob_match rules p ≡ none
  unfolding last_match
  last_match-none [] p e = refl
  last_match-none (r ∷ rules) p e = ground (arith, last_match-none rules p, e)

  last_match-last :
      (before : List Rule) (r : Rule) (after : List Rule) (p : String)
      → matches p r ≡ true
      → any (matches p) after ≡ false
      → last_match glob_match (before ++ (r ∷ after)) p ≡ some r
  unfolding last_match
  last_match-last [] r after p e f = rw (last_match-none after p f, e) refl
  last_match-last (b ∷ before) r after p e f = rw (last_match-last before r after p e f) refl

  lookup-resolve :
      (rules : List Rule) (changed : List String) (p : String)
      → lookup (resolve glob_match rules changed) p
        ≡ (if member p changed then owned (last_match glob_match rules p) else none)
  unfolding resolve
  lookup-resolve rules [] p = refl
  lookup-resolve rules (q ∷ changed) p = elim (Bool-cases (str_eq p q)) [
    | inl e ↦ ground (
      arith,
      e,
      lookup-resolve rules changed p,
      ap (λ x. owned (last_match glob_match rules x)) ((str_eq_iff p q).0 e),
    )
    | inr e ↦ ground (arith, e, lookup-resolve rules changed p)
  ]

  -- The last rule that matches a changed path decides on its owners alone: they are those of that rule,
  -- and the path has none if the rule names none.
  pub resolve-last :
      (before : List Rule) (r : Rule) (after : List Rule) (changed : List String) (p : String)
      → member p changed ≡ true
      → matches p r ≡ true
      → any (matches p) after ≡ false
      → lookup (resolve glob_match (before ++ (r ∷ after)) changed) p
        ≡ (if is_empty r.owners then none else some r.owners)
  resolve-last before r after changed p m e f = ground (
    arith,
    lookup-resolve (before ++ (r ∷ after)) changed p,
    m,
    ap owned (last_match-last before r after p e f),
  )

  -- A path that no rule matches has no owners.
  pub resolve-unmatched :
      (rules : List Rule) (changed : List String) (p : String)
      → any (matches p) rules ≡ false
      → lookup (resolve glob_match rules changed) p ≡ none
  resolve-unmatched rules changed p e =
      ground (arith, lookup-resolve rules changed p, ap owned (last_match-none rules p e))
