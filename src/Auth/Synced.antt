-- ===== src/Auth/Synced.antt =====
-- internal/auth/binding.go: the names that are chosen and those that have been seen.
use reeve.Prelude.{
  ◌≡◌, refl, sym, ◌∙◌, ap, inl, inr, Bool, true, false, not, ◌&&◌, ◌||◌, List, [], ◌∷◌, ◌++◌,
  String, any, select, member, str_eq, str_eq_iff, str_eq_refl, arith, Bool-cases,
}
use reeve.Auth.Binding.{
  Decls, Chosen, none_chosen, forget, same_scope, add_provider, keep_others, replace_scope,
  replace_all, add_all,
}

-- No text stands twice in the list.
abbrev pub is_distinct : List String → Bool
is_distinct [] = true
is_distinct (x ∷ xs) = not (member x xs) && is_distinct xs

member_ap : (x y : String) (xs : List String) → str_eq x y ≡ true → member x xs ≡ member y xs
member_ap x y xs e = ap (λ z. member z xs) ((str_eq_iff x y).0 e)

str_eq_sym : (x y : String) → str_eq x y ≡ str_eq y x
str_eq_sym x y = ground (
  arith,
  Bool-cases (str_eq x y),
  Bool-cases (str_eq y x),
  λ (e : str_eq x y ≡ true). (str_eq_iff y x).1 (sym ((str_eq_iff x y).0 e)),
  λ (e : str_eq y x ≡ true). (str_eq_iff x y).1 (sym ((str_eq_iff y x).0 e)),
)

member-forget :
    (y x : String) (xs : List String) → member y (forget x xs) ≡ (member y xs && not (str_eq x y))
member-forget y x [] = refl
member-forget y x (z ∷ zs) = elim (Bool-cases (str_eq y z)) [
  | inl e ↦ ground (arith, e, member-forget y x zs, ap (str_eq x) ((str_eq_iff y z).0 e))
  | inr e ↦ ground (arith, e, member-forget y x zs)
]

member-append :
    (y x : String) (xs : List String) → member y (xs ++ (x ∷ [])) ≡ (member y xs || str_eq y x)
member-append y x [] = ground arith
member-append y x (z ∷ zs) = ground (arith, member-append y x zs)

is_distinct-append :
    (x : String) (xs : List String)
    → is_distinct xs ≡ true
    → member x xs ≡ false
    → is_distinct (xs ++ (x ∷ [])) ≡ true
is_distinct-append x [] d n = refl
is_distinct-append x (z ∷ zs) d n =
    ground (arith, d, n, str_eq_sym x z, member-append z x zs, is_distinct-append x zs)

-- `seen` has the names of `out`, of which none stands there twice.
pub record IsSynced (c : Chosen) : Type 0 where
  pub same : (x : String) → member x c.seen ≡ member x c.out
  pub once : is_distinct c.out ≡ true

add_provider-IsSynced : (p : String) (c : Chosen) → IsSynced c → IsSynced (add_provider p c)
add_provider-IsSynced p c s = elim (Bool-cases (member p c.seen)) [
  | inl e ↦ rw e s
  | inr e ↦ rw e (record {
    same = λ x. ground (arith, s.same x, member-append x p c.out);
    once = is_distinct-append p c.out s.once (sym (s.same p) ∙ e);
  })
]

module _ (decls : Decls) where
  abbrev outside : String → List String → List String
  outside repl = select (λ x. not (same_scope decls x repl))

  keep_others_out :
      (repl : String) (list seen : List String)
      → (keep_others decls repl list seen).out ≡ outside repl list
  unfolding keep_others
  keep_others_out repl [] seen = refl
  keep_others_out repl (x ∷ list) seen =
      ground (arith, keep_others_out repl list seen, keep_others_out repl list (forget x seen))

  same_scope_ap :
      (x y repl : String) → str_eq x y ≡ true → same_scope decls x repl ≡ same_scope decls y repl
  same_scope_ap x y repl e = ap (λ z. same_scope decls z repl) ((str_eq_iff x y).0 e)

  keep_others_seen :
      (y repl : String) (list seen : List String)
      → member y (keep_others decls repl list seen).seen
        ≡ (member y seen && not (member y list && same_scope decls y repl))
  unfolding keep_others
  keep_others_seen y repl [] seen = ground arith
  keep_others_seen y repl (x ∷ list) seen = ground (
    arith,
    keep_others_seen y repl list seen,
    keep_others_seen y repl list (forget x seen),
    member-forget y x seen,
    str_eq_sym x y,
    same_scope_ap y x repl,
  )

  member-outside :
      (y repl : String) (list : List String)
      → member y (outside repl list) ≡ (member y list && not (same_scope decls y repl))
  member-outside y repl [] = refl
  member-outside y repl (x ∷ list) =
      ground (arith, member-outside y repl list, same_scope_ap y x repl)

  is_distinct-outside :
      (repl : String) (list : List String)
      → is_distinct list ≡ true
      → is_distinct (outside repl list) ≡ true
  is_distinct-outside repl [] d = refl
  is_distinct-outside repl (x ∷ list) d =
      ground (arith, d, member-outside x repl list, is_distinct-outside repl list)

  keep_others-IsSynced :
      (repl : String) (c : Chosen) → IsSynced c → IsSynced (keep_others decls repl c.out c.seen)
  keep_others-IsSynced repl c s = record {
    same = λ y. ground (
      arith,
      s.same y,
      keep_others_seen y repl c.out c.seen,
      member-outside y repl c.out,
      ap (member y) (keep_others_out repl c.out c.seen),
    );
    once =
        ap is_distinct (keep_others_out repl c.out c.seen) ∙ is_distinct-outside repl c.out s.once;
  }

  replace_scope-IsSynced :
      (c : Chosen) (repl : String) → IsSynced c → IsSynced (replace_scope decls c repl)
  unfolding replace_scope
  replace_scope-IsSynced c repl s =
      add_provider-IsSynced repl (keep_others decls repl c.out c.seen)
        (keep_others-IsSynced repl c s)

  pub replace_all-IsSynced :
      (c : Chosen) (repls : List String) → IsSynced c → IsSynced (replace_all decls c repls)
  unfolding replace_all
  replace_all-IsSynced c [] s = s
  replace_all-IsSynced c (repl ∷ repls) s =
      replace_all-IsSynced (replace_scope decls c repl) repls (replace_scope-IsSynced c repl s)

  -- Another provider of the scope.
  abbrev pub is_rival : String → String → Bool
  is_rival repl x = same_scope decls x repl && not (str_eq x repl)

  any_rival-outside :
      (repl : String) (list : List String) → any (is_rival repl) (outside repl list) ≡ false
  any_rival-outside repl [] = refl
  any_rival-outside repl (x ∷ list) = ground (arith, any_rival-outside repl list)

  any_rival-append :
      (repl : String) (list : List String)
      → any (is_rival repl) (list ++ (repl ∷ [])) ≡ any (is_rival repl) list
  any_rival-append repl [] = ground (arith, str_eq_refl repl)
  any_rival-append repl (x ∷ list) = ground (arith, any_rival-append repl list)

  -- A replacement is there, and nothing else of its scope.
  abbrev pub Rules : String → List String → Type 0
  Rules repl list = (member repl list ≡ true) × (any (is_rival repl) list ≡ false)

  replace_scope-Rules :
      (c : Chosen) (repl : String) → IsSynced c → Rules repl (replace_scope decls c repl).out
  unfolding replace_scope
  replace_scope-Rules c repl s =
      let kept = keep_others decls repl c.out c.seen in
      let k = keep_others-IsSynced repl c s in
      let none_left =
        ap (any (is_rival repl)) (keep_others_out repl c.out c.seen)
        ∙ any_rival-outside repl c.out in
      elim (Bool-cases (member repl kept.seen)) [
        | inl e ↦ rw e (sym (k.same repl) ∙ e, none_left)
        | inr e ↦ rw e (
          ground (arith, member-append repl repl kept.out, str_eq_refl repl),
          any_rival-append repl kept.out ∙ none_left,
        )
      ]

  pub replace_all-Rules :
      (c : Chosen) (repls : List String) (repl : String)
      → IsSynced c
      → Rules repl (replace_all decls c (repls ++ (repl ∷ []))).out
  unfolding replace_all
  replace_all-Rules c [] repl s = replace_scope-Rules c repl s
  replace_all-Rules c (r ∷ repls) repl s =
      replace_all-Rules (replace_scope decls c r) repls repl (replace_scope-IsSynced c r s)

pub add_all-IsSynced :
    (c : Chosen) (providers : List String) → IsSynced c → IsSynced (add_all c providers)
unfolding add_all
add_all-IsSynced c [] s = s
add_all-IsSynced c (p ∷ providers) s =
    add_all-IsSynced (add_provider p c) providers (add_provider-IsSynced p c s)

pub none_chosen-IsSynced : IsSynced none_chosen
none_chosen-IsSynced = record { same = λ x. refl; once = refl }
