-- ===== src/Auth/Conflict.antt =====
-- internal/auth/binding.go: what Validate accepts.
use reeve.Prelude.{
  ◌≡◌, refl, ap, inl, inr, Bool, true, false, not, ◌&&◌, ◌||◌, List, [], ◌∷◌, Option, none, some,
  String, all, str_eq, str_eq_iff, arith, Bool-cases, Option-cases,
}
use reeve.Auth.Binding.{
  Binding, Decls, ProviderDecl, declared, is_ci_only_type, scope_of_type, BindingError, or_else,
  check_local, check_locals, check_bindings, scope_holder, check_names, modes, check_modes,
  check_stacks, validate, resolve_with_decls,
}

abbrev pub is_accepted : Option BindingError → Bool
is_accepted none = true
is_accepted (some e) = false

module _ (decls : Decls) where
  -- A provider that may stand in for others in a local run.
  abbrev pub is_usable_locally : String → Bool
  is_usable_locally n = elim (declared n decls) [
    | none ↦ false
    | some d ↦ not (is_ci_only_type d.kind)
  ]

  -- The scope of a declared provider.
  abbrev pub has_scope : String → String → Bool
  has_scope scope n = elim (declared n decls) [
    | none ↦ false
    | some d ↦ str_eq (scope_of_type d.kind) scope
  ]

  -- Both are declared, and of different scopes unless they are one.
  abbrev pub are_compatible : String → String → Bool
  are_compatible m n = elim (declared n decls) [
    | none ↦ false
    | some d ↦ not (has_scope (scope_of_type d.kind) m) || str_eq m n
  ]

  abbrev pub is_declared : String → Bool
  is_declared n = elim (declared n decls) [ none ↦ false | some d ↦ true ]

  -- Every name is declared, and no two are different ones of a scope.
  abbrev pub are_clear : List String → Bool
  are_clear [] = true
  are_clear (n ∷ names) = is_declared n && all (are_compatible n) names && are_clear names

  is_accepted-or_else :
      (a b : Option BindingError) → is_accepted (or_else a b) ≡ (is_accepted a && is_accepted b)
  is_accepted-or_else none b = refl
  is_accepted-or_else (some e) b = refl

  is_accepted-check_locals :
      (names : List String) → is_accepted (check_locals decls names) ≡ all is_usable_locally names
  unfolding check_locals
  is_accepted-check_locals [] = refl
  is_accepted-check_locals (n ∷ names) = elim (Option-cases (declared n decls)) [
    | inl e ↦ ground (arith, e)
    | inr (d, e) ↦ ground (
      arith,
      e,
      is_accepted-or_else (check_local decls n) (check_locals decls names),
      is_accepted-check_locals names,
    )
  ]

  is_accepted-check_bindings :
      (bs : List Binding)
      → is_accepted (check_bindings decls bs) ≡ all (λ b. all is_usable_locally b.local) bs
  unfolding check_bindings
  is_accepted-check_bindings [] = refl
  is_accepted-check_bindings (b ∷ bs) = ground (
    arith,
    is_accepted-or_else (check_locals decls b.local) (check_bindings decls bs),
    is_accepted-check_locals b.local,
    is_accepted-check_bindings bs,
  )

  -- What the scopes met so far let in.
  abbrev lets_in : List (String × String) → String → Bool
  lets_in met n = elim (declared n decls) [
    | none ↦ false
    | some d ↦ elim (scope_holder (scope_of_type d.kind) met) [
      | none ↦ true
      | some prev ↦ str_eq prev n
    ]
  ]

  lets_in-cons :
      (met : List (String × String)) (n : String) (d : ProviderDecl)
      → declared n decls ≡ some d
      → lets_in met n ≡ true
      → (m : String)
      → lets_in ((scope_of_type d.kind, n) ∷ met) m ≡ (lets_in met m && are_compatible n m)
  lets_in-cons met n d e l m = elim (Option-cases (declared m decls)) [
    | inl f ↦ ground (arith, f)
    | inr (dm, f) ↦ elim (Bool-cases (str_eq (scope_of_type d.kind) (scope_of_type dm.kind))) [
      | inr g ↦ ground (arith, e, f, g)
      | inl g ↦
          let same =
            ap (λ s. scope_holder s met)
              ((str_eq_iff (scope_of_type d.kind) (scope_of_type dm.kind)).0 g) in
          elim (Option-cases (scope_holder (scope_of_type d.kind) met)) [
            | inl h ↦ ground (arith, e, f, g, h, same, l)
            | inr (prev, h) ↦ ground (
              arith,
              e,
              f,
              g,
              h,
              same,
              l,
              λ (q : str_eq prev n ≡ true). ap (λ x. str_eq x m) ((str_eq_iff prev n).0 q),
            )
          ]
    ]
  ]

  all-and :
      (p q r : String → Bool) (e : (m : String) → p m ≡ (q m && r m)) (names : List String)
      → all p names ≡ (all q names && all r names)
  all-and p q r e [] = refl
  all-and p q r e (m ∷ names) = ground (arith, e m, all-and p q r e names)

  is_accepted-check_names :
      (stack mode : String) (met : List (String × String)) (names : List String)
      → is_accepted (check_names decls stack mode met names)
        ≡ (all (lets_in met) names && are_clear names)
  unfolding check_names
  is_accepted-check_names stack mode met [] = refl
  is_accepted-check_names stack mode met (n ∷ names) = elim (Option-cases (declared n decls)) [
    | inl e ↦ ground (arith, e)
    | inr (d, e) ↦
        let rest = is_accepted-check_names stack mode ((scope_of_type d.kind, n) ∷ met) names in
        elim (Bool-cases (lets_in met n)) [
          | inl l ↦
              let both =
                all-and (lets_in ((scope_of_type d.kind, n) ∷ met)) (lets_in met) (are_compatible n)
                  (lets_in-cons met n d e l) names in
              elim (Option-cases (scope_holder (scope_of_type d.kind) met)) [
                | inl h ↦ ground (arith, e, l, h, rest, both)
                | inr (prev, h) ↦ ground (arith, e, l, h, rest, both)
              ]
          | inr l ↦ elim (Option-cases (scope_holder (scope_of_type d.kind) met)) [
            | inl h ↦ ground (arith, e, l, h)
            | inr (prev, h) ↦ ground (arith, e, l, h)
          ]
        ]
  ]

  lets_in_declared : (n : String) → lets_in [] n ≡ is_declared n
  lets_in_declared n = elim (Option-cases (declared n decls)) [
    | inl e ↦ ground (arith, e)
    | inr (d, e) ↦ ground (arith, e)
  ]

  are_clear-declared :
      (names : List String) → (all (lets_in []) names && are_clear names) ≡ are_clear names
  are_clear-declared [] = refl
  are_clear-declared (n ∷ names) = ground (arith, lets_in_declared n, are_clear-declared names)

module _ (glob_match : String → String → Bool) (bindings : List Binding) (decls : Decls) where
  -- What a run of the stack in the mode is given.
  abbrev pub given : String → String → List String
  given stack mode = resolve_with_decls glob_match bindings decls stack mode

  is_accepted-check_modes :
      (stack : String) (ms : List String)
      → is_accepted (check_modes glob_match bindings decls stack ms)
        ≡ all (λ m. are_clear decls (given stack m)) ms
  unfolding check_modes
  is_accepted-check_modes stack [] = refl
  is_accepted-check_modes stack (m ∷ ms) = ground (
    arith,
    is_accepted-or_else decls (check_names decls stack m [] (given stack m))
        (check_modes glob_match bindings decls stack ms),
    is_accepted-check_names decls stack m [] (given stack m),
    are_clear-declared decls (given stack m),
    is_accepted-check_modes stack ms,
  )

  is_accepted-check_stacks :
      (stacks : List String)
      → is_accepted (check_stacks glob_match bindings decls stacks)
        ≡ all (λ s. all (λ m. are_clear decls (given s m)) modes) stacks
  unfolding check_stacks
  is_accepted-check_stacks [] = refl
  is_accepted-check_stacks (s ∷ stacks) = ground (
    arith,
    is_accepted-or_else decls (check_modes glob_match bindings decls s modes)
        (check_stacks glob_match bindings decls stacks),
    is_accepted-check_modes s modes,
    is_accepted-check_stacks stacks,
  )

  -- Validate reports an error unless every provider of a local list is declared and can be had outside CI,
  -- and for every stack and each of the three modes all that the run is given is declared, with no two
  -- different providers of one scope; in that case it reports none.
  pub is_accepted-validate :
      (stacks : List String)
      → is_accepted (validate glob_match bindings decls stacks) ≡ (
          all (λ b. all (is_usable_locally decls) b.local) bindings
          && all (λ s. all (λ m. are_clear decls (given s m)) modes) stacks)
  unfolding validate
  is_accepted-validate stacks = ground (
    arith,
    is_accepted-or_else decls (check_bindings decls bindings)
        (check_stacks glob_match bindings decls stacks),
    is_accepted-check_bindings decls bindings,
    is_accepted-check_stacks stacks,
  )
