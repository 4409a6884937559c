-- ===== src/Auth/Scope.antt =====
-- internal/auth/binding.go: no provider is chosen twice, and a replacement is alone in its scope.
use reeve.Prelude.{◌≡◌, inl, inr, Bool, true, List, [], ◌∷◌, ◌++◌, String, Bool-cases}
use reeve.Auth.Binding.{
  Binding, Decls, Chosen, ResolveOpts, none_chosen, replace_all, add_all, matches, choose,
  choose_local, sort_bindings, resolve_with_opts,
}
use reeve.Auth.Synced.{
  is_distinct, IsSynced, Rules, replace_all-IsSynced, replace_all-Rules, add_all-IsSynced,
  none_chosen-IsSynced,
}

module _ (glob_match : String → String → Bool) (decls : Decls) (ref mode : String) where
  choose-IsSynced :
      (c : Chosen) (bs : List Binding)
      → IsSynced c
      → IsSynced (choose glob_match decls ref mode c bs)
  unfolding choose
  choose-IsSynced c [] s = s
  choose-IsSynced c (b ∷ bs) s = elim (Bool-cases (matches glob_match b ref mode)) [
    | inl e ↦
        rw (e, choose)
          (choose-IsSynced (add_all (replace_all decls c b.override) b.providers) bs
            (add_all-IsSynced _ b.providers (replace_all-IsSynced decls c b.override s)))
    | inr e ↦ rw (e, choose) (choose-IsSynced c bs s)
  ]

  choose_local-IsSynced :
      (c : Chosen) (bs : List Binding)
      → IsSynced c
      → IsSynced (choose_local glob_match decls ref mode c bs)
  unfolding choose_local
  choose_local-IsSynced c [] s = s
  choose_local-IsSynced c (b ∷ bs) s = elim (Bool-cases (matches glob_match b ref mode)) [
    | inl e ↦
        rw (e, choose_local)
          (choose_local-IsSynced (replace_all decls c b.local) bs
            (replace_all-IsSynced decls c b.local s))
    | inr e ↦ rw (e, choose_local) (choose_local-IsSynced c bs s)
  ]

  common-IsSynced :
      (bindings : List Binding)
      → IsSynced (choose glob_match decls ref mode none_chosen (sort_bindings bindings))
  common-IsSynced bindings =
      choose-IsSynced none_chosen (sort_bindings bindings) none_chosen-IsSynced

  local-IsSynced :
      (bindings : List Binding)
      → IsSynced (
          choose_local glob_match decls ref mode
            (choose glob_match decls ref mode none_chosen (sort_bindings bindings))
            (sort_bindings bindings))
  local-IsSynced bindings =
      choose_local-IsSynced _ (sort_bindings bindings) (common-IsSynced bindings)

  -- No run is given a provider twice.
  pub resolve_with_opts_distinct :
      (bindings : List Binding) (opts : ResolveOpts)
      → is_distinct (resolve_with_opts glob_match bindings decls ref mode opts) ≡ true
  unfolding resolve_with_opts
  resolve_with_opts_distinct bindings opts = elim (Bool-cases opts.is_local) [
    | inl e ↦
        rw e ((replace_all-IsSynced decls _ opts.local_providers (local-IsSynced bindings)).once)
    | inr e ↦ rw e ((common-IsSynced bindings).once)
  ]

  -- In a local run the last provider of the command line is used, and no other of its scope, whatever the
  -- bindings name; and no provider is used twice.
  pub resolve_with_opts-Rules :
      (bindings : List Binding) (repls : List String) (repl : String)
      → Rules decls repl (
          resolve_with_opts glob_match bindings decls ref mode
            (record { is_local = true; local_providers = repls ++ (repl ∷ []) }))
        × (is_distinct (
              resolve_with_opts glob_match bindings decls ref mode
                (record { is_local = true; local_providers = repls ++ (repl ∷ []) }))
            ≡ true)
  unfolding resolve_with_opts
  resolve_with_opts-Rules bindings repls repl = (
    replace_all-Rules decls _ repls repl (local-IsSynced bindings),
    resolve_with_opts_distinct bindings
        (record { is_local = true; local_providers = repls ++ (repl ∷ []) }),
  )
