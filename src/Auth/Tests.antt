-- ===== src/Auth/Tests.antt =====
-- Runs of internal/auth on small inputs, and the theorems at them.
use reeve.Prelude.{
  ℕ, map, ◌==◌, ◌≡◌, refl, Bool, true, ◌&&◌, List, [], ◌∷◌, some, String, str_eq, all,
}
use reeve.Auth.Binding.{
  Binding, Decls, ProviderDecl, conflict, same_scope, keep_others, replace_scope, replace_all,
  add_all, specificity, insert_binding, sort_bindings_from, sort_bindings, choose,
  resolve_with_opts, resolve_with_decls, check_locals, check_bindings, check_names, modes,
  check_modes, check_stacks, validate,
}
use reeve.Auth.Cache.{
  Credential, acquired, failed, begin_step, finish_step, invalidate_step, close_step, begin, finish,
  invalidate_all, close, new_cache, Step, run,
}
use reeve.Auth.Cache.Cleanup.{IsBalanced, run-IsBalanced}
use reeve.Auth.Synced.{is_distinct, Rules}
use reeve.Auth.Scope.{resolve_with_opts-Rules}
use reeve.Auth.Conflict.{is_accepted, is_usable_locally, are_clear, given, is_accepted-validate}

abbrev star : String → String → Bool
star pattern ref = str_eq pattern ref

abbrev decl : String → String → String × ProviderDecl
decl name kind = (name, record { name = name; kind = kind })

abbrev decls : Decls
decls =
    decl "ci" "aws_oidc"
    ∷ decl "ops" "aws_oidc"
    ∷ decl "mine" "aws_profile"
    ∷ decl "v1" "vault"
    ∷ decl "v2" "vault"
    ∷ []

abbrev bind : String → List String → List String → Binding
bind pattern providers override = record {
  stack_pattern = pattern;
  mode = "";
  providers = providers;
  override = override;
  local = [];
}

abbrev bindings : List Binding
bindings = bind "net/prod" [] ("ops" ∷ []) ∷ bind "" ("ci" ∷ "v1" ∷ []) [] ∷ []

specific_overrides : resolve_with_decls star bindings decls "net/prod" "apply" ≡ "v1" ∷ "ops" ∷ []
unfolding resolve_with_opts sort_bindings sort_bindings_from insert_binding specificity choose
    replace_all replace_scope keep_others same_scope add_all
specific_overrides = refl

two_vaults :
    validate star (bind "" ("v1" ∷ "v2" ∷ []) [] ∷ []) decls ("net/prod" ∷ [])
    ≡ some (conflict "net/prod" "preview" "other:vault" "v1" "v2")
unfolding validate check_bindings check_locals check_stacks check_modes check_names
    resolve_with_opts sort_bindings sort_bindings_from insert_binding choose replace_all add_all
two_vaults = refl

resolve_with_opts-Rules_example :
    Rules decls "mine" (
      resolve_with_opts star bindings decls "net/prod" "apply"
        (record { is_local = true; local_providers = "v2" ∷ "mine" ∷ [] }))
    × (is_distinct (
          resolve_with_opts star bindings decls "net/prod" "apply"
            (record { is_local = true; local_providers = "v2" ∷ "mine" ∷ [] }))
        ≡ true)
resolve_with_opts-Rules_example =
    resolve_with_opts-Rules star decls "net/prod" "apply" bindings ("v2" ∷ []) "mine"

is_accepted-validate_example : is_accepted (validate star bindings decls ("net/prod" ∷ [])) ≡ (
    all (λ b. all (is_usable_locally decls) b.local) bindings
    && all
        (λ s. all (λ m. are_clear decls (given star bindings decls s m)) modes)
        ("net/prod" ∷ []))
is_accepted-validate_example = is_accepted-validate star bindings decls ("net/prod" ∷ [])

abbrev cred : ℕ → Credential
cred n = record {
  number = n;
  env = [];
  kind = "aws";
  source = "sts";
  expires_at = 0;
  has_cleanup = true;
}

abbrev number_of : Credential → ℕ
number_of c = c.number

-- One request whose answer an invalidation overtakes, one that is answered after Close, and one that fails.
abbrev raced : List Step
raced =
    begin_step "ops" 5
    ∷ begin_step "vault" 5
    ∷ begin_step "ops" 6
    ∷ invalidate_step
    ∷ finish_step 0 (acquired (cred 70)) 7
    ∷ begin_step "bad" 8
    ∷ finish_step 2 (failed (some (cred 71))) 9
    ∷ close_step
    ∷ finish_step 1 (acquired (cred 72)) 10
    ∷ close_step
    ∷ []

raced_cleans : map number_of (run 1 raced new_cache).cleaned ≡ 72 ∷ 70 ∷ 71 ∷ []
unfolding run begin finish invalidate_all close
raced_cleans = refl

run-IsBalanced_example : IsBalanced (λ c. c.number == 72) (run 1 raced new_cache)
run-IsBalanced_example = run-IsBalanced (λ c. c.number == 72) 1 raced
