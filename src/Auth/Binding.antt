-- ===== src/Auth/Binding.antt =====
-- internal/auth/binding.go: the providers that a stack's run uses. doublestar.Match is the parameter
-- `glob_match`, pattern first; its errors are a match that fails, as the code takes them.
use Prim.Native.Char.{code}
use mathlib.Core.List.{reverse}
use reeve.Prelude.{
  ℕ, Bool, true, false, not, ◌&&◌, ◌||◌, List, [], ◌∷◌, ◌++◌, Option, none, some, String,
  if◌then◌else◌, ◌==◌, select, member, str_eq, is_blank, append, cut_at, ℤ, pos, negsuc, ◌+ℤ◌,
  lt_int,
}

pub record Binding : Type 0 where
  pub stack_pattern : String
  pub mode : String
  pub providers : List String
  pub override : List String
  pub local : List String

pub record ResolveOpts : Type 0 where
  pub is_local : Bool
  pub local_providers : List String

-- A declared provider; the fields that its adapter reads are left out.
pub record ProviderDecl : Type 0 where
  pub name : String
  pub kind : String

abbrev pub Decls : Type 0
Decls = List (String × ProviderDecl)

abbrev pub declared : String → Decls → Option ProviderDecl
declared name [] = none
declared name ((n, d) ∷ decls) = if str_eq n name then some d else declared name decls

abbrev pub is_ci_only_type : String → Bool
is_ci_only_type t = str_eq t "aws_oidc" || str_eq t "gcp_wif" || str_eq t "azure_federated"

abbrev pub scope_of_type : String → String
scope_of_type t =
    if str_eq t "aws_oidc" || str_eq t "aws_profile" || str_eq t "aws_sso"
    then "aws"
    else (if str_eq t "gcp_wif" || str_eq t "gcloud_adc"
        then "gcp"
        else (if str_eq t "azure_federated"
            then "azure"
            else (if str_eq t "github_app" then "github-identity" else append "other:" t)))

-- The name up to its first `-`, unless it begins with one.
abbrev pub root_of : String → String
root_of s = elim (cut_at b'-' s) [
  | none ↦ s
  | some (before, after) ↦ if is_blank before then s else before
]

unfoldable pub same_scope : Decls → String → String → Bool
same_scope decls a b = elim (declared a decls) [
  | none ↦ str_eq (root_of a) (root_of b)
  | some da ↦ elim (declared b decls) [
    | none ↦ str_eq (root_of a) (root_of b)
    | some db ↦ str_eq (scope_of_type da.kind) (scope_of_type db.kind)
  ]
]

-- `out` and `seen`, the names that map to true.
pub record Chosen : Type 0 where
  pub out : List String
  pub seen : List String

abbrev pub none_chosen : Chosen
none_chosen = record { out = []; seen = [] }

-- `delete(seen, x)`.
abbrev pub forget : String → List String → List String
forget x = select (λ y. not (str_eq x y))

-- `if !seen[p] { seen[p] = true; out = append(out, p) }`.
abbrev pub add_provider : String → Chosen → Chosen
add_provider p c =
    if member p c.seen then c else record { out = c.out ++ (p ∷ []); seen = p ∷ c.seen }

-- The loop of replaceScope: what is kept of the list, and what is still seen.
unfoldable pub keep_others : Decls → String → List String → List String → Chosen
keep_others decls repl [] seen = record { out = []; seen = seen }
keep_others decls repl (x ∷ list) seen =
    let dropped = keep_others decls repl list (forget x seen) in
    let rest = keep_others decls repl list seen in
    if same_scope decls x repl then dropped else record rest { out = x ∷ rest.out }

unfoldable pub replace_scope : Decls → Chosen → String → Chosen
replace_scope decls c repl = add_provider repl (keep_others decls repl c.out c.seen)

unfoldable pub replace_all : Decls → Chosen → List String → Chosen
replace_all decls c [] = c
replace_all decls c (repl ∷ repls) = replace_all decls (replace_scope decls c repl) repls

unfoldable pub add_all : Chosen → List String → Chosen
add_all c [] = c
add_all c (p ∷ providers) = add_all (add_provider p c) providers

abbrev weight : ℕ → ℤ
weight c = if c == b'*' || c == b'?' then negsuc 1 else pos 1

specificity_from : ℤ → String → ℤ
specificity_from score String.[] = score
specificity_from score (String.◌∷◌ c s) = specificity_from (score +ℤ weight (code c)) s

unfoldable pub specificity : String → ℤ
unfolding specificity_from
specificity p = specificity_from (pos 0) p

abbrev pub more_specific : Binding → Binding → Bool
more_specific a b =
    let pattern = lt_int (specificity b.stack_pattern) (specificity a.stack_pattern) in
    if is_blank a.mode
    then (if is_blank b.mode then pattern else false)
    else (if is_blank b.mode then true else pattern)

-- The inner loop: `b` moves down past every binding that is more specific. The list is the sorted front of
-- the slice, its last element first.
unfoldable pub insert_binding : Binding → List Binding → List Binding
insert_binding b [] = b ∷ []
insert_binding b (a ∷ front) =
    if more_specific a b then a ∷ insert_binding b front else b ∷ a ∷ front

unfoldable pub sort_bindings_from : List Binding → List Binding → List Binding
sort_bindings_from front [] = front
sort_bindings_from front (b ∷ bs) = sort_bindings_from (insert_binding b front) bs

unfoldable pub sort_bindings : List Binding → List Binding
sort_bindings bs = reverse (sort_bindings_from [] bs)

module _ (glob_match : String → String → Bool) where
  abbrev pub matches : Binding → String → String → Bool
  matches b ref mode =
      if not (is_blank b.mode) && not (str_eq b.mode mode)
      then false
      else (if is_blank b.stack_pattern then true else glob_match b.stack_pattern ref)

  -- The first loop over the sorted bindings.
  unfoldable pub choose : Decls → String → String → Chosen → List Binding → Chosen
  choose decls ref mode c [] = c
  choose decls ref mode c (b ∷ bs) =
      if matches b ref mode
      then choose decls ref mode (add_all (replace_all decls c b.override) b.providers) bs
      else choose decls ref mode c bs

  -- The second, of local runs.
  unfoldable pub choose_local : Decls → String → String → Chosen → List Binding → Chosen
  choose_local decls ref mode c [] = c
  choose_local decls ref mode c (b ∷ bs) =
      if matches b ref mode
      then choose_local decls ref mode (replace_all decls c b.local) bs
      else choose_local decls ref mode c bs

  abbrev pub chosen : List Binding → Decls → String → String → ResolveOpts → Chosen
  chosen bindings decls ref mode opts =
      let common = choose decls ref mode none_chosen (sort_bindings bindings) in
      if opts.is_local
      then replace_all decls (choose_local decls ref mode common (sort_bindings bindings))
          opts.local_providers
      else common

  unfoldable pub resolve_with_opts :
      List Binding → Decls → String → String → ResolveOpts → List String
  resolve_with_opts bindings decls ref mode opts = (chosen bindings decls ref mode opts).out

  abbrev pub resolve_with_decls : List Binding → Decls → String → String → List String
  resolve_with_decls bindings decls ref mode =
      resolve_with_opts bindings decls ref mode (record { is_local = false; local_providers = [] })

pub data BindingError : Type 0 where
  undeclared_local undeclared : String → BindingError
  ci_only_local : String → String → BindingError
  conflict : String → String → String → String → String → BindingError

abbrev pub check_local : Decls → String → Option BindingError
check_local decls n = elim (declared n decls) [
  | none ↦ some (undeclared_local n)
  | some d ↦ if is_ci_only_type d.kind then some (ci_only_local n d.kind) else none
]

-- `a`, or `b` where `a` finds nothing.
abbrev pub or_else : Option BindingError → Option BindingError → Option BindingError
or_else none b = b
or_else (some e) b = some e

unfoldable pub check_locals : Decls → List String → Option BindingError
check_locals decls [] = none
check_locals decls (n ∷ names) = or_else (check_local decls n) (check_locals decls names)

unfoldable pub check_bindings : Decls → List Binding → Option BindingError
check_bindings decls [] = none
check_bindings decls (b ∷ bs) = or_else (check_locals decls b.local) (check_bindings decls bs)

-- `typeSeen`: the scopes met, each with the last name of it.
abbrev pub scope_holder : String → List (String × String) → Option String
scope_holder scope [] = none
scope_holder scope ((s, n) ∷ met) = if str_eq s scope then some n else scope_holder scope met

unfoldable pub check_names :
    Decls → String → String → List (String × String) → List String → Option BindingError
check_names decls stack mode met [] = none
check_names decls stack mode met (n ∷ names) = elim (declared n decls) [
  | none ↦ some (undeclared n)
  | some d ↦
      let scope = scope_of_type d.kind in
      let rest = check_names decls stack mode ((scope, n) ∷ met) names in
      elim (scope_holder scope met) [
        | none ↦ rest
        | some prev ↦ if str_eq prev n then rest else some (conflict stack mode scope prev n)
      ]
]

abbrev pub modes : List String
modes = "preview" ∷ "apply" ∷ "drift" ∷ []

module _ (glob_match : String → String → Bool) where
  unfoldable pub check_modes : List Binding → Decls → String → List String → Option BindingError
  check_modes bindings decls stack [] = none
  check_modes bindings decls stack (m ∷ ms) =
      or_else (check_names decls stack m [] (resolve_with_decls glob_match bindings decls stack m))
        (check_modes bindings decls stack ms)

  unfoldable pub check_stacks : List Binding → Decls → List String → Option BindingError
  check_stacks bindings decls [] = none
  check_stacks bindings decls (s ∷ stacks) =
      or_else (check_modes bindings decls s modes) (check_stacks bindings decls stacks)

  unfoldable pub validate : List Binding → Decls → List String → Option BindingError
  validate bindings decls stacks =
      or_else (check_bindings decls bindings) (check_stacks bindings decls stacks)
