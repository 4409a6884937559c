-- ===== src/Discovery/Tests.antt =====
-- Runs of internal/core/discovery on small inputs, and the theorems at them.
use reeve.Prelude.{
  ◌≡◌, refl, ◌⊎◌, Bool, true, not, ◌&&◌, List, [], ◌∷◌, none, some, String, any, str_eq,
  if◌then◌else◌,
}
use reeve.Discovery.{
  Stack, ChangeMapping, matched, stack_config_name, file_matches_stack, mark_matched, hit_from,
  affected_detailed,
}
use reeve.Discovery.Affected.{claims, counted, expected, affected_detailed_reference}
use reeve.Discovery.Covers.{affected_detailed_covers}
use reeve.Discovery.Declared.{
  Declaration, Filter, append_at, declared_by_path, excluded, sort_by_ref, insert_by_ref, resolve,
  paths_by_ref, duplicate_refs, sort_texts, insert_text, validate_unique_refs,
}
use reeve.Discovery.Listed.{is_declared_by, is_sorted, tally, resolve-tally}

-- A pattern matches its own text, and everything if it is a lone star.
abbrev literal : String → String → Bool
literal pat s = if str_eq pat "*" then true else str_eq pat s

abbrev api : String → Stack
api name = record { project = "api"; path = "projects/api"; name = name; env = name }

abbrev web : Stack
web = record { project = "web"; path = "projects/web"; name = "prod"; env = "prod" }

abbrev mapping : ChangeMapping
mapping = record {
  ignore_changes = "notes" ∷ [];
  extra_triggers = ("web", "shared/lib.ts" ∷ []) ∷ [];
  scope = "auto";
}

abbrev all_stacks : List Stack
all_stacks = web ∷ api "prod" ∷ api "dev" ∷ []

abbrev files : List String
files = "projects/api/Pulumi.dev.yaml" ∷ "notes" ∷ "shared/lib.ts" ∷ []

own_config : stack_config_name "Pulumi.dev.yaml" ≡ some "dev"
unfolding stack_config_name
own_config = refl

shared_config : stack_config_name "Pulumi.yaml" ≡ none
unfolding stack_config_name
shared_config = refl

files_affect : affected_detailed literal all_stacks files mapping ≡ record {
  stacks = web ∷ api "dev" ∷ [];
  reason = matched;
  unmapped = [];
  demonstrated = web ∷ api "dev" ∷ [];
}
unfolding affected_detailed hit_from mark_matched file_matches_stack stack_config_name
files_affect = refl

stray_broadens :
    (affected_detailed literal all_stacks ("ci.sh" ∷ files) mapping).unmapped ≡ "ci.sh" ∷ []
unfolding affected_detailed hit_from mark_matched file_matches_stack stack_config_name
stray_broadens = refl

affected_detailed_reference_example :
    affected_detailed literal all_stacks files mapping
    ≡ expected literal mapping all_stacks (counted literal mapping files)
affected_detailed_reference_example = affected_detailed_reference literal mapping all_stacks files

affected_detailed_covers_example :
    ((affected_detailed literal all_stacks files mapping).stacks ≡ all_stacks)
    ⊎ (any
          (λ s. claims literal mapping s "shared/lib.ts")
          (affected_detailed literal all_stacks files mapping).stacks
        ≡ true)
affected_detailed_covers_example =
    affected_detailed_covers literal mapping all_stacks files "shared/lib.ts" refl refl refl

abbrev declarations : List Declaration
declarations =
    record { project = "api"; path = "projects/api"; pattern = ""; stacks = "prod" ∷ [] }
    ∷ record { project = "api"; path = "projects/api"; pattern = ""; stacks = "dev" ∷ [] }
    ∷ record { project = ""; path = ""; pattern = "*"; stacks = "prod" ∷ [] }
    ∷ []

abbrev no_web : Filter
no_web = record { path_patterns = []; stack_patterns = "web/prod" ∷ [] }

resolved : resolve literal all_stacks declarations no_web ≡ api "dev" ∷ api "prod" ∷ []
unfolding resolve declared_by_path append_at sort_by_ref insert_by_ref
resolved = refl

resolve-tally_example :
    (is_sorted (resolve literal all_stacks declarations no_web) ≡ true)
    × ((q : Stack → Bool)
        → tally q (resolve literal all_stacks declarations no_web)
          ≡ tally
              (λ s.
                q s
                && (any (is_declared_by literal s) declarations && not (excluded literal s no_web)))
              all_stacks)
resolve-tally_example = resolve-tally literal all_stacks declarations no_web

twice :
    validate_unique_refs (web ∷ api "dev" ∷ web ∷ [])
    ≡ some ("web/prod", "projects/web" ∷ "projects/web" ∷ [])
unfolding validate_unique_refs paths_by_ref append_at duplicate_refs sort_texts insert_text
twice = refl
