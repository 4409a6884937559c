-- ===== src/Breakglass.antt =====
-- internal/core/breakglass/breakglass.go: who may apply in an emergency. A Go map is the list of its
-- entries, in the order in which the code meets them; a message is kept as its kind and arguments.
pub mod Sources
pub mod SelfGrant
pub mod Command
pub mod Written
mod CommandTests
mod Tests
use reeve.Prelude.{
  ℕ, Bool, true, false, not, ◌&&◌, ◌||◌, List, [], ◌∷◌, ◌++◌, Option, none, some, String,
  if◌then◌else◌, any, is_empty, is_blank, str_eq, trim_at, trim_space, equal_fold, trim_prefix,
  has_prefix, has_suffix, cut_at,
}
use reeve.Approvals.{is_team_slug, members_of}

pub data Source : Type 0 where
  source_internal_list source_codeowners source_anyone source_vcs_bypass : Source

pub data Error : Type 0 where
  not_configured no_sources vcs_bypass_unsupported : Error
  malformed_group : String → Error
  groups_unsupported : List String → Error

pub data Line : Type 0 where
  no_actor no_path_owned anyone_granted : Line
  self_authorization : List String → Line
  team_member : String → String → Line
  listed_directly not_listed owns_none unauthorized : String → Line
  owns_path : String → String → Line

pub record Config : Type 0 where
  pub configured : Bool
  pub internal_list : List String
  pub codeowners : Bool
  pub anyone : Bool
  pub vcs_bypass : Bool
  pub groups : List String
  pub override_freeze : Bool
  pub reject_self_authorization : Bool

pub record Inputs : Type 0 where
  pub actor : String
  pub owned_paths : List (String × List String)
  pub team_members : List (String × List String)
  pub authorizing_paths_touched : List String

pub record Decision : Type 0 where
  pub authorized : Bool
  pub source : Option Source
  pub trace : List Line

-- The pair of a Decision and an error that `Authorize` returns: one of them is always zero.
pub data Answer : Type 0 where
  failed : Error → Answer
  decided : Decision → Answer

abbrev pub has_source : Config → Bool
has_source cfg =
    not (is_empty cfg.internal_list)
    || cfg.codeowners
    || cfg.anyone
    || cfg.vcs_bypass
    || not (is_empty cfg.groups)

abbrev pub contains_login : List String → String → Bool
contains_login members login = any (λ m. equal_fold (trim_at m) login) members

abbrev pub parse_group_ref : String → Option (String × String)
parse_group_ref s = elim (cut_at b':' (trim_prefix (trim_space s) "group:")) [
  | none ↦ none
  | some (provider, name) ↦
      if is_blank provider || is_blank name then none else some (provider, name)
]

-- The loop over the groups, then the error that follows it.
abbrev pub reject_groups : List String → List String → Error
reject_groups configured_groups [] = groups_unsupported configured_groups
reject_groups configured_groups (g ∷ gs) =
    let rest = reject_groups configured_groups gs in
    elim (parse_group_ref g) [ none ↦ malformed_group g | some parts ↦ rest ]

-- What one entry of the internal list says for the actor, if it grants.
unfoldable pub entry_line : List (String × List String) → String → String → Option Line
entry_line teams actor entry =
    let e = trim_at (trim_space entry) in
    if is_blank e
    then none
    else (if is_team_slug e
        then (if contains_login (members_of teams e) actor
            then some (team_member actor e)
            else none)
        else (if equal_fold e actor then some (listed_directly actor) else none))

-- The loop over the internal list, up to the first entry that grants.
unfoldable pub listed_line : List (String × List String) → String → List String → Option Line
listed_line teams actor [] = none
listed_line teams actor (entry ∷ entries) =
    let rest = listed_line teams actor entries in
    elim (entry_line teams actor entry) [ none ↦ rest | some line ↦ some line ]

-- Whether one owner of a path is the actor or a team of the actor.
abbrev pub is_owner : List (String × List String) → String → String → Bool
is_owner teams actor owner =
    let o = trim_at owner in
    if is_team_slug o then contains_login (members_of teams o) actor else equal_fold o actor

unfoldable pub owns_any :
    List (String × List String) → String → List (String × List String) → Option String
owns_any [] actor teams = none
owns_any ((path, owners) ∷ owned) actor teams =
    let rest = owns_any owned actor teams in
    if any (is_owner teams actor) owners then some path else rest

abbrev granted : List Line → Source → Decision
granted trace s = record { authorized = true; source = some s; trace = trace }

abbrev denied : List Line → Decision
denied trace = record { authorized = false; source = none; trace = trace }

-- The last source, and the denial behind it.
unfoldable pub from_anyone : Config → String → List Line → Decision
from_anyone cfg actor trace =
    if cfg.anyone
    then granted (trace ++ (anyone_granted ∷ [])) source_anyone
    else denied (trace ++ (unauthorized actor ∷ []))

-- The owners of the changed paths, then the sources behind them.
unfoldable pub from_codeowners : Config → Inputs → String → List Line → Decision
from_codeowners cfg inp actor trace =
    if cfg.codeowners
    then elim (owns_any inp.owned_paths actor inp.team_members) [
      | some path ↦ granted (trace ++ (owns_path actor path ∷ [])) source_codeowners
      | none ↦
          from_anyone cfg actor
            (trace ++ ((if is_empty inp.owned_paths then no_path_owned else owns_none actor) ∷ []))
    ]
    else from_anyone cfg actor trace

-- The internal list, then the sources behind it.
unfoldable pub from_sources : Config → Inputs → String → Decision
from_sources cfg inp actor =
    if not (is_empty cfg.internal_list)
    then elim (listed_line inp.team_members actor cfg.internal_list) [
      | some line ↦ granted (line ∷ []) source_internal_list
      | none ↦ from_codeowners cfg inp actor (not_listed actor ∷ [])
    ]
    else from_codeowners cfg inp actor []

unfoldable pub decide : Config → Inputs → String → Decision
decide cfg inp actor =
    if is_blank actor
    then denied (no_actor ∷ [])
    else (if cfg.reject_self_authorization && not (is_empty inp.authorizing_paths_touched)
        then denied (self_authorization inp.authorizing_paths_touched ∷ [])
        else from_sources cfg inp actor)

unfoldable pub authorize : Config → Inputs → Answer
authorize cfg inp =
    if not cfg.configured
    then failed not_configured
    else (if not (has_source cfg)
        then failed no_sources
        else (if not (is_empty cfg.groups)
            then failed (reject_groups cfg.groups cfg.groups)
            else (if cfg.vcs_bypass
                then failed vcs_bypass_unsupported
                else decided (decide cfg inp (trim_at (trim_space inp.actor))))))

unfoldable pub is_authorizing : String → Bool
is_authorizing p =
    has_prefix p ".reeve/" && (has_suffix p ".yaml" || has_suffix p ".yml")
    || (str_eq p "CODEOWNERS" || str_eq p ".github/CODEOWNERS" || str_eq p "docs/CODEOWNERS")

unfoldable pub authorizing_paths_touched : List String → List String
authorizing_paths_touched [] = []
authorizing_paths_touched (p ∷ changed) =
    let rest = authorizing_paths_touched changed in
    let path = trim_prefix p "/" in if is_authorizing path then path ∷ rest else rest
