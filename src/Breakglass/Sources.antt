-- ===== src/Breakglass/Sources.antt =====
-- internal/core/breakglass/breakglass.go: which sources grant, and which one the audit names.
use reeve.Prelude.{
  ◌≡◌, refl, Bool, true, false, not, ◌&&◌, ◌||◌, List, [], ◌∷◌, ◌++◌, Option, none, some, String,
  if◌then◌else◌, any, is_empty, is_blank, trim_at, trim_space, equal_fold, arith,
}
use reeve.Approvals.{is_team_slug, members_of}
use reeve.Breakglass.{
  Source, source_internal_list, source_codeowners, source_anyone, no_path_owned, owns_none,
  not_listed, Config, Inputs, Answer, failed, decided, Line, contains_login, has_source, entry_line,
  listed_line, is_owner, owns_any, from_anyone, from_codeowners, from_sources, decide, authorize,
}

abbrev pub is_granted : Answer → Bool
is_granted (failed e) = false
is_granted (decided d) = d.authorized

abbrev pub granting_source : Answer → Option Source
granting_source (failed e) = none
granting_source (decided d) = d.source

abbrev is_some {ℓ} : {A : Type ℓ} → Option A → Bool
is_some none = false
is_some (some a) = true

-- An entry that names the actor or a team of the actor.
abbrev pub names_actor : Inputs → String → String → Bool
names_actor inp actor entry =
    let e = trim_at (trim_space entry) in
    not (is_blank e)
    && (if is_team_slug e
        then contains_login (members_of inp.team_members e) actor
        else equal_fold e actor)

abbrev pub is_listed : Config → Inputs → String → Bool
is_listed cfg inp actor = any (names_actor inp actor) cfg.internal_list

-- The actor owns one of the changed paths, and owners are asked.
abbrev pub owns_change : Config → Inputs → String → Bool
owns_change cfg inp actor =
    cfg.codeowners && any (λ entry. any (is_owner inp.team_members actor) entry.1) inp.owned_paths

-- The block is there, names a source, and none that is not supported.
abbrev pub is_usable : Config → Bool
is_usable cfg = cfg.configured && has_source cfg && is_empty cfg.groups && not cfg.vcs_bypass

-- The pull request does not change who may authorize, where that is refused.
abbrev pub is_admissible : Config → Inputs → String → Bool
is_admissible cfg inp actor =
    not (is_blank actor)
    && not (cfg.reject_self_authorization && not (is_empty inp.authorizing_paths_touched))

-- The narrowest of the sources that grant.
abbrev pub narrowest : Config → Inputs → String → Option Source
narrowest cfg inp actor =
    if is_listed cfg inp actor
    then some source_internal_list
    else (if owns_change cfg inp actor
        then some source_codeowners
        else (if cfg.anyone then some source_anyone else none))

entry_line-is_some :
    (inp : Inputs) (actor entry : String)
    → is_some (entry_line inp.team_members actor entry) ≡ names_actor inp actor entry
unfolding entry_line
entry_line-is_some inp actor entry = ground arith

listed_line-is_some :
    (inp : Inputs) (actor : String) (entries : List String)
    → is_some (listed_line inp.team_members actor entries) ≡ any (names_actor inp actor) entries
unfolding listed_line
listed_line-is_some inp actor [] = refl
listed_line-is_some inp actor (e ∷ es) =
    ground (arith, listed_line-is_some inp actor es, entry_line-is_some inp actor e)

owns_any-is_some :
    (owned teams : List (String × List String)) (actor : String)
    → is_some (owns_any owned actor teams) ≡ any (λ entry. any (is_owner teams actor) entry.1) owned
unfolding owns_any
owns_any-is_some [] teams actor = refl
owns_any-is_some ((path, owners) ∷ owned) teams actor =
    ground (arith, owns_any-is_some owned teams actor)

from_anyone-source :
    (cfg : Config) (actor : String) (trace : List Line)
    → (from_anyone cfg actor trace).source ≡ (if cfg.anyone then some source_anyone else none)
unfolding from_anyone
from_anyone-source cfg actor trace = ground arith

from_codeowners-source :
    (cfg : Config) (inp : Inputs) (actor : String) (trace : List Line)
    → (from_codeowners cfg inp actor trace).source ≡ (
        if owns_change cfg inp actor
        then some source_codeowners
        else (if cfg.anyone then some source_anyone else none))
unfolding from_codeowners
from_codeowners-source cfg inp actor trace = ground (
  arith,
  owns_any-is_some inp.owned_paths inp.team_members actor,
  from_anyone-source cfg actor
      (trace ++ ((if is_empty inp.owned_paths then no_path_owned else owns_none actor) ∷ [])),
  from_anyone-source cfg actor trace,
)

from_sources-source :
    (cfg : Config) (inp : Inputs) (actor : String)
    → (from_sources cfg inp actor).source ≡ narrowest cfg inp actor
unfolding from_sources
from_sources-source cfg inp actor = ground (
  arith,
  listed_line-is_some inp actor cfg.internal_list,
  from_codeowners-source cfg inp actor (not_listed actor ∷ []),
  from_codeowners-source cfg inp actor [],
)

-- A decision is granted exactly when it has a source.
from_codeowners-authorized :
    (cfg : Config) (inp : Inputs) (actor : String) (trace : List Line)
    → (from_codeowners cfg inp actor trace).authorized
      ≡ is_some (from_codeowners cfg inp actor trace).source
unfolding from_codeowners from_anyone
from_codeowners-authorized cfg inp actor trace = ground arith

from_sources-authorized :
    (cfg : Config) (inp : Inputs) (actor : String)
    → (from_sources cfg inp actor).authorized ≡ is_some (from_sources cfg inp actor).source
unfolding from_sources
from_sources-authorized cfg inp actor = ground (
  arith,
  from_codeowners-authorized cfg inp actor (not_listed actor ∷ []),
  from_codeowners-authorized cfg inp actor [],
)

-- `Authorize` grants exactly when the block is there, names a source and none that is not supported,
-- the actor has a name, the pull request does not change the authorizing files where that is refused,
-- and the internal list names the actor or a team of the actor, or the code owners are asked and one
-- of a changed path is the actor or a team of the actor, or anyone may.
pub authorize_granted :
    (cfg : Config) (inp : Inputs)
    → is_granted (authorize cfg inp) ≡ (
        is_usable cfg
        && is_admissible cfg inp (trim_at (trim_space inp.actor))
        && (is_listed cfg inp (trim_at (trim_space inp.actor))
            || owns_change cfg inp (trim_at (trim_space inp.actor))
            || cfg.anyone))
unfolding authorize decide
authorize_granted cfg inp =
    let actor = trim_at (trim_space inp.actor) in
    ground (arith, from_sources-source cfg inp actor, from_sources-authorized cfg inp actor)

-- The source that `Authorize` puts on record when it grants is the narrowest of those that grant:
-- the internal list, then the code owners, then anyone.
pub granting_source-narrowest :
    (cfg : Config) (inp : Inputs)
    → is_granted (authorize cfg inp) ≡ true
    → granting_source (authorize cfg inp) ≡ narrowest cfg inp (trim_at (trim_space inp.actor))
unfolding authorize decide
granting_source-narrowest cfg inp e =
    ground (arith, from_sources-source cfg inp (trim_at (trim_space inp.actor)))
