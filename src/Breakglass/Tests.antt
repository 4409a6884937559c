-- ===== src/Breakglass/Tests.antt =====
-- Runs of internal/core/breakglass on small inputs, and the theorems at them.
use reeve.Prelude.{◌≡◌, refl, true, false, ◌&&◌, ◌||◌, [], ◌∷◌, some}
use reeve.Breakglass.{
  Config, Inputs, authorize, decide, from_sources, listed_line, entry_line, is_authorizing,
  authorizing_paths_touched, failed, malformed_group, groups_unsupported, source_internal_list,
}
use reeve.Breakglass.Sources.{
  is_granted, granting_source, is_usable, is_admissible, is_listed, owns_change, authorize_granted,
}

abbrev sre_or_owner : Config
sre_or_owner = record {
  configured = true;
  internal_list = "@Alice" ∷ "acme/sre" ∷ [];
  codeowners = true;
  anyone = false;
  vcs_bypass = false;
  groups = [];
  override_freeze = true;
  reject_self_authorization = true;
}

abbrev dave : Inputs
dave = record {
  actor = " dave ";
  owned_paths = ("infra/main.ts", "@alice" ∷ "@Dave" ∷ []) ∷ [];
  team_members = ("acme/sre", "carol" ∷ "dave" ∷ []) ∷ [];
  authorizing_paths_touched = [];
}

abbrev self_granting : Inputs
self_granting = record dave { authorizing_paths_touched = ".github/CODEOWNERS" ∷ [] }

team_grants : granting_source (authorize sre_or_owner dave) ≡ some source_internal_list
unfolding authorize decide from_sources listed_line entry_line
team_grants = refl

groups_fail :
    authorize (record sre_or_owner { groups = "group:aws_iam:oncall" ∷ [] }) dave
    ≡ failed (groups_unsupported ("group:aws_iam:oncall" ∷ []))
unfolding authorize
groups_fail = refl

malformed_group_fails :
    authorize (record sre_or_owner { groups = "a:b" ∷ "group:oncall" ∷ [] }) dave
    ≡ failed (malformed_group "group:oncall")
unfolding authorize
malformed_group_fails = refl

paths_touched :
    authorizing_paths_touched (".reeve/drift.yaml" ∷ "a.ts" ∷ "/.github/CODEOWNERS" ∷ [])
    ≡ ".reeve/drift.yaml" ∷ ".github/CODEOWNERS" ∷ []
unfolding authorizing_paths_touched is_authorizing
paths_touched = refl

authorize_granted_example : is_granted (authorize sre_or_owner dave) ≡ (
    is_usable sre_or_owner
    && is_admissible sre_or_owner dave "dave"
    && (is_listed sre_or_owner dave "dave" || owns_change sre_or_owner dave "dave" || false))
authorize_granted_example = authorize_granted sre_or_owner dave
