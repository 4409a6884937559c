-- ===== src/Breakglass/SelfGrant.antt =====
-- internal/core/breakglass/breakglass.go: a pull request that changes its own authorizing files.
use reeve.Prelude.{
  ◌≡◌, refl, true, false, not, List, [], ◌∷◌, String, any, is_empty, trim_prefix, arith, ap,
}
use reeve.Breakglass.{Config, Inputs, decide, authorize, is_authorizing, authorizing_paths_touched}
use reeve.Breakglass.Sources.{is_granted}

touched-is_empty :
    (changed : List String)
    → is_empty (authorizing_paths_touched changed)
      ≡ not (any (λ p. is_authorizing (trim_prefix p "/")) changed)
unfolding authorizing_paths_touched
touched-is_empty [] = refl
touched-is_empty (p ∷ changed) = ground (arith, touched-is_empty changed)

-- Where self-authorization is refused, a pull request that changes a YAML file under .reeve/ or a
-- CODEOWNERS file is not granted, whatever the sources, if the caller hands over what
-- AuthorizingPathsTouched finds among the changed paths.
pub self_authorization-denied :
    (cfg : Config) (inp : Inputs) (changed : List String)
    → cfg.reject_self_authorization ≡ true
    → inp.authorizing_paths_touched ≡ authorizing_paths_touched changed
    → any (λ p. is_authorizing (trim_prefix p "/")) changed ≡ true
    → is_granted (authorize cfg inp) ≡ false
unfolding authorize decide
self_authorization-denied cfg inp changed r e t =
    ground (arith, touched-is_empty changed, r, e, t, ap is_empty e)
