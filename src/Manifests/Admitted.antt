-- ===== src/Manifests/Admitted.antt =====
-- internal/run/preview_lookup.go: what a manifest is that the lookup admits.
use mathlib.Core.Bool.{false≢true}
use reeve.Prelude.{
  ℕ, ◌≡◌, refl, subst, ◌∙◌, ap, Bool, true, false, not, ◌&&◌, ◌||◌, Option, none, some, String,
  if◌then◌else◌, ◌==◌, str_eq,
}
use reeve.Manifests.{
  read_failed, decode_failed, Manifest, Read, unreadable, malformed, manifest, not_identical,
  wrong_pr, wrong_run_id, bad_created_at, Considered, skipped, failed, admitted, check_manifest,
  preview_manifest_candidate, consider,
}

abbrev is_admitted : Considered → Bool
is_admitted (admitted m t) = true
is_admitted _ = false

abbrev manifest_or : Manifest → Considered → Manifest
manifest_or m (admitted x t) = x
manifest_or m _ = m

abbrev instant_of : Considered → Option ℕ
instant_of (admitted x t) = some t
instant_of _ = none

-- What check_manifest makes of its tests.
abbrev checked : Bool → Bool → Bool → Bool → Bool → Option ℕ → String → Manifest → Considered
checked a b c d bound x key m =
    if not a || not b
    then (if bound then failed (not_identical key) else skipped)
    else (if not c
        then failed (wrong_pr key)
        else (if not d
            then failed (wrong_run_id key)
            else (elim x [ none ↦ failed (bad_created_at key) | some t ↦ admitted m t ])))

checked_admitted :
    (a b c d bound : Bool) (x : Option ℕ) (key : String) (m n : Manifest) (t : ℕ)
    → checked a b c d bound x key m ≡ admitted n t
    → ((a && b && c && d) ≡ true) × (x ≡ some t) × (m ≡ n)
checked_admitted false b c d true x key m n t e = absurd (false≢true (ap is_admitted e))
checked_admitted false b c d false x key m n t e = absurd (false≢true (ap is_admitted e))
checked_admitted true false c d true x key m n t e = absurd (false≢true (ap is_admitted e))
checked_admitted true false c d false x key m n t e = absurd (false≢true (ap is_admitted e))
checked_admitted true true false d bound x key m n t e = absurd (false≢true (ap is_admitted e))
checked_admitted true true true false bound x key m n t e = absurd (false≢true (ap is_admitted e))
checked_admitted true true true true bound none key m n t e = absurd (false≢true (ap is_admitted e))
checked_admitted true true true true bound (some u) key m n t e =
    (refl, ap instant_of e, ap (manifest_or m) e)

module _ (read : String → Read) (prefix : String) (pr : ℕ) (commit_sha : String) where
  -- What an admitted manifest is.
  abbrev pub Admits : String → Manifest → ℕ → Type 0
  Admits k m t =
      (run_id : String) × (is_bound : Bool) × (preview_manifest_candidate k prefix commit_sha
        ≡ some (run_id, is_bound))
      × (read k ≡ manifest m)
      × ((str_eq m.op "preview"
            && str_eq m.commit_sha commit_sha
            && m.pr == pr
            && str_eq m.run_id run_id)
          ≡ true)
      × (m.created_at ≡ some t)

  pub consider-Admits :
      (k : String) (m : Manifest) (t : ℕ)
      → consider read prefix pr commit_sha k ≡ admitted m t
      → Admits k m t
  unfolding consider check_manifest
  consider-Admits k m t e = go (preview_manifest_candidate k prefix commit_sha) refl (read k) refl e
    where
      go :
          (c : Option (String × Bool))
          → preview_manifest_candidate k prefix commit_sha ≡ c
          → (r : Read) → read k ≡ r
          → (elim c [
            | none ↦ skipped
            | some (run_id, is_bound) ↦ elim r [
              | unreadable ↦ if is_bound then failed (read_failed k) else skipped
              | malformed ↦ if is_bound then failed (decode_failed k) else skipped
              | manifest m ↦ check_manifest k pr commit_sha run_id is_bound m
            ]
          ])
            ≡ admitted m t
          → Admits k m t
      go none c r d e = absurd (false≢true (ap is_admitted e))
      go (some (run_id, true)) c unreadable d e = absurd (false≢true (ap is_admitted e))
      go (some (run_id, false)) c unreadable d e = absurd (false≢true (ap is_admitted e))
      go (some (run_id, true)) c malformed d e = absurd (false≢true (ap is_admitted e))
      go (some (run_id, false)) c malformed d e = absurd (false≢true (ap is_admitted e))
      go (some (run_id, bound)) c (manifest n) d e =
          let ok =
            checked_admitted (str_eq n.op "preview") (str_eq n.commit_sha commit_sha) (n.pr == pr)
              (str_eq n.run_id run_id) bound n.created_at k n m t e in
          (
            run_id,
            bound,
            c,
            d ∙ ap manifest ok.2,
            subst
                (λ (x : Manifest).
                  (str_eq x.op "preview"
                    && str_eq x.commit_sha commit_sha
                    && x.pr == pr
                    && str_eq x.run_id run_id)
                  ≡ true)
                ok.2 ok.0,
            subst (λ (x : Manifest). x.created_at ≡ some t) ok.2 ok.1,
          )
