-- ===== src/Manifests/Verdicts.antt =====
-- internal/run/preview_lookup.go: which keys are refused and which are admitted, said without the loop.
use reeve.Prelude.{
  ℕ, ◌≡◌, refl, ◌⊎◌, inl, inr, Bool, true, false, not, ◌&&◌, Option, none, some, String,
  if◌then◌else◌, ◌==◌, str_eq, arith, Option-cases, leb,
}
use reeve.Manifests.{
  Manifest, Read, unreadable, malformed, manifest, Considered, failed, admitted, Newest, refused,
  newest, check_manifest, preview_manifest_candidate, consider,
}

abbrev pub is_failed : Considered → Bool
is_failed (failed e) = true
is_failed _ = false

-- Whether what is found was not created before an instant.
abbrev pub is_at_least : ℕ → Newest → Bool
is_at_least t (refused e) = true
is_at_least t (newest none) = false
is_at_least t (newest (some best)) = leb t best.created_at

abbrev pub is_covered : Considered → Newest → Bool
is_covered (admitted m t) r = is_at_least t r
is_covered _ r = true

-- The instant, if there is one, is not after what is found.
abbrev pub is_reached : Option ℕ → Newest → Bool
is_reached none r = true
is_reached (some t) r = is_at_least t r

abbrev has_instant : Option ℕ → Bool
has_instant none = false
has_instant (some t) = true

Read-cases : (x : Read) → ((x ≡ unreadable) ⊎ (x ≡ malformed)) ⊎ ((m : Manifest) × (x ≡ manifest m))
Read-cases unreadable = inl (inl refl)
Read-cases malformed = inl (inr refl)
Read-cases (manifest m) = inr (m, refl)

module _ (read : String → Read) (prefix : String) (pr : ℕ) (commit_sha : String) where
  -- The manifest is a preview of the commit.
  abbrev pub is_ours : Manifest → Bool
  is_ours m = str_eq m.op "preview" && str_eq m.commit_sha commit_sha

  -- It is of the pull request, has the run id of its key and an instant at which it was created.
  abbrev pub is_sound : String → Manifest → Bool
  is_sound run_id m = m.pr == pr && str_eq m.run_id run_id && has_instant m.created_at

  abbrev pub refuses_read : String → Bool → Read → Bool
  refuses_read run_id bound (manifest m) = if is_ours m then not (is_sound run_id m) else bound
  refuses_read run_id bound unreadable = bound
  refuses_read run_id bound malformed = bound

  abbrev pub instant_read : String → Read → Option ℕ
  instant_read run_id (manifest m) = if is_ours m && is_sound run_id m then m.created_at else none
  instant_read run_id unreadable = none
  instant_read run_id malformed = none

  -- The key is refused: of those that may be the preview's, one that is bound to the commit, if it cannot be
  -- read or decoded or is no preview of the commit; and any other that is a preview of the commit, but of
  -- another pull request, with another run id than its key's or without an instant.
  abbrev pub refuses : String → Bool
  refuses k = elim (preview_manifest_candidate k prefix commit_sha) [
    | none ↦ false
    | some (run_id, bound) ↦ refuses_read run_id bound (read k)
  ]

  -- The instant of a key that is admitted: a preview of the commit and the pull request with the run id of
  -- its key.
  abbrev pub admits_at : String → Option ℕ
  admits_at k = elim (preview_manifest_candidate k prefix commit_sha) [
    | none ↦ none
    | some (run_id, bound) ↦ instant_read run_id (read k)
  ]

  check_manifest-refuses :
      (key run_id : String) (bound : Bool) (m : Manifest)
      → (is_failed (check_manifest key pr commit_sha run_id bound m)
          ≡ refuses_read run_id bound (manifest m))
        × ((r : Newest)
            → is_covered (check_manifest key pr commit_sha run_id bound m) r
              ≡ is_reached (instant_read run_id (manifest m)) r)
  unfolding check_manifest
  check_manifest-refuses key run_id bound m = elim (Option-cases m.created_at) [
    | inl e ↦ (ground (arith, e), λ r. ground (arith, e))
    | inr (t, e) ↦ (ground (arith, e), λ r. ground (arith, e))
  ]

  pub consider-refuses :
      (k : String)
      → (is_failed (consider read prefix pr commit_sha k) ≡ refuses k)
        × ((r : Newest)
            → is_covered (consider read prefix pr commit_sha k) r ≡ is_reached (admits_at k) r)
  unfolding consider
  consider-refuses k = elim (Option-cases (preview_manifest_candidate k prefix commit_sha)) [
    | inl e ↦ (ground (arith, e), λ r. ground (arith, e))
    | inr ((run_id, bound), e) ↦ elim (Read-cases (read k)) [
      | inl (inl f) ↦ (ground (arith, e, f), λ r. ground (arith, e, f))
      | inl (inr f) ↦ (ground (arith, e, f), λ r. ground (arith, e, f))
      | inr (m, f) ↦ (
        rw (e, f, consider, refuses) (check_manifest-refuses k run_id bound m).0,
        λ r. rw (e, f, consider, admits_at) ((check_manifest-refuses k run_id bound m).1 r),
      )
    ]
  ]
