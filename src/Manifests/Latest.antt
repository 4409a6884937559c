-- ===== src/Manifests/Latest.antt =====
-- internal/run/preview_lookup.go: which manifest is found.
use mathlib.Core.Bool.{false≢true}
use reeve.Prelude.{
  ℕ, ◌≤◌, ◌≡◌, refl, sym, subst, ◌∙◌, ap, ◌⊎◌, inl, inr, Bool, true, false, List, [], ◌∷◌, Option,
  none, some, String, if◌then◌else◌, any, all, arith, str_eq, str_eq_refl, Bool-cases,
}
use reeve.Manifests.Admitted.{Admits, consider-Admits}
use reeve.Manifests.Verdicts.{
  is_failed, is_at_least, is_covered, is_reached, refuses, admits_at, consider-refuses,
}
use reeve.Manifests.{
  newest_preview_manifest, Manifest, Read, LookupError, Considered, skipped, failed, admitted, Best,
  is_better, Newest, refused, newest, consider, newest_from,
}

abbrev pub is_refused : Newest → Bool
is_refused (refused e) = true
is_refused (newest b) = false

-- The keys that List answers, and whether the lookup is to fail for them.
abbrev pub listed : Option (List String) → List String
listed none = []
listed (some keys) = keys

Considered-cases :
    (c : Considered)
    → (c ≡ skipped)
      ⊎ ((e : LookupError) × (c ≡ failed e))
      ⊎ ((m : Manifest) × (t : ℕ) × (c ≡ admitted m t))
Considered-cases skipped = inl refl
Considered-cases (failed e) = inr (inl (e, refl))
Considered-cases (admitted m t) = inr (inr (m, t, refl))

abbrev best_or : Best → Option Best → Best
best_or b none = b
best_or b (some x) = x

abbrev considered_of : Best → Considered
considered_of b = admitted b.manifest b.created_at

abbrev is_there : Option Best → Bool
is_there none = false
is_there (some b) = true

abbrev best_of : Newest → Option Best
best_of (refused e) = none
best_of (newest b) = b

module _ (read : String → Read) (prefix : String) (pr : ℕ) (commit_sha : String) where
  newest_from_refused :
      (best : Option Best) (keys : List String)
      → is_refused (newest_from read prefix pr commit_sha best keys)
        ≡ any (λ k. is_failed (consider read prefix pr commit_sha k)) keys
  unfolding newest_from
  newest_from_refused best [] = refl
  newest_from_refused best (k ∷ keys) =
      elim (Considered-cases (consider read prefix pr commit_sha k)) [
        | inl e ↦ rw (e, newest_from) (newest_from_refused best keys)
        | inr (inl (x, e)) ↦ rw (e, newest_from) refl
        | inr (inr (m, t, e)) ↦
            rw (e, newest_from)
              (newest_from_refused
                (if is_better commit_sha m t best
                  then some (record { manifest = m; created_at = t })
                  else best)
                keys)
      ]

  all_covered :
      (e : LookupError) (keys : List String)
      → all (λ k. is_covered (consider read prefix pr commit_sha k) (refused e)) keys ≡ true
  all_covered e [] = refl
  all_covered e (k ∷ keys) = elim (Considered-cases (consider read prefix pr commit_sha k)) [
    | inl c ↦ rw c (all_covered e keys)
    | inr (inl (x, c)) ↦ rw c (all_covered e keys)
    | inr (inr (m, t, c)) ↦ rw c (all_covered e keys)
  ]

  newest_from_at_least :
      (t : ℕ) (best : Best) (keys : List String)
      → t ≤ best.created_at
      → is_at_least t (newest_from read prefix pr commit_sha (some best) keys) ≡ true
  unfolding newest_from
  newest_from_at_least t best [] le = ground arith
  newest_from_at_least t best (k ∷ keys) le =
      elim (Considered-cases (consider read prefix pr commit_sha k)) [
        | inl c ↦ rw (c, newest_from) (newest_from_at_least t best keys le)
        | inr (inl (x, c)) ↦ rw (c, newest_from) refl
        | inr (inr (m, u, c)) ↦ elim (Bool-cases (is_better commit_sha m u (some best))) [
          | inl b ↦
              rw (c, b, newest_from)
                (newest_from_at_least t (record { manifest = m; created_at = u }) keys
                  (ground (arith, b)))
          | inr b ↦ rw (c, b, newest_from) (newest_from_at_least t best keys le)
        ]
      ]

  -- What the loop goes on with behind a manifest.
  abbrev next : Manifest → ℕ → Option Best → Option Best
  next m t best =
      if is_better commit_sha m t best then some (record { manifest = m; created_at = t }) else best

  next_at_least :
      (m : Manifest) (t : ℕ) (best : Option Best) (keys : List String)
      → is_at_least t (newest_from read prefix pr commit_sha (next m t best) keys) ≡ true
  next_at_least m t none keys =
      newest_from_at_least t (record { manifest = m; created_at = t }) keys (omega arith)
  next_at_least m t (some b) keys = elim (Bool-cases (is_better commit_sha m t (some b))) [
    | inl e ↦
        rw e (newest_from_at_least t (record { manifest = m; created_at = t }) keys (omega arith))
    | inr e ↦ rw e (newest_from_at_least t b keys (ground (arith, e)))
  ]

  newest_from-skipped :
      (k : String) (best : Option Best) (keys : List String)
      → consider read prefix pr commit_sha k ≡ skipped
      → newest_from read prefix pr commit_sha best (k ∷ keys)
        ≡ newest_from read prefix pr commit_sha best keys
  unfolding newest_from
  newest_from-skipped k best keys c = rw (c, newest_from) refl

  newest_from-failed :
      (k : String) (x : LookupError) (best : Option Best) (keys : List String)
      → consider read prefix pr commit_sha k ≡ failed x
      → newest_from read prefix pr commit_sha best (k ∷ keys) ≡ refused x
  unfolding newest_from
  newest_from-failed k x best keys c = rw (c, newest_from) refl

  newest_from-admitted :
      (k : String) (m : Manifest) (t : ℕ) (best : Option Best) (keys : List String)
      → consider read prefix pr commit_sha k ≡ admitted m t
      → newest_from read prefix pr commit_sha best (k ∷ keys)
        ≡ newest_from read prefix pr commit_sha (next m t best) keys
  unfolding newest_from
  newest_from-admitted k m t best keys c = rw (c, newest_from) refl

  newest_from_covered :
      (best : Option Best) (keys : List String) (r : Newest)
      → newest_from read prefix pr commit_sha best keys ≡ r
      → all (λ k. is_covered (consider read prefix pr commit_sha k) r) keys ≡ true
  newest_from_covered best [] r e = refl
  newest_from_covered best (k ∷ keys) r e =
      elim (Considered-cases (consider read prefix pr commit_sha k)) [
        | inl c ↦
            rw c (newest_from_covered best keys r (sym (newest_from-skipped k best keys c) ∙ e))
        | inr (inl (x, c)) ↦
            subst
              (λ y.
                all (λ j. is_covered (consider read prefix pr commit_sha j) y) (k ∷ keys) ≡ true)
              (sym (newest_from-failed k x best keys c) ∙ e) (all_covered x (k ∷ keys))
        | inr (inr (m, u, c)) ↦
            let step = sym (newest_from-admitted k m u best keys c) ∙ e in
            let least = subst (λ y. is_at_least u y ≡ true) step (next_at_least m u best keys) in
            let rest = newest_from_covered (next m u best) keys r step in
            rw c (ground (arith, least, rest))
      ]

  -- Where a manifest is found that was not found before, one of the keys is the key of it.
  abbrev IsFound : List String → Best → Type 0
  IsFound keys b =
      (k : String) × (any (str_eq k) keys ≡ true)
      × (consider read prefix pr commit_sha k ≡ admitted b.manifest b.created_at)

  next_taken :
      (m : Manifest) (t : ℕ) (best : Option Best)
      → is_better commit_sha m t best ≡ true
      → next m t best ≡ some (record { manifest = m; created_at = t })
  next_taken m t best w = rw w refl

  next_kept :
      (m : Manifest) (t : ℕ) (best : Option Best)
      → is_better commit_sha m t best ≡ false
      → next m t best ≡ best
  next_kept m t best w = rw w refl

  carried_over :
      (best : Option Best) (k : String) (keys : List String) (b : Best)
      → (best ≡ some b) ⊎ IsFound keys b
      → (best ≡ some b) ⊎ IsFound (k ∷ keys) b
  carried_over best k keys b (inl e) = inl e
  carried_over best k keys b (inr (j, m, c)) = inr (j, ground (arith, m), c)

  carried_on :
      (m : Manifest) (t : ℕ) (best : Option Best) (k : String) (keys : List String) (b : Best)
      → consider read prefix pr commit_sha k ≡ admitted m t
      → (next m t best ≡ some b) ⊎ IsFound keys b
      → (best ≡ some b) ⊎ IsFound (k ∷ keys) b
  carried_on m t best k keys b c (inr f) = carried_over best k keys b (inr f)
  carried_on m t best k keys b c (inl e) = elim (Bool-cases (is_better commit_sha m t best)) [
    | inr w ↦ inl (sym (next_kept m t best w) ∙ e)
    | inl w ↦
        let same =
          ap (best_or (record { manifest = m; created_at = t }))
            (sym (next_taken m t best w) ∙ e) in
        inr (k, ground (arith, str_eq_refl k), c ∙ ap considered_of same)
  ]

  newest_from_keys :
      (best : Option Best) (keys : List String) (b : Best)
      → newest_from read prefix pr commit_sha best keys ≡ newest (some b)
      → (best ≡ some b) ⊎ IsFound keys b
  unfolding newest_from
  newest_from_keys best [] b e = inl (ap best_of e)
  newest_from_keys best (k ∷ keys) b e =
      elim (Considered-cases (consider read prefix pr commit_sha k)) [
        | inl c ↦
            carried_over best k keys b
              (newest_from_keys best keys b (sym (newest_from-skipped k best keys c) ∙ e))
        | inr (inl (x, c)) ↦
            absurd (false≢true (sym (ap is_refused (sym (newest_from-failed k x best keys c) ∙ e))))
        | inr (inr (m, t, c)) ↦ carried_on m t best k keys b c (
            newest_from_keys
              (if is_better commit_sha m t best
                then some (record { manifest = m; created_at = t })
                else best)
              keys b (sym (newest_from-admitted k m t best keys c) ∙ e))
      ]

  any-refuses :
      (keys : List String)
      → any (λ k. is_failed (consider read prefix pr commit_sha k)) keys
        ≡ any (refuses read prefix pr commit_sha) keys
  any-refuses [] = refl
  any-refuses (k ∷ keys) =
      ground (arith, (consider-refuses read prefix pr commit_sha k).0, any-refuses keys)

  all_reached :
      (r : Newest) (keys : List String)
      → all (λ k. is_covered (consider read prefix pr commit_sha k) r) keys
        ≡ all (λ k. is_reached (admits_at read prefix pr commit_sha k) r) keys
  all_reached r [] = refl
  all_reached r (k ∷ keys) =
      ground (arith, (consider-refuses read prefix pr commit_sha k).1 r, all_reached r keys)

  -- Listing failed, or a key that it gave is refused.
  abbrev pub refuses_any : Option (List String) → Bool
  refuses_any none = true
  refuses_any (some keys) = any (refuses read prefix pr commit_sha) keys

  -- The lookup of the newest preview fails exactly if the listing does or a listed key is refused. Of the
  -- keys that may be the preview's, one that is bound to the commit is refused if it cannot be read or decoded
  -- or is no preview of the commit, and any is refused that is a preview of the commit, but of another pull
  -- request, with another run id than its key says or without a valid created_at. If the lookup does not fail,
  -- each preview of the commit and the pull request under a key that may be the preview's was created no
  -- later than the one that is found, so one is found if there is any.
  pub newest_preview_manifest_newest :
      (listing : Option (List String))
      → (is_refused (newest_preview_manifest listing read prefix pr commit_sha)
          ≡ refuses_any listing)
        × (all
              (λ k.
                is_reached
                  (admits_at read prefix pr commit_sha k)
                  (newest_preview_manifest listing read prefix pr commit_sha))
              (listed listing)
            ≡ true)
  unfolding newest_preview_manifest
  newest_preview_manifest_newest none = (refl, refl)
  newest_preview_manifest_newest (some keys) = (
    newest_from_refused none keys ∙ any-refuses keys,
    sym (all_reached _ keys) ∙ newest_from_covered none keys _ refl,
  )

  -- A manifest that is found is the content of one of the keys, is a preview of the commit and of the pull request, and
  -- has the run id that its key says; no key was refused.
  pub newest_preview_manifest-Admits :
      (keys : List String) (b : Best)
      → newest_preview_manifest (some keys) read prefix pr commit_sha ≡ newest (some b)
      → (any (λ k. is_failed (consider read prefix pr commit_sha k)) keys ≡ false)
        × ((k : String) × (any (str_eq k) keys ≡ true)
            × Admits read prefix pr commit_sha k b.manifest b.created_at)
  unfolding newest_preview_manifest
  newest_preview_manifest-Admits keys b e = (
    sym (newest_from_refused none keys) ∙ ap is_refused e,
    elim (newest_from_keys none keys b e) [
      | inl z ↦ absurd (false≢true (ap is_there z))
      | inr (k, m, c) ↦
          (k, m, consider-Admits read prefix pr commit_sha k b.manifest b.created_at c)
    ],
  )
