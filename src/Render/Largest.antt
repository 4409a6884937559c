-- ===== src/Render/Largest.antt =====
-- internal/core/render/trim.go: the search for sections finds the most that fit.
use reeve.Prelude.{
  ℕ, suc, ◌≤◌, ◌≡◌, ◌⊎◌, inl, inr, true, List, String, leb, arith, length, Bool-cases, Bytes,
}
use reeve.Render.{RenderOpts}
use reeve.Render.Search.{kept, is_within, fit_sections, search_found}

module _ (render : RenderOpts → Bytes) (base : RenderOpts) (refs : List String) (limit : ℕ) where
  -- Let a renderer not answer a shorter body for more sections. Then the sections that the search keeps fit, unless it
  -- keeps none, and no longer prefix of the sections fits.
  pub fit_sections_largest :
      (grows : (m n : ℕ)
        → m ≤ n
        → length (render (kept render base refs m)) ≤ length (render (kept render base refs n)))
      → ((fit_sections render base refs limit ≡ 0)
          ⊎ (is_within render limit (kept render base refs (fit_sections render base refs limit))
              ≡ true))
        × ((m : ℕ)
            → m ≤ length refs
            → is_within render limit (kept render base refs m) ≡ true
            → m ≤ fit_sections render base refs limit)
  unfolding fit_sections
  fit_sections_largest grows =
      let fits = λ (n : ℕ). is_within render limit (kept render base refs n) in
      let found = search_found fits 0 (length refs) (length refs) (omega arith) (omega arith) in
      (
        found.measured,
        λ m le e. elim found.refused [
          | inl end ↦ omega (arith, end)
          | inr tight ↦
              let r = fit_sections render base refs limit in
              elim (Bool-cases (leb m r)) [
                | inl few ↦ ground arith
                | inr many ↦ ground (arith, e, tight, grows (suc r) m (ground arith))
              ]
        ],
      )
