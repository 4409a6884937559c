-- ===== src/Render/Search.antt =====
-- internal/core/render/trim.go: the binary searches of the ladder.
use reeve.Prelude.{
  ℕ, zero, suc, ◌+◌, ◌-◌, ◌/◌, ◌≤◌, ◌<◌, ◌≡◌, refl, subst, ◌⊎◌, inl, inr, Bool, true, false, List,
  some, String, if◌then◌else◌, ltb, leb, arith, length, Bool-cases, Bytes, ℤ, pos, negsuc,
}
use reeve.Render.{RenderOpts, take}

-- The loop `for lo < hi`, on as many rounds as are left.
unfoldable pub search : (ℕ → Bool) → ℕ → ℕ → ℕ → ℕ
search fits zero lo hi = lo
search fits (suc n) lo hi = elim (ltb lo hi) [
  | false ↦ lo
  | true ↦
      let mid = (lo + hi + 1) / 2 in
      let up = fits mid in search fits n (if up then mid else lo) (if up then hi else mid - 1)
]

abbrev pub minus : ℕ → ℕ → ℤ
minus a b = if leb b a then pos (a - b) else negsuc (b - a - 1)

module _ (render : RenderOpts → Bytes) where
  abbrev pub kept : RenderOpts → List String → ℕ → RenderOpts
  kept base refs n = record base { keep_stacks = some (take n refs) }

  abbrev pub rows : RenderOpts → ℕ → RenderOpts
  rows base n = record base { table_limit = n }

  abbrev pub is_within : ℕ → RenderOpts → Bool
  is_within limit o = leb (length (render o)) limit

  -- How many sections fit.
  unfoldable pub fit_sections : RenderOpts → List String → ℕ → ℕ
  fit_sections base refs limit =
      search (λ n. is_within limit (kept base refs n)) (length refs) 0 (length refs)

  unfoldable pub fit_table : RenderOpts → ℕ → ℕ → ℕ × ℤ
  fit_table base total limit =
      let lo = search (λ n. is_within limit (rows base n)) total 1 total in
      if is_within limit (rows base lo) then (lo, minus total lo) else (lo, pos total)

-- Half of the range is at least one and at most the range.
mid_le : (lo hi : ℕ) → lo < hi → (suc lo ≤ (lo + hi + 1) / 2) × ((lo + hi + 1) / 2 ≤ hi)
mid_le lo hi lt = (omega arith, omega arith)

module _ (fits : ℕ → Bool) (first last : ℕ) where
  -- What the loop keeps true of its bounds.
  pub record IsSearched (lo hi : ℕ) : Type 0 where
    pub ordered : lo ≤ hi
    pub above : first ≤ lo
    pub below : hi ≤ last
    pub measured : (lo ≡ first) ⊎ (fits lo ≡ true)
    pub refused : (hi ≡ last) ⊎ (fits (suc hi) ≡ false)

  raised :
      (lo hi mid : ℕ)
      → suc lo ≤ mid
      → mid ≤ hi
      → fits mid ≡ true
      → IsSearched lo hi
      → IsSearched mid hi
  raised lo hi mid l h u s = record {
    ordered = h;
    above = omega (arith, s.above);
    below = s.below;
    measured = inr u;
    refused = s.refused;
  }

  lowered :
      (lo hi mid : ℕ)
      → suc lo ≤ mid
      → mid ≤ hi
      → fits mid ≡ false
      → IsSearched lo hi
      → IsSearched lo (mid - 1)
  lowered lo hi mid l h u s = record {
    ordered = omega arith;
    above = s.above;
    below = omega (arith, s.below);
    measured = s.measured;
    refused = inr (subst (λ m. fits m ≡ false) (omega arith) u);
  }

  search-IsSearched :
      (n lo hi : ℕ)
      → hi ≤ lo + n
      → IsSearched lo hi
      → IsSearched (search fits n lo hi) (search fits n lo hi)
  unfolding search
  search-IsSearched zero lo hi enough s = subst (IsSearched lo) (omega (arith, s.ordered)) s
  search-IsSearched (suc n) lo hi enough s =
      let mid = (lo + hi + 1) / 2 in
      elim (Bool-cases (ltb lo hi)) [
        | inr c ↦ rw (c, search) (subst (IsSearched lo) (ground (arith, s.ordered)) s)
        | inl c ↦
            let half = mid_le lo hi (ground arith) in
            elim (Bool-cases (fits mid)) [
              | inl u ↦
                  rw (c, u, search)
                    (search-IsSearched n mid hi (omega arith) (raised lo hi mid half.0 half.1 u s))
              | inr u ↦
                  rw (c, u, search)
                    (search-IsSearched n lo (mid - 1) (omega arith)
                      (lowered lo hi mid half.0 half.1 u s))
            ]
      ]

  -- What is found lies in the range; it has been measured to fit, unless it is where the search began, and
  -- one more has been measured not to fit, unless it is where the search ends.
  pub search_found :
      (n : ℕ)
      → last ≤ first + n
      → first ≤ last
      → IsSearched (search fits n first last) (search fits n first last)
  search_found n enough le = search-IsSearched n first last enough (record {
    ordered = le;
    above = omega arith;
    below = omega arith;
    measured = inl refl;
    refused = inl refl;
  })

-- The search for one row, where there may be no row.
pub search_one :
    (fits : ℕ → Bool) (total : ℕ)
    → (search fits total 1 total ≡ 1) ⊎ (fits (search fits total 1 total) ≡ true)
unfolding search
search_one fits zero = inl refl
search_one fits (suc n) = (search_found fits 1 (suc n) (suc n) (omega arith) (omega arith)).measured
