-- ===== src/Render/Split/Parts.antt =====
-- internal/core/render/overflow.go: what a division of stacks keeps.
use mathlib.Core.List.{append_assoc}
use reeve.Prelude.{
  ℕ, zero, suc, ◌+◌, ◌≤◌, ◌≡◌, refl, sym, ap, ◌∙◌, subst, ◌⊎◌, inl, inr, Bool, true, false, ◌&&◌,
  ◌||◌, List, [], ◌∷◌, ◌++◌, leb, ◌==◌, arith, length, length-append, Bool-cases, if_cases,
}
use reeve.Render.{StackSummary}
use reeve.Render.Split.{Stacks, overflows, pack_from, pack, packed_from, split_by_capacity}

abbrev pub concat : List Stacks → Stacks
concat [] = []
concat (g ∷ groups) = g ++ concat groups

concat-append :
    (groups : List Stacks) (g xs : Stacks)
    → concat (groups ++ (g ∷ [])) ++ xs ≡ concat groups ++ (g ++ xs)
concat-append [] g xs = append_assoc g [] xs
concat-append (h ∷ groups) g xs =
    append_assoc h (concat (groups ++ (g ∷ []))) xs
    ∙ ap (λ ys. h ++ ys) (concat-append groups g xs)
    ∙ sym (append_assoc h (concat groups) (g ++ xs))

start_eq : (i j : ℕ) → j ≡ 0 + i → j ≡ i
start_eq i j e = omega (arith, e)

module _ (fits : Stacks → ℕ → ℕ → Bool) where
  -- Whether each group, the first as part i, is one stack or fits.
  abbrev pub are_measured : ℕ → ℕ → List Stacks → Bool
  are_measured total i [] = true
  are_measured total i (g ∷ groups) =
      (leb (length g) 1 || fits g i total) && are_measured total (suc i) groups

  are_measured-append :
      (total i j : ℕ) (groups : List Stacks) (g : Stacks)
      → j ≡ length groups + i
      → are_measured total i groups ≡ true
      → (leb (length g) 1 || fits g j total) ≡ true
      → are_measured total i (groups ++ (g ∷ [])) ≡ true
  are_measured-append total i j [] g e m f =
      ground (arith, subst (λ x. (leb (length g) 1 || fits g x total) ≡ true) (start_eq i j e) f)
  are_measured-append total i j (h ∷ groups) g e m f =
      let rest = λ (n : are_measured total (suc i) groups ≡ true).
        are_measured-append total (suc i) j groups g (omega (arith, e)) n f in
      ground (arith, m, rest)

  -- A division into at most so many groups, each of stacks that stand together; what is left over stands behind
  -- them, and nothing is while there is room for a group.
  pub record IsDivision (max_parts : ℕ) (stacks : Stacks) (groups : List Stacks) : Type 0 where
    pub left_over : Stacks
    pub joined : concat groups ++ left_over ≡ stacks
    pub bounded : length groups ≤ max_parts
    pub filled : (left_over ≡ []) ⊎ (length groups ≡ max_parts)
    pub total : ℕ
    pub measured : are_measured total 1 groups ≡ true

  module _ (max_parts total : ℕ) where
    -- What does not overflow is one stack or fits.
    trial_fits :
        (groups : List Stacks) (cur : Stacks) (s : StackSummary)
        → overflows fits total groups cur s ≡ false
        → (leb (length (cur ++ (s ∷ []))) 1 || fits (cur ++ (s ∷ [])) (suc (length groups)) total)
          ≡ true
    unfolding overflows
    trial_fits groups [] s o = refl
    trial_fits groups (c ∷ cur) s o = ground arith

    pack_from-IsDivision :
        (groups : List Stacks) (cur ordered : Stacks)
        → suc (length groups) ≤ max_parts
        → are_measured total 1 groups ≡ true
        → (leb (length cur) 1 || fits cur (suc (length groups)) total) ≡ true
        → IsDivision max_parts
            (concat groups ++ (cur ++ ordered))
            (pack_from fits max_parts total groups cur ordered)
    unfolding pack_from
    pack_from-IsDivision groups [] [] room m f = record {
      left_over = [];
      joined = refl;
      bounded = omega arith;
      filled = inl refl;
      total = total;
      measured = m;
    }
    pack_from-IsDivision groups (c ∷ cur) [] room m f = record {
      left_over = [];
      joined = concat-append groups (c ∷ cur) [];
      bounded = omega (arith, length-append groups ((c ∷ cur) ∷ []));
      filled = inl refl;
      total = total;
      measured =
          are_measured-append total 1 (suc (length groups)) groups (c ∷ cur) (omega arith) m f;
    }
    pack_from-IsDivision groups cur (s ∷ ordered) room m f =
        let closed = groups ++ (cur ∷ []) in
        let measured_closed =
          are_measured-append total 1 (suc (length groups)) groups cur (omega arith) m f in
        elim (Bool-cases (overflows fits total groups cur s)) [
          | inl o ↦
              rw (o, pack_from)
                (if_cases (IsDivision max_parts (concat groups ++ (cur ++ (s ∷ ordered))))
                  (leb max_parts (suc (length groups))) closed
                  (pack_from fits max_parts total closed (s ∷ []) ordered)
                  (λ e. record {
                    left_over = s ∷ ordered;
                    joined = concat-append groups cur (s ∷ ordered);
                    bounded = omega (arith, length-append groups (cur ∷ []));
                    filled = inr (ground (arith, length-append groups (cur ∷ []), e));
                    total = total;
                    measured = measured_closed;
                  })
                  (λ e.
                    subst
                      (λ x.
                        IsDivision max_parts x
                          (pack_from fits max_parts total closed (s ∷ []) ordered))
                      (concat-append groups cur (s ∷ ordered))
                      (pack_from-IsDivision closed (s ∷ []) ordered
                        (ground (arith, length-append groups (cur ∷ []), e)) measured_closed
                        (ground arith))))
          | inr o ↦
              rw (o, pack_from)
                (subst
                  (λ x.
                    IsDivision max_parts (concat groups ++ x)
                      (pack_from fits max_parts total groups (cur ++ (s ∷ [])) ordered))
                  (append_assoc cur (s ∷ []) ordered)
                  (pack_from-IsDivision groups (cur ++ (s ∷ [])) ordered room m
                    (trial_fits groups cur s o)))
        ]

  packed_from-IsDivision :
      (n max_parts : ℕ) (ordered : Stacks) (total : ℕ)
      → 1 ≤ max_parts
      → IsDivision max_parts ordered (packed_from fits n max_parts ordered total)
  unfolding packed_from
  packed_from-IsDivision zero max_parts ordered total room =
      pack_from-IsDivision max_parts total [] [] ordered (omega (arith, room)) refl refl
  packed_from-IsDivision (suc n) max_parts ordered total room =
      let groups = pack fits max_parts ordered total in
      if_cases (IsDivision max_parts ordered) (leb (length groups) 1 || length groups == total)
        groups _
        (λ e. pack_from-IsDivision max_parts total [] [] ordered (omega (arith, room)) refl refl)
        (λ e. packed_from-IsDivision n max_parts ordered (length groups) room)

  pub split_by_capacity-IsDivision :
      (ordered : Stacks) (max_parts : ℕ)
      → 1 ≤ max_parts
      → IsDivision max_parts ordered (split_by_capacity fits ordered max_parts)
  unfolding split_by_capacity
  split_by_capacity-IsDivision ordered max_parts room =
      packed_from-IsDivision (suc max_parts) max_parts ordered 1 room
