-- ===== src/Render/Split/Placed.antt =====
-- internal/core/render/overflow.go: where the stacks of a board go.
use mathlib.Core.List.{append-nil}
use reeve.Prelude.{
  ℕ, zero, suc, ◌+◌, ◌≤◌, ◌≡◌, refl, ◌∙◌, inl, Bool, true, false, List, [], ◌∷◌, String,
  if◌then◌else◌, arith, length, if_cases,
}
use reeve.Render.{StackSummary, take}
use reeve.Render.Split.{
  Stacks, SplitMode, divided, by_stack, by_group, insert_sorted, sorted, distribute, all_fit,
  divided_from, split_by_group, split_stacks,
}
use reeve.Render.Split.Parts.{concat, are_measured, IsDivision, split_by_capacity-IsDivision}
use reeve.Render.Split.Even.{distribute-IsEven}

-- How many stacks pass a test.
abbrev pub tally : (StackSummary → Bool) → Stacks → ℕ
tally q [] = 0
tally q (s ∷ stacks) = (if q s then 1 else 0) + tally q stacks

tally-insert_sorted :
    (q : StackSummary → Bool) (mode : String) (s : StackSummary) (ts : Stacks)
    → tally q (insert_sorted mode s ts) ≡ tally q (s ∷ ts)
tally-insert_sorted q mode s [] = refl
tally-insert_sorted q mode s (t ∷ ts) = ground (arith, tally-insert_sorted q mode s ts)

tally-sorted :
    (q : StackSummary → Bool) (mode : String) (stacks : Stacks)
    → tally q (sorted stacks mode) ≡ tally q stacks
unfolding sorted
tally-sorted q mode [] = refl
tally-sorted q mode (s ∷ stacks) =
    omega (arith, tally-insert_sorted q mode s (sorted stacks mode), tally-sorted q mode stacks)

abbrev pub is_group : SplitMode → Bool
is_group by_group = true
is_group _ = false

module _ (fits : Stacks → ℕ → ℕ → Bool) where
  are_measured-all_fit :
      (groups : List Stacks) (i total : ℕ)
      → all_fit fits groups i total ≡ true
      → are_measured fits total i groups ≡ true
  are_measured-all_fit [] i total e = refl
  are_measured-all_fit (g ∷ groups) i total e =
      let rest = λ (r : all_fit fits groups (suc i) total ≡ true).
        are_measured-all_fit groups (suc i) total r in
      ground (arith, e, rest)

  divided_from-IsDivision :
      (n total : ℕ) (ordered : Stacks) (max_parts : ℕ)
      → 1 ≤ total
      → total + n ≤ suc max_parts
      → 1 ≤ max_parts
      → IsDivision fits max_parts ordered (divided_from fits n total ordered max_parts)
  unfolding divided_from
  divided_from-IsDivision zero total ordered max_parts one le room =
      split_by_capacity-IsDivision fits ordered max_parts room
  divided_from-IsDivision (suc n) total ordered max_parts one le room =
      let groups = distribute ordered total in
      let even = distribute-IsEven ordered total one in
      if_cases (IsDivision fits max_parts ordered) (all_fit fits groups 1 total) groups _
        (λ e. record {
          left_over = [];
          joined = append-nil (concat groups) ∙ even.1;
          bounded = omega (arith, even.0);
          filled = inl refl;
          total = total;
          measured = are_measured-all_fit groups 1 total e;
        })
        (λ e.
          divided_from-IsDivision n (suc total) ordered max_parts (omega arith) (omega arith) room)

  -- Unless stacks are split by their status, the parts, in their order and joined, are the beginning of the sorted
  -- stacks, which are the stacks, each as often; they are at most as many as allowed, and all stacks are in
  -- them if they are fewer; and for some number of parts each of them has been measured to fit, or is one stack or none.
  pub split_stacks-IsDivision :
      (stacks : Stacks) (mode : SplitMode) (sort_mode : String) (max_parts : ℕ)
      → is_group mode ≡ false
      → 1 ≤ max_parts
      → IsDivision fits max_parts
          (sorted stacks sort_mode)
          (split_stacks fits stacks mode sort_mode max_parts)
        × ((q : StackSummary → Bool) → tally q (sorted stacks sort_mode) ≡ tally q stacks)
  unfolding split_stacks
  split_stacks-IsDivision stacks divided sort_mode max_parts e room = (
    divided_from-IsDivision max_parts 1 (sorted stacks sort_mode) max_parts (omega arith)
        (omega arith) room,
    λ q. tally-sorted q sort_mode stacks,
  )
  split_stacks-IsDivision stacks by_stack sort_mode max_parts e room = (
    split_by_capacity-IsDivision fits (sorted stacks sort_mode) max_parts room,
    λ q. tally-sorted q sort_mode stacks,
  )
  split_stacks-IsDivision stacks by_group sort_mode max_parts e room = ground (arith, e)

  length-take-le : (n : ℕ) (groups : List Stacks) → length (take n groups) ≤ n
  length-take-le zero groups = omega arith
  length-take-le (suc n) [] = omega arith
  length-take-le (suc n) (g ∷ groups) = omega (arith, length-take-le n groups)

  -- There are no more parts than allowed, in every mode.
  pub length-split_stacks-le :
      (stacks : Stacks) (mode : SplitMode) (sort_mode : String) (max_parts : ℕ)
      → 1 ≤ max_parts
      → length (split_stacks fits stacks mode sort_mode max_parts) ≤ max_parts
  unfolding split_stacks split_by_group
  length-split_stacks-le stacks divided sort_mode max_parts room =
      (split_stacks-IsDivision stacks divided sort_mode max_parts refl room).0.bounded
  length-split_stacks-le stacks by_stack sort_mode max_parts room =
      (split_stacks-IsDivision stacks by_stack sort_mode max_parts refl room).0.bounded
  length-split_stacks-le stacks by_group sort_mode max_parts room = length-take-le max_parts _
