-- ===== src/Render/Pages/Bounded.antt =====
-- internal/core/render/overflow.go: no part is over the limit.
use reeve.Prelude.{
  ◌⊎◌, ◌||◌, ◌&&◌, false, ℕ, zero, suc, ◌+◌, ◌-◌, ◌/◌, ◌%◌, ◌≤◌, ◌<◌, ◌≡◌, refl, inl, inr, Bool,
  true, List, [], ◌∷◌, ◌++◌, if◌then◌else◌, ltb, leb, ◌==◌, arith, length, length-append, codes,
  Bytes, if_cases, Bool-cases,
}
use reeve.Redact.{starts}
use reeve.Render.{github_comment_max_len}
use reeve.Render.Split.{OverflowConfig, max_parts_of, split_mode, Stacks, drop}
use reeve.Render.Split.Placed.{length-split_stacks-le}
use reeve.Render.Pages.{
  decimal_from, decimal, cap_tail, replace_first, part_marker, over_cap_note, BoardRenderer, Part,
  budget, growth, part_opts, fits, groups_of, over_cap, opts_of, rendered, is_capped, part_of,
  parts_from, paginate,
}

decimal_from_le :
    (k j m n : ℕ) → m ≤ n → n < j → length (decimal_from k m) ≤ length (decimal_from j n)
decimal_from_le zero j m n le lt = omega arith
decimal_from_le (suc k) zero m n le lt = omega arith
decimal_from_le (suc k) (suc j) m n le lt = elim (Bool-cases (ltb m 10)) [
  | inl small ↦ ground (arith, small, length-append (decimal_from j (n / 10)) ((48 + n % 10) ∷ []))
  | inr large ↦ ground (
    arith,
    large,
    length-append (decimal_from k (m / 10)) ((48 + m % 10) ∷ []),
    length-append (decimal_from j (n / 10)) ((48 + n % 10) ∷ []),
    decimal_from_le k j (m / 10) (n / 10) (omega arith) (ground (arith, large)),
  )
]

length-drop : (n : ℕ) (s : Bytes) → length (drop n s) ≡ length s - n
length-drop zero s = omega arith
length-drop (suc n) [] = omega arith
length-drop (suc n) (x ∷ s) = omega (arith, length-drop n s)

starts_le : (p s : Bytes) → starts p s ≡ true → length p ≤ length s
starts_le [] s e = omega arith
starts_le (c ∷ p) [] e = ground (arith, e)
starts_le (c ∷ p) (x ∷ s) e = ground (arith, e, λ (f : starts p s ≡ true). starts_le p s f)

length-replace_first :
    (old new s : Bytes) → length (replace_first old new s) ≤ length s + (length new - length old)
length-replace_first old new [] = ground (arith, starts_le old [])
length-replace_first old new (x ∷ s) =
    let tail = drop (length old) (x ∷ s) in
    ground (
      arith,
      length-append new tail,
      length-drop (length old) (x ∷ s),
      starts_le old (x ∷ s),
      length-replace_first old new s,
    )

over_cap_note_le : (m n : ℕ) → 0 < m → m ≤ n → length (over_cap_note m) ≤ length (over_cap_note n)
unfolding over_cap_note
over_cap_note_le m n some le =
    let digits = decimal_from_le (suc m) (suc n) m n le (omega arith) in
    let words = λ (k : ℕ).
      length-append (decimal k)
        ((if k == 1 then codes " stack" else codes " stacks") ++ cap_tail) in
    ground (arith, digits, words m, words n)

le_leb : (a b : ℕ) → a ≤ b → leb a b ≡ true
le_leb a b le = ground arith

max_parts_le : (cfg : OverflowConfig) → 1 ≤ max_parts_of cfg
max_parts_le cfg = ground arith

module _ (r : BoardRenderer) (board : Stacks) (cfg : OverflowConfig) (board_marker : Bytes) where
  -- A marker and the note about what is left out leave room for a body.
  abbrev pub HasRoom : ℕ → Type 0
  HasRoom i =
      length (part_marker board_marker i)
        - length board_marker
        + length (over_cap_note (length board))
      ≤ github_comment_max_len

  -- Whether a body is within the limit of a comment.
  abbrev pub is_bounded : Part → Bool
  is_bounded p = leb (length p.body) github_comment_max_len

  module _ (groups : List Stacks) where
    -- The answer of the ladder for a group, as a part, is itself over the limit of its options.
    abbrev pub is_over : ℕ → Stacks → Bool
    is_over i g =
        let o = opts_of r board cfg board_marker groups i in
        ltb o.comment_limit (length (r.descend g o).0)

    -- Of the parts of the groups, each is within the limit of a comment, or the ladder was over its own.
    abbrev pub all_kept : ℕ → List Stacks → List Part → Bool
    all_kept i [] [] = true
    all_kept i [] (p ∷ ps) = false
    all_kept i (g ∷ gs) [] = false
    all_kept i (g ∷ gs) (p ∷ ps) = (is_bounded p || is_over i g) && all_kept (suc i) gs ps

    rendered_le :
        (i : ℕ) (g : Stacks)
        → is_over i g ≡ false
        → length (rendered r board cfg board_marker groups i g).0
          ≤ budget r board cfg board_marker i (length groups) - growth r board cfg board_marker i
    unfolding rendered part_opts
    rendered_le i g kept =
        let o = opts_of r board cfg board_marker groups i in
        if_cases (λ x. length x.0 ≤ o.comment_limit) (leb (length (r.render g o)) o.comment_limit) _
          (r.descend g o) (λ e. ground (arith, e)) (λ e. ground (arith, kept))

    capped_le :
        (i : ℕ) (body : Bytes)
        → HasRoom i
        → length body
          ≤ budget r board cfg board_marker i (length groups) - growth r board cfg board_marker i
        → length (
              if is_capped r board cfg board_marker groups i
              then body ++ over_cap_note (over_cap r board cfg board_marker groups)
              else body)
            + growth r board cfg board_marker i
          ≤ github_comment_max_len
    capped_le i body room le =
        let note = over_cap r board cfg board_marker groups in
        ground
          (arith, length-append body (over_cap_note note), over_cap_note_le note (length board))

    part_of_bounded :
        (i : ℕ) (g : Stacks)
        → HasRoom i
        → is_over i g ≡ false
        → is_bounded (part_of r board cfg board_marker groups i g) ≡ true
    unfolding part_of
    part_of_bounded i g room kept =
        let note = over_cap r board cfg board_marker groups in
        let body = (rendered r board cfg board_marker groups i g).0 in
        let capped =
          if is_capped r board cfg board_marker groups i
          then body ++ over_cap_note note
          else body in
        le_leb _ github_comment_max_len (
          omega (
            arith,
            length-replace_first board_marker (part_marker board_marker i) capped,
            capped_le i body room (rendered_le i g kept),
          ))

    parts_kept :
        (i top : ℕ) (gs : List Stacks)
        → ((j : ℕ) → j ≤ top → HasRoom j)
        → i + length gs ≤ suc top
        → all_kept i gs (parts_from r board cfg board_marker groups i gs) ≡ true
    parts_kept i top [] room le = refl
    parts_kept i top (g ∷ gs) room le = ground (
      arith,
      part_of_bounded i g (room i (omega arith)),
      parts_kept (suc i) top gs room (omega arith),
    )

  -- Let the markers of as many parts as are allowed leave room for a body and for the note about stacks that are left
  -- out. Then a board of one group has no parts; else there is one for each group, and its body is not over
  -- the limit of a comment, with its marker and that note in it, unless what the ladder answers for the group is
  -- itself over the limit of the part's options, as it may be where one row of a table does not fit.
  pub paginate_bounded :
      (room : (i : ℕ) → i ≤ max_parts_of cfg → HasRoom i)
      → ((length (groups_of r board cfg board_marker) ≤ 1)
          × (paginate r board cfg board_marker ≡ []))
        ⊎ (all_kept
              (groups_of r board cfg board_marker)
              1
              (groups_of r board cfg board_marker)
              (paginate r board cfg board_marker)
            ≡ true)
  unfolding paginate groups_of
  paginate_bounded room =
      let groups = groups_of r board cfg board_marker in
      if_cases (λ ps. ((length groups ≤ 1) × (ps ≡ [])) ⊎ (all_kept groups 1 groups ps ≡ true))
        (leb (length groups) 1) [] (parts_from r board cfg board_marker groups 1 groups)
        (λ e. inl (ground (arith, e), refl))
        (λ e. inr (
          parts_kept groups 1 (max_parts_of cfg) groups room (
            omega (
              arith,
              length-split_stacks-le (fits r board cfg board_marker) board (split_mode cfg)
                  r.sort_mode (max_parts_of cfg) (max_parts_le cfg),
            ))))
