-- ===== src/Render/Within.antt =====
-- internal/core/render/trim.go: the ladder keeps to the limit.
use reeve.Prelude.{
  none, subst, sym, ◌<◌, ℕ, ◌≤◌, ◌≡◌, refl, ◌⊎◌, inl, inr, Bool, true, false, List, [], ◌∷◌, ◌++◌,
  String, if◌then◌else◌, ltb, leb, arith, length, is_empty, length-append, codes, Bool-cases,
  if_cases, Bytes, ℤ, pos, is_positive,
}
use reeve.Render.{
  StackSummary, Trim, RenderOpts, table_source, table_source-own, table_stacks, StackOrder,
  section_refs, omitted_phrase, join, when, shortened_of,
}
use reeve.Render.Search.{rows, is_within, minus, fit_table, search, search_one}
use reeve.Render.Ladder.{
  with_short_errors, limit_of, note_for, drop_rows, drop_sections, fitting, descend_with_base,
}

leb_le : (a b : ℕ) → leb a b ≡ true → a ≤ b
leb_le a b e = ground arith

le_trans : {a b c : ℕ} → a ≤ b → b ≤ c → a ≤ c
le_trans ab bc = omega arith

longer : (xs ys zs : Bytes) → length ys ≤ length zs → length (xs ++ ys) ≤ length (xs ++ zs)
longer xs ys zs le = omega (arith, length-append xs ys, length-append xs zs)

-- The words of a trim that the last rungs make.
abbrev floor_trim : ℕ → ℤ → Trim
floor_trim k d = record with_short_errors { dropped_sections = k; dropped_rows = d }

words_le :
    (b c d : Bool)
    → (c ≡ false) ⊎ (d ≡ true)
    → length (
        join (codes "; ") (
          codes "errors shortened"
          ∷ (when b (codes "some stack detail") ++ when c (codes "some table rows"))))
      ≤ length (
          join (codes "; ") (
            codes "errors shortened"
            ∷ (when b (codes "some stack detail") ++ when d (codes "some table rows"))))
words_le true false false h = omega arith
words_le true false true h = omega arith
words_le true true false h = ground arith
words_le true true true h = omega arith
words_le false false false h = omega arith
words_le false false true h = omega arith
words_le false true false h = ground arith
words_le false true true h = omega arith

phrase_le :
    (label : Bytes) (silent : Bool) (k : ℕ) (d e : ℤ)
    → (is_positive d ≡ false) ⊎ (is_positive e ≡ true)
    → length (omitted_phrase (floor_trim k d) label silent)
      ≤ length (omitted_phrase (floor_trim k e) label silent)
unfolding omitted_phrase
phrase_le label silent k d e h =
    let words = λ (x : ℤ). join (codes "; ") (shortened_of (floor_trim k x)) in
    longer _ (words d) (words e) (words_le (ltb 0 k) (is_positive d) (is_positive e) h)

minus_total : (total n : ℕ) → (is_positive (minus total n) ≡ false) ⊎ (ltb 0 total ≡ true)
minus_total total n = elim (Bool-cases (ltb 0 total)) [ inl e ↦ inr e | inr e ↦ inl (ground arith) ]

-- A number of rows that fits, or one row that does not.
IsCount : (RenderOpts → Bytes) → RenderOpts → ℕ → ℕ → ℕ × ℤ → Type 0
IsCount render base total limit r =
    ((is_within render limit (rows render base r.0) ≡ true)
      × ((is_positive r.1 ≡ false) ⊎ (ltb 0 total ≡ true)))
    ⊎ ((r.0 ≡ 1) × (r.1 ≡ pos total) × (is_within render limit (rows render base 1) ≡ false))

fit_table-IsCount :
    (render : RenderOpts → Bytes) (base : RenderOpts) (total limit : ℕ)
    → IsCount render base total limit (fit_table render base total limit)
unfolding fit_table IsCount
fit_table-IsCount render base total limit =
    let fits = λ (n : ℕ). is_within render limit (rows render base n) in
    let lo = search fits total 1 total in
    if_cases (IsCount render base total limit) (fits lo) (lo, minus total lo) (lo, pos total)
      (λ e. inl (e, minus_total total lo))
      (λ e. elim (search_one fits total) [
        | inl one ↦ inr (one, refl, subst (λ n. fits n ≡ false) one e)
        | inr f ↦ ground (arith, e, f)
      ])

module _ (note : Bytes → Bytes)
    (noted : (p q : Bytes) → length p ≤ length q → length (note p) ≤ length (note q)) where
  note_le :
      (p q : Bytes)
      → length p ≤ length q
      → length (if is_empty p then [] else note p) ≤ length (if is_empty q then [] else note q)
  note_le [] q le = omega arith
  note_le (x ∷ p) [] le = omega arith
  note_le (x ∷ p) (y ∷ q) le = noted (x ∷ p) (y ∷ q) le

  note_for_le :
      (label : Bytes) (silent : Bool) (k : ℕ) (d e : ℤ)
      → (is_positive d ≡ false) ⊎ (is_positive e ≡ true)
      → length (note_for note label silent (floor_trim k d))
        ≤ length (note_for note label silent (floor_trim k e))
  note_for_le label silent k d e h =
      note_le (omitted_phrase (floor_trim k d) label silent)
        (omitted_phrase (floor_trim k e) label silent) (phrase_le label silent k d e h)

  module _ (render : RenderOpts → Bytes)
      (grows : (o : RenderOpts) (p q : Bytes)
        → length p ≤ length q
        → length (render (record o { truncation_note = p }))
          ≤ length (render (record o { truncation_note = q })))
      (label : Bytes) (silent : Bool) where
    -- A body without the blob, the diff and the summaries.
    abbrev pub IsBare : RenderOpts → Type 0
    IsBare o =
        (o.include_full_plan ≡ false) × (o.include_diff ≡ false) × (o.include_summary ≡ false)

    -- A body that is within the limit, or a bare one with a table of one row that is not, of which every row
    -- is reported as dropped.
    abbrev pub IsWithin : ℕ → ℕ → Bytes × Trim → Type 0
    IsWithin limit total r =
        (length r.0 ≤ limit)
        ⊎ ((o : RenderOpts) × (o.table_limit ≡ 1)
            × (r.0 ≡ render o)
            × (r.1.dropped_rows ≡ pos total)
            × IsBare o
            × (limit < length r.0))

    one_row_over :
        (o : RenderOpts) (k total limit : ℕ) (r : ℕ × ℤ)
        → r.0 ≡ 1
        → r.1 ≡ pos total
        → is_within render limit (
            rows render
              (record o { truncation_note = note_for note label silent (floor_trim k (pos total)) })
              1)
          ≡ false
        → limit
          < length (
              render (record o {
                table_limit = r.0;
                truncation_note = note_for note label silent (floor_trim k r.1);
              }))
    one_row_over o k total limit r one all over =
        subst
          (λ (n : ℕ).
            limit
            < length (
                render (record o {
                  table_limit = n;
                  truncation_note = note_for note label silent (floor_trim k r.1);
                })))
          (sym one)
          (subst
            (λ (d : ℤ).
              limit
              < length (
                  render (record o {
                    table_limit = 1;
                    truncation_note = note_for note label silent (floor_trim k d);
                  })))
            (sym all) (ground (arith, over)))

    drop_rows-IsWithin :
        (o : RenderOpts) (k total limit : ℕ)
        → IsBare o
        → IsWithin limit total
            (drop_rows note label silent render o (floor_trim k (pos 0)) total limit)
    unfolding drop_rows IsCount
    drop_rows-IsWithin o k total limit bare =
        let probe = record o {
          truncation_note = note_for note label silent (floor_trim k (pos total));
        } in
        let r = fit_table render probe total limit in
        elim (fit_table-IsCount render probe total limit) [
          | inl (fits, some_row) ↦ inl (
              le_trans
                (grows (rows render probe r.0) (note_for note label silent (floor_trim k r.1))
                  (note_for note label silent (floor_trim k (pos total)))
                  (note_for_le label silent k r.1 (pos total) some_row))
                (ground (arith, fits)))
          | inr (one, all, over) ↦ inr (
            record (rows render probe r.0) {
              truncation_note = note_for note label silent (floor_trim k r.1);
            },
            one,
            refl,
            all,
            bare,
            one_row_over o k total limit r one all over,
          )
        ]

    drop_sections-IsWithin :
        (base : RenderOpts) (refs : List String) (total limit : ℕ)
        → IsWithin limit total (drop_sections note label silent render base refs total limit)
    unfolding drop_sections
    drop_sections-IsWithin base refs total limit =
        if_cases (IsWithin limit total) _ _ _ (λ e. inl (leb_le _ limit e))
          (λ e.
            drop_rows-IsWithin _ _ total limit
              (if_cases IsBare _ _ _ (λ x. (refl, refl, refl)) (λ x. (refl, refl, refl))))

    fitting-IsWithin :
        (o : RenderOpts) (t : Trim) (next : Bytes × Trim) (limit total : ℕ)
        → IsWithin limit total next
        → IsWithin limit total (fitting render limit o t next)
    fitting-IsWithin o t next limit total h =
        if_cases (IsWithin limit total) (leb (length (render o)) limit) (render o, t) next
          (λ e. inl (leb_le _ limit e)) (λ e. h)

    -- Let a renderer not answer a longer body for a shorter note, nor `note` a longer note for shorter words, and let
    -- the table be that of the stacks themselves, as it is in every body but part 1 of a paginated board. Then
    -- what the ladder answers is within the limit; or it is a body with a table of one row, without the
    -- blob, the diff and the summaries, that even so is over the limit, and every row of the table is
    -- reported as dropped.
    pub descend_with_base-IsWithin :
        (order : StackOrder) (stacks : List StackSummary) (view sort_mode : String)
        (base : RenderOpts) (own : base.table_stacks_override ≡ none)
        → IsWithin
            (limit_of base)
            (length (table_stacks (table_source base stacks) view))
            (descend_with_base note label silent render order stacks view sort_mode base)
    unfolding descend_with_base
    descend_with_base-IsWithin order stacks view sort_mode base own =
        let within = λ (o : RenderOpts) (t : Trim) (next : Bytes × Trim).
          fitting-IsWithin o t next (limit_of base) (length (table_stacks stacks view)) in
        subst
          (λ own_stacks.
            IsWithin (limit_of base) (length (table_stacks own_stacks view))
              (descend_with_base note label silent render order stacks view sort_mode base))
          (table_source-own base stacks own)
          (within _ _ _ (
            within _ _ _ (
              within _ _ _ (
                within _ _ _ (
                  within _ _ _ (
                    drop_sections-IsWithin base (section_refs order stacks sort_mode)
                      (length (table_stacks stacks view)) (limit_of base)))))))
