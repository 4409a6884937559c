-- ===== src/Render/Honest.antt =====
-- internal/core/render/trim.go: what the ladder reports is what it did.
use reeve.Prelude.{
  subst, ℕ, zero, suc, ap, ◌+◌, ◌-◌, ◌&&◌, ◌≤◌, ◌≡◌, refl, ◌⊎◌, inl, inr, Bool, true, false, not,
  List, [], ◌∷◌, none, some, String, if◌then◌else◌, ltb, leb, arith, length, if_cases, Bytes, ℤ,
  pos, pos_part,
}
use reeve.Render.{
  StackSummary, Trim, RenderOpts, table_source, table_source-own, per_stack_error_budget, take,
  table_stacks, StackOrder, section_refs, omitted_phrase,
}
use reeve.Render.Search.{
  kept, rows, is_within, minus, fit_sections, fit_table, search, search_found, search_one,
}
use reeve.Render.Ladder.{
  with_short_errors, limit_of, note_for, rung, drop_rows, drop_sections, fitting, descend_with_base,
}

-- How many of the sections are rendered.
abbrev pub sections_left : RenderOpts → List String → ℕ
sections_left o refs = elim o.keep_stacks [ none ↦ length refs | some left ↦ length left ]

-- How many of the rows of a table are rendered.
abbrev pub rows_left : ℕ → ℕ → ℕ
rows_left table_limit total =
    if ltb 0 table_limit && ltb table_limit total then table_limit else total

length-take : {A : Type 0} (n : ℕ) (xs : List A) → n ≤ length xs → length (take n xs) ≡ n
length-take zero xs le = refl
length-take (suc n) [] le = omega arith
length-take (suc n) (x ∷ xs) le = ap suc (length-take n xs (omega arith))

fit_sections_le :
    (render : RenderOpts → Bytes) (base : RenderOpts) (refs : List String) (limit : ℕ)
    → fit_sections render base refs limit ≤ length refs
unfolding fit_sections
fit_sections_le render base refs limit =
    (search_found (λ n. is_within render limit (kept render base refs n)) 0 (length refs)
      (length refs) (omega arith) (omega arith)).below

rows_minus :
    (total n : ℕ)
    → (1 ≤ n) × ((n ≤ total) ⊎ (total ≡ 0))
    → rows_left n total + pos_part (minus total n) ≡ total
rows_minus total n (one, inl le) = ground arith
rows_minus total n (one, inr e) = ground arith

search_one_le :
    (fits : ℕ → Bool) (total : ℕ)
    → (1 ≤ search fits total 1 total) × ((search fits total 1 total ≤ total) ⊎ (total ≡ 0))
unfolding search
search_one_le fits zero = (omega arith, inr refl)
search_one_le fits (suc n) =
    let found = search_found fits 1 (suc n) (suc n) (omega arith) (omega arith) in
    (found.above, inl found.below)

-- The rows that are left and those that are reported as dropped.
abbrev pub IsRowCount : ℕ → ℕ × ℤ → Type 0
IsRowCount total r = (rows_left r.0 total + pos_part r.1 ≡ total) ⊎ ((r.0 ≡ 1) × (r.1 ≡ pos total))

rows_told :
    (render : RenderOpts → Bytes) (base : RenderOpts) (total limit : ℕ)
    → IsRowCount total (fit_table render base total limit)
unfolding fit_table
rows_told render base total limit =
    let fits = λ (n : ℕ). is_within render limit (rows render base n) in
    let lo = search fits total 1 total in
    if_cases (IsRowCount total) (fits lo) (lo, minus total lo) (lo, pos total)
      (λ e. inl (rows_minus total lo (search_one_le fits total)))
      (λ e.
        inr (elim (search_one fits total) [ inl one ↦ one | inr f ↦ ground (arith, e, f) ], refl))

abbrev trim_of : Bool → Bool → Bool → Bool → Trim
trim_of a b c d = record {
  dropped_full_plan = a;
  dropped_diff = b;
  dropped_summary = c;
  clamped_errors = d;
  dropped_sections = 0;
  dropped_rows = pos 0;
}

module _ (note : Bytes → Bytes) (label : Bytes) (silent : Bool) (refs : List String)
    (total : ℕ) where
  -- What a trim tells of a body's options.
  pub record IsHonest (o : RenderOpts) (t : Trim) : Type 0 where
    pub full_plan : o.include_full_plan ≡ not t.dropped_full_plan
    pub diff : o.include_diff ≡ not t.dropped_diff
    pub plan_summary : o.include_summary ≡ not t.dropped_summary
    pub errors : o.error_budget ≡ (if t.clamped_errors then per_stack_error_budget else 0)
    pub sections : sections_left o refs + t.dropped_sections ≡ length refs
    pub table : IsRowCount total (o.table_limit, t.dropped_rows)
    pub words : (o.truncation_note ≡ note_for note label silent t) ⊎ (t ≡ with_short_errors)

  -- A rung that drops no section and no row.
  agrees_early :
      (base : RenderOpts) (a b c d : Bool)
      → IsHonest
          (rung base
            (not a)
            (not b)
            (not c)
            (if d then per_stack_error_budget else 0)
            (note_for note label silent (trim_of a b c d)))
          (trim_of a b c d)
  agrees_early base a b c d = record {
    full_plan = refl;
    diff = refl;
    plan_summary = refl;
    errors = refl;
    sections = omega arith;
    table = inl (omega arith);
    words = inl refl;
  }

  -- The options of rung 5.
  agrees_late :
      (o : RenderOpts) (n : ℕ)
      → n ≤ length refs
      → (o.include_full_plan ≡ false)
        × (o.include_diff ≡ false)
        × (o.include_summary ≡ false)
        × (o.error_budget ≡ per_stack_error_budget)
        × (o.keep_stacks ≡ some (take n refs))
        × (o.table_limit ≡ 0)
      → (o.truncation_note
          ≡ note_for note label silent
              (record with_short_errors { dropped_sections = length refs - n }))
        ⊎ (record with_short_errors { dropped_sections = length refs - n } ≡ with_short_errors)
      → IsHonest o (record with_short_errors { dropped_sections = length refs - n })
  agrees_late o n le (f, d, s, b, k, r) w = record {
    full_plan = f;
    diff = d;
    plan_summary = s;
    errors = b;
    sections = rw k (omega (arith, length-take n refs le));
    table = inl (rw r (omega arith));
    words = w;
  }

  module _ (render : RenderOpts → Bytes) where
    abbrev pub IsTold : Bytes × Trim → Type 0
    IsTold r = (o : RenderOpts) × (r.0 ≡ render o) × IsHonest o r.1

    fitting-IsTold :
        (limit : ℕ) (o : RenderOpts) (t : Trim) (next : Bytes × Trim)
        → IsHonest o t
        → IsTold next
        → IsTold (fitting render limit o t next)
    fitting-IsTold limit o t next h told =
        if_cases IsTold (leb (length (render o)) limit) (render o, t) next (λ e. (o, refl, h))
          (λ e. told)

    drop_rows-IsTold :
        (o : RenderOpts) (k limit : ℕ)
        → IsHonest o (record with_short_errors { dropped_sections = k })
        → IsTold (
            drop_rows note label silent render o
              (record with_short_errors { dropped_sections = k })
              total
              limit)
    unfolding drop_rows
    drop_rows-IsTold o k limit h =
        let probe = record o {
          truncation_note =
              note_for note label silent
                (record with_short_errors { dropped_sections = k; dropped_rows = pos total });
        } in
        let r = fit_table render probe total limit in
        (
          record (rows render probe r.0) {
            truncation_note =
                note_for note label silent
                  (record with_short_errors { dropped_sections = k; dropped_rows = r.1 });
          },
          refl,
          record {
            full_plan = h.full_plan;
            diff = h.diff;
            plan_summary = h.plan_summary;
            errors = h.errors;
            sections = h.sections;
            table = rows_told render probe total limit;
            words = inl refl;
          },
        )

    drop_sections-IsTold :
        (base : RenderOpts) (limit : ℕ)
        → IsTold (drop_sections note label silent render base refs total limit)
    unfolding drop_sections
    drop_sections-IsTold base limit =
        let probe = rung base false false false per_stack_error_budget (
          note_for note label silent
            (record with_short_errors { dropped_sections = length refs })) in
        let n = fit_sections render probe refs limit in
        let dropped = length refs - n in
        let trim = record with_short_errors { dropped_sections = dropped } in
        let o = kept render probe refs n in
        let le = fit_sections_le render probe refs limit in
        let noted = record o { truncation_note = note_for note label silent trim } in
        let final = if ltb 0 dropped then noted else o in
        let honest =
          if_cases (λ x. IsHonest x trim) (ltb 0 dropped) noted o
            (λ e. agrees_late noted n le (refl, refl, refl, refl, refl, refl) (inl refl))
            (λ e.
              agrees_late o n le (refl, refl, refl, refl, refl, refl)
                (inr
                  (ap (λ k. record with_short_errors { dropped_sections = k }) (ground arith)))) in
        if_cases IsTold (leb (length (render final)) limit) (render final, trim)
          (drop_rows note label silent render final trim total limit) (λ e. (final, refl, honest))
          (λ e. drop_rows-IsTold final dropped limit honest)

-- Let the table be that of the stacks themselves, as it is in every body but part 1 of a paginated board. Then what
-- the ladder answers is a body with options that its report tells: the blob, the diff and the summaries are
-- in it unless they are reported as dropped, errors are cut exactly if that is reported, the sections that
-- are left and those that are reported as dropped are all the sections, and so are the rows, unless a
-- table of one row is said to have none. The note is that of the report, unless errors are cut and nothing
-- behind that is dropped.
pub descend_with_base-IsTold :
    (note : Bytes → Bytes) (label : Bytes) (silent : Bool) (render : RenderOpts → Bytes)
    (order : StackOrder) (stacks : List StackSummary) (view sort_mode : String) (base : RenderOpts)
    (own : base.table_stacks_override ≡ none)
    → IsTold note label silent
        (section_refs order stacks sort_mode)
        (length (table_stacks (table_source base stacks) view))
        render
        (descend_with_base note label silent render order stacks view sort_mode base)
unfolding descend_with_base omitted_phrase
descend_with_base-IsTold note label silent render order stacks view sort_mode base own =
    let refs = section_refs order stacks sort_mode in
    let total = length (table_stacks stacks view) in
    let told = fitting-IsTold note label silent refs total render (limit_of base) in
    let honest = agrees_early note label silent refs total base in
    subst
      (λ own_stacks.
        IsTold note label silent refs (length (table_stacks own_stacks view)) render
          (descend_with_base note label silent render order stacks view sort_mode base))
      (table_source-own base stacks own)
      (told _ _ _ (honest false false false false) (
        told _ _ _ (honest true false false false) (
          told _ _ _ (honest true true false false) (
            told _ _ _ (honest true true true false) (
              told _ _ _ (honest true true true true)
                (drop_sections-IsTold note label silent refs total render base (limit_of base)))))))
