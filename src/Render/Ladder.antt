-- ===== src/Render/Ladder.antt =====
-- internal/core/render/trim.go: the ladder. A renderer is an argument, as in the code.
use reeve.Prelude.{
  ℕ, ◌-◌, Bool, true, false, List, [], none, String, if◌then◌else◌, ltb, leb, ◌==◌, length,
  is_empty, Bytes, pos,
}
use reeve.Render.{
  StackSummary, github_comment_max_len, per_stack_error_budget, Trim, RenderOpts, table_stacks,
  StackOrder, section_refs, omitted_phrase,
}
use reeve.Render.Search.{kept, rows, fit_sections, fit_table}

abbrev pub no_trim : Trim
no_trim = record {
  dropped_full_plan = false;
  dropped_diff = false;
  dropped_summary = false;
  clamped_errors = false;
  dropped_sections = 0;
  dropped_rows = pos 0;
}

abbrev pub without_full_plan : Trim
without_full_plan = record no_trim { dropped_full_plan = true }

abbrev pub without_diff : Trim
without_diff = record without_full_plan { dropped_diff = true }

abbrev pub without_summary : Trim
without_summary = record without_diff { dropped_summary = true }

abbrev pub with_short_errors : Trim
with_short_errors = record without_summary { clamped_errors = true }

abbrev pub limit_of : RenderOpts → ℕ
limit_of base = if base.comment_limit == 0 then github_comment_max_len else base.comment_limit

-- `with`: the options of a rung on those of the caller.
abbrev pub rung : RenderOpts → Bool → Bool → Bool → ℕ → Bytes → RenderOpts
rung base full diff summary budget text = record base {
  include_full_plan = full;
  include_diff = diff;
  include_summary = summary;
  error_budget = budget;
  keep_stacks = none;
  table_limit = 0;
  truncation_note = text;
}

-- A body, if it is within the limit, or what the next rungs answer.
abbrev pub fitting : (RenderOpts → Bytes) → ℕ → RenderOpts → Trim → Bytes × Trim → Bytes × Trim
fitting render limit o t next = if leb (length (render o)) limit then (render o, t) else next

module _ (note : Bytes → Bytes) (full_plan_label : Bytes) (silent_full_plan : Bool) where
  abbrev pub note_for : Trim → Bytes
  note_for t =
      let phrase = omitted_phrase t full_plan_label silent_full_plan in
      if is_empty phrase then [] else note phrase

  module _ (render : RenderOpts → Bytes) where
    -- Rung 6. The options are those of rung 5.
    unfoldable pub drop_rows : RenderOpts → Trim → ℕ → ℕ → Bytes × Trim
    drop_rows o t total limit =
        let probe = record o {
          truncation_note = note_for (record t { dropped_rows = pos total });
        } in
        let (n, dropped) = fit_table render probe total limit in
        let trim = record t { dropped_rows = dropped } in
        (render (record (rows render probe n) { truncation_note = note_for trim }), trim)

    -- Rung 5, and 6 where it does not fit.
    unfoldable pub drop_sections : RenderOpts → List String → ℕ → ℕ → Bytes × Trim
    drop_sections base refs total limit =
        let probe =
          rung base false false false per_stack_error_budget
            (note_for (record with_short_errors { dropped_sections = length refs })) in
        let n = fit_sections render probe refs limit in
        let dropped = length refs - n in
        let trim = record with_short_errors { dropped_sections = dropped } in
        let o = kept render probe refs n in
        let final = if ltb 0 dropped then record o { truncation_note = note_for trim } else o in
        let body = render final in
        if leb (length body) limit then (body, trim) else drop_rows final trim total limit

    unfoldable pub descend_with_base :
        StackOrder → List StackSummary → String → String → RenderOpts → Bytes × Trim
    descend_with_base order stacks view sort_mode base =
        let limit = limit_of base in
        fitting render limit (rung base true true true 0 []) no_trim (
          fitting render limit (rung base false true true 0 (note_for without_full_plan))
            without_full_plan
            (fitting render limit (rung base false false true 0 (note_for without_diff))
              without_diff
              (fitting render limit (rung base false false false 0 (note_for without_summary))
                without_summary
                (fitting render limit
                  (rung base false false false per_stack_error_budget (note_for with_short_errors))
                  with_short_errors
                  (drop_sections base (section_refs order stacks sort_mode)
                    (length (table_stacks stacks view)) limit)))))
