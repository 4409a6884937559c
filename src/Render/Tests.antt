-- ===== src/Render/Tests.antt =====
-- Runs of internal/core/render on small inputs, and the theorems at them.
use reeve.Prelude.{
  ℕ, zero, suc, ◌+◌, ◌*◌, ◌≤◌, ◌≡◌, refl, ◌⊎◌, Bool, true, false, List, [], ◌∷◌, ◌++◌, none, String,
  if◌then◌else◌, leb, ltb, arith, length, length-append, codes, Bytes, pos,
}
use reeve.Render.{
  Status, planned, blocked, error, StackSummary, Trim, RenderOpts, section_refs, omitted_phrase,
  take,
}
use reeve.Render.Search.{search, fit_sections, fit_table, kept, is_within}
use reeve.Render.Ladder.{with_short_errors, drop_rows, drop_sections, descend_with_base}
use reeve.Render.Within.{IsWithin, descend_with_base-IsWithin}
use reeve.Render.Honest.{sections_left, rows_left, IsTold, descend_with_base-IsTold}
use reeve.Render.Largest.{fit_sections_largest}
use reeve.Render.Split.{
  Stacks, divided, by_stack, by_group, sorted, distribute, overflows, pack_from, packed_from,
  split_by_capacity, divided_from, split_by_group, split_stacks,
}
use reeve.Render.Split.Parts.{IsDivision}
use reeve.Render.Pages.{BoardRenderer, part_marker, over_cap_note, groups_of, paginate}
use reeve.Render.Pages.Bounded.{HasRoom, all_kept, paginate_bounded}
use reeve.Render.Split.{OverflowConfig}
use reeve.Render.Split.Placed.{tally, split_stacks-IsDivision}

abbrev copies : ℕ → Bytes
copies zero = []
copies (suc n) = 120 ∷ copies n

-- A renderer of three stacks, with 40 bytes for a section and 20 for a row.
abbrev sample : RenderOpts → Bytes
sample o =
    o.truncation_note
    ++ copies (
        (if o.include_full_plan then 300 else 0)
        + (if o.include_diff then 300 else 0)
        + (if o.include_summary then 300 else 0)
        + (if ltb 0 o.error_budget then 0 else 300)
        + 40 * sections_left o ("net/a" ∷ "net/b" ∷ "net/c" ∷ [])
        + 20 * rows_left o.table_limit 3)

abbrev plain : Bytes → Bytes
plain p = p

plain_noted : (p q : Bytes) → length p ≤ length q → length (plain p) ≤ length (plain q)
plain_noted p q le = le

sample_grows :
    (o : RenderOpts) (p q : Bytes)
    → length p ≤ length q
    → length (sample (record o { truncation_note = p }))
      ≤ length (sample (record o { truncation_note = q }))
sample_grows o p q le =
    let rest = sample (record o { truncation_note = [] }) in
    omega (arith, length-append p rest, length-append q rest)

abbrev stack_of : String → Status → StackSummary
stack_of name status = record { project = "net"; stack = name; status = status }

abbrev three : Stacks
three = stack_of "b" planned ∷ stack_of "c" error ∷ stack_of "a" blocked ∷ []

abbrev base_of : ℕ → RenderOpts
base_of limit = record {
  include_full_plan = false;
  include_diff = false;
  include_summary = false;
  error_budget = 0;
  keep_stacks = none;
  table_limit = 0;
  part = 0;
  parts_total = 0;
  suppress_table = false;
  table_stacks_override = none;
  stack_parts = [];
  comment_limit = limit;
  truncation_note = [];
}

abbrev descended : ℕ → Bytes × Trim
descended limit =
    descend_with_base plain (codes "engine output") true sample sorted three "all" ""
      (base_of limit)

-- Two sections of 40 bytes and three rows of 20 fit under a note of 67 bytes.
one_section_dropped : (descended 210).1 ≡ record with_short_errors { dropped_sections = 1 }
unfolding descend_with_base drop_sections fit_sections search omitted_phrase sorted
one_section_dropped = refl

one_row_left :
    (descended 125).1 ≡ record with_short_errors { dropped_sections = 3; dropped_rows = pos 1 }
unfolding descend_with_base drop_sections drop_rows fit_sections fit_table search omitted_phrase
    sorted
one_row_left = refl

descend_with_base-IsWithin_example :
    IsWithin plain plain_noted sample sample_grows
      (codes "engine output")
      true
      210
      3
      (descended 210)
descend_with_base-IsWithin_example =
    descend_with_base-IsWithin plain plain_noted sample sample_grows (codes "engine output") true
      sorted three "all" "" (base_of 210) refl

descend_with_base-IsTold_example :
    IsTold plain
      (codes "engine output")
      true
      (section_refs sorted three "")
      3
      sample
      (descended 125)
descend_with_base-IsTold_example =
    descend_with_base-IsTold plain (codes "engine output") true sample sorted three "all" ""
      (base_of 125) refl

abbrev refs : List String
refs = "net/a" ∷ "net/b" ∷ "net/c" ∷ []

length-copies : (n : ℕ) → length (copies n) ≡ n
length-copies zero = refl
length-copies (suc n) = omega (arith, length-copies n)

length-take-le : (m n : ℕ) (xs : List String) → m ≤ n → length (take m xs) ≤ length (take n xs)
length-take-le zero n xs le = omega arith
length-take-le (suc m) zero xs le = omega arith
length-take-le (suc m) (suc n) [] le = omega arith
length-take-le (suc m) (suc n) (x ∷ xs) le = omega (arith, length-take-le m n xs (omega arith))

sections_grow :
    (m n : ℕ)
    → m ≤ n
    → length (sample (kept sample (base_of 0) refs m))
      ≤ length (sample (kept sample (base_of 0) refs n))
sections_grow m n le = omega (
  arith,
  length-copies (300 + 40 * length (take m refs) + 60),
  length-copies (300 + 40 * length (take n refs) + 60),
  length-take-le m n refs le,
)

fit_sections_largest_example :
    ((fit_sections sample (base_of 0) refs 450 ≡ 0)
      ⊎ (is_within sample 450
            (kept sample (base_of 0) refs (fit_sections sample (base_of 0) refs 450))
          ≡ true))
    × ((m : ℕ)
        → m ≤ length refs
        → is_within sample 450 (kept sample (base_of 0) refs m) ≡ true
        → m ≤ fit_sections sample (base_of 0) refs 450)
fit_sections_largest_example = fit_sections_largest sample (base_of 0) refs 450 sections_grow

two_sections : fit_sections sample (base_of 0) refs 450 ≡ 2
unfolding fit_sections search
two_sections = refl

-- Groups fit of at most two stacks.
abbrev pairs : Stacks → ℕ → ℕ → Bool
pairs g part total = leb (length g) 2

in_pairs :
    split_stacks pairs three divided "" 10
    ≡ (stack_of "a" blocked ∷ stack_of "b" planned ∷ []) ∷ (stack_of "c" error ∷ []) ∷ []
unfolding split_stacks divided_from distribute sorted
in_pairs = refl

one_part :
    split_stacks pairs three by_stack "" 1 ≡ (stack_of "a" blocked ∷ stack_of "b" planned ∷ []) ∷ []
unfolding split_stacks split_by_capacity packed_from pack_from overflows sorted
one_part = refl

by_status :
    split_stacks pairs three by_group "" 2
    ≡ (stack_of "c" error ∷ []) ∷ (stack_of "a" blocked ∷ []) ∷ []
unfolding split_stacks split_by_group sorted
by_status = refl

split_stacks-IsDivision_example :
    IsDivision pairs 2 (sorted three "") (split_stacks pairs three divided "" 2)
    × ((q : StackSummary → Bool) → tally q (sorted three "") ≡ tally q three)
split_stacks-IsDivision_example =
    split_stacks-IsDivision pairs three divided "" 2 refl (omega arith)

-- A board whose stacks are 30,000 bytes each with their diffs, and 100 without.
abbrev marker_text : Bytes
marker_text = codes "<!-- b -->"

abbrev board_body : Stacks → RenderOpts → Bytes
board_body g o = marker_text ++ copies ((if o.include_diff then 30000 else 100) * length g)

abbrev board_renderer : BoardRenderer
board_renderer = record {
  render = board_body;
  descend = λ g o.
      descend_with_base plain (codes "engine output") true (board_body g) sorted g "all" "" o;
  keep_full_plan = false;
  sort_mode = "";
  view = "all";
}

abbrev two_parts : OverflowConfig
two_parts = record { mode = "continue"; split = "stack"; max_parts = 2 }

has_room : (i : ℕ) → i ≤ 2 → HasRoom board_renderer three two_parts marker_text i
unfolding part_marker over_cap_note
has_room zero le = omega arith
has_room (suc zero) le = omega arith
has_room (suc (suc zero)) le = omega arith
has_room (suc (suc (suc i))) le = omega arith

abbrev three_groups : List Stacks
three_groups = groups_of board_renderer three two_parts marker_text

paginate_bounded_example :
    ((length three_groups ≤ 1) × (paginate board_renderer three two_parts marker_text ≡ []))
    ⊎ (all_kept board_renderer three two_parts marker_text three_groups 1 three_groups
          (paginate board_renderer three two_parts marker_text)
        ≡ true)
paginate_bounded_example = paginate_bounded board_renderer three two_parts marker_text has_room
