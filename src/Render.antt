-- ===== src/Render.antt =====
-- internal/core/render: what a comment of bounded size leaves out. A stack has the fields that trimming and
-- splitting read; a text whose length counts is its bytes.
pub mod Search
pub mod Ladder
pub mod Within
pub mod Honest
pub mod Largest
pub mod Split
pub mod Pages
mod Tests
use reeve.Prelude.{
  ◌≡◌, ap, sym, ℕ, zero, suc, ◌-◌, Bool, true, false, not, ◌&&◌, ◌||◌, List, [], ◌∷◌, ◌++◌, map,
  Option, none, some, String, if◌then◌else◌, ltb, leb, ◌==◌, append, codes, length, is_empty,
  member, select, Bytes, ℤ, pos, negsuc, is_positive, str_eq,
}

pub data Status : Type 0 where
  planned no_op blocked error : Status

pub record StackSummary : Type 0 where
  pub project : String
  pub stack : String
  pub status : Status

abbrev pub ref_of : StackSummary → String
ref_of s = append s.project (append "/" s.stack)

abbrev pub is_no_op : Status → Bool
is_no_op no_op = true
is_no_op _ = false

abbrev pub has_changes : StackSummary → Bool
has_changes s = not (is_no_op s.status)

abbrev pub github_comment_max_len : ℕ
github_comment_max_len = 65000

abbrev pub per_stack_error_budget : ℕ
per_stack_error_budget = 2000

-- What a renderer had to drop.
pub record Trim : Type 0 where
  pub dropped_full_plan : Bool
  pub dropped_diff : Bool
  pub dropped_summary : Bool
  pub clamped_errors : Bool
  pub dropped_sections : ℕ
  pub dropped_rows : ℤ

abbrev pub is_lost : Trim → Bool
is_lost t =
    t.dropped_diff
    || t.dropped_summary
    || t.clamped_errors
    || ltb 0 t.dropped_sections
    || is_positive t.dropped_rows

-- `keepStacks` is the list of its references; `stackParts` that of its entries.
pub record RenderOpts : Type 0 where
  pub include_full_plan : Bool
  pub include_diff : Bool
  pub include_summary : Bool
  pub error_budget : ℕ
  pub keep_stacks : Option (List String)
  pub table_limit : ℕ
  pub part : ℕ
  pub parts_total : ℕ
  pub suppress_table : Bool
  pub table_stacks_override : Option (List StackSummary)
  pub stack_parts : List (String × ℕ)
  pub comment_limit : ℕ
  pub truncation_note : Bytes

abbrev pub table_source : RenderOpts → List StackSummary → List StackSummary
table_source o own = elim o.table_stacks_override [ none ↦ own | some stacks ↦ stacks ]

pub table_source-own :
    (o : RenderOpts) (own : List StackSummary)
    → o.table_stacks_override ≡ none
    → own ≡ table_source o own
table_source-own o own e =
    ap (λ (x : Option (List StackSummary)). elim x [ none ↦ own | some stacks ↦ stacks ]) (sym e)

abbrev pub is_paginated : RenderOpts → Bool
is_paginated o = ltb 1 o.parts_total

abbrev pub section_rendered : RenderOpts → String → Bool
section_rendered o ref = elim o.keep_stacks [ none ↦ true | some refs ↦ member ref refs ]

-- The bytes of the note about an error that was cut: a line break, an ellipsis of three bytes and a text.
abbrev pub error_note : Bytes
error_note = 10 ∷ 226 ∷ 128 ∷ 166 ∷ codes " error truncated; see the run log."

abbrev pub take : {A : Type 0} → ℕ → List A → List A
take zero xs = []
take (suc n) [] = []
take (suc n) (x ∷ xs) = x ∷ take n xs

-- `cut` is 0 where the note alone is over the budget.
unfoldable pub clamp_error : RenderOpts → Bytes → Bytes
clamp_error o msg =
    if o.error_budget == 0 || leb (length msg) o.error_budget
    then msg
    else take (o.error_budget - length error_note) msg ++ error_note

-- `tableStacks`; the view is "changed" or another text.
abbrev pub table_stacks : List StackSummary → String → List StackSummary
table_stacks stacks view = if str_eq view "changed" then select has_changes stacks else stacks

abbrev pub StackOrder : Type 0
StackOrder = List StackSummary → String → List StackSummary

-- The rows of the table, and how many are held back.
unfoldable pub table_rows :
    StackOrder → List StackSummary → String → String → ℕ → List StackSummary × ℕ
table_rows order stacks view sort_mode limit =
    let rows = order (table_stacks stacks view) sort_mode in
    if ltb 0 limit && ltb limit (length rows)
    then (take limit rows, length rows - limit)
    else (rows, 0)

abbrev pub section_refs : StackOrder → List StackSummary → String → List String
section_refs order stacks sort_mode = map ref_of (select has_changes (order stacks sort_mode))

-- Each with the separator before it.
abbrev pub joined_tail : Bytes → List Bytes → Bytes
joined_tail sep [] = []
joined_tail sep (x ∷ xs) = sep ++ (x ++ joined_tail sep xs)

-- `strings.Join`.
abbrev pub join : Bytes → List Bytes → Bytes
join sep [] = []
join sep (x ∷ xs) = x ++ joined_tail sep xs

abbrev pub when : Bool → Bytes → List Bytes
when b text = if b then text ∷ [] else []

abbrev pub dropped_of : Trim → Bytes → Bool → List Bytes
dropped_of t full_plan_label silent_full_plan =
    when (t.dropped_full_plan && not silent_full_plan) full_plan_label
    ++ (when t.dropped_diff (codes "per-stack diff")
        ++ when t.dropped_summary (codes "plan summaries"))

abbrev pub shortened_of : Trim → List Bytes
shortened_of t =
    when t.clamped_errors (codes "errors shortened")
    ++ (when (ltb 0 t.dropped_sections) (codes "some stack detail")
        ++ when (is_positive t.dropped_rows) (codes "some table rows"))

unfoldable pub omitted_phrase : Trim → Bytes → Bool → Bytes
omitted_phrase t full_plan_label silent_full_plan =
    let phrase = join (codes ", ") (dropped_of t full_plan_label silent_full_plan) in
    let shortened = shortened_of t in
    if is_empty shortened
    then phrase
    else (if is_empty phrase then phrase else phrase ++ codes "; ") ++ join (codes "; ") shortened
