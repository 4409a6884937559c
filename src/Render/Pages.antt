-- ===== src/Render/Pages.antt =====
-- internal/core/render/overflow.go: the parts of a board, each the body of a comment. The concrete renderer and its
-- ladder are the fields of a record, as in the code.
pub mod Bounded
use reeve.Prelude.{
  ℕ, zero, suc, ◌+◌, ◌-◌, ◌/◌, ◌%◌, Bool, true, false, not, ◌&&◌, ◌||◌, List, [], ◌∷◌, ◌++◌, map,
  Option, none, some, String, if◌then◌else◌, ltb, leb, ◌==◌, length, member, select, codes, Bytes,
  pos,
}
use reeve.Redact.{starts, bytes_eq}
use reeve.Render.{StackSummary, ref_of, github_comment_max_len, Trim, RenderOpts}
use reeve.Render.Ladder.{no_trim}
use reeve.Render.Split.{OverflowConfig, split_mode, max_parts_of, Stacks, drop, split_stacks}

-- `%d`.
abbrev pub decimal_from : ℕ → ℕ → Bytes
decimal_from zero n = []
decimal_from (suc k) n = elim (ltb n 10) [
  | true ↦ (48 + n) ∷ []
  | false ↦ decimal_from k (n / 10) ++ ((48 + n % 10) ∷ [])
]

abbrev pub decimal : ℕ → Bytes
decimal n = decimal_from (suc n) n

-- `strings.TrimSuffix`.
abbrev pub trim_suffix : Bytes → Bytes → Bytes
trim_suffix suffix [] = []
trim_suffix suffix (x ∷ s) =
    let rest = trim_suffix suffix s in if bytes_eq (x ∷ s) suffix then [] else x ∷ rest

-- `strings.Replace(body, old, new, 1)`.
abbrev pub replace_first : Bytes → Bytes → Bytes → Bytes
replace_first old new [] = if starts old [] then new else []
replace_first old new (x ∷ s) =
    let rest = replace_first old new s in
    if starts old (x ∷ s) then new ++ drop (length old) (x ∷ s) else x ∷ rest

unfoldable pub part_marker : Bytes → ℕ → Bytes
part_marker board_marker part =
    if leb part 1
    then board_marker
    else trim_suffix (codes " -->") board_marker
      ++ (codes ":part" ++ (decimal part ++ codes " -->"))

-- The bytes before the number: a rule, a line and a warning sign.
abbrev cap_head : Bytes
cap_head =
    (10 ∷ codes "---")
    ++ ((10 ∷ 10 ∷ codes "> ") ++ ((226 ∷ 154 ∷ 160 ∷ 239 ∷ 184 ∷ 143 ∷ []) ++ codes " **"))

abbrev pub cap_tail : Bytes
cap_tail =
    codes " omitted** past the comment limit for this board. Their detail is in the run log."
    ++ (10 ∷ [])

unfoldable pub over_cap_note : ℕ → Bytes
over_cap_note n =
    cap_head ++ (decimal n ++ ((if n == 1 then codes " stack" else codes " stacks") ++ cap_tail))

pub record BoardRenderer : Type 0 where
  pub render : Stacks → RenderOpts → Bytes
  pub descend : Stacks → RenderOpts → Bytes × Trim
  pub keep_full_plan : Bool
  pub sort_mode : String
  pub view : String

pub record Part : Type 0 where
  pub ordinal : ℕ
  pub marker : Bytes
  pub body : Bytes
  pub trim : Trim
  pub stacks : List String
  pub omitted_stacks : List String

-- The part of the last group that has a stack of a reference, 0 where there is none.
abbrev pub place_of : String → ℕ → ℕ → List Stacks → ℕ
place_of ref i found [] = found
place_of ref i found (g ∷ groups) =
    place_of ref (suc i) (if member ref (map ref_of g) then suc i else found) groups

abbrev pub placed : List Stacks → ℕ
placed [] = 0
placed (g ∷ groups) = length g + placed groups

-- `!placedRefs[stack.Ref()]`.
abbrev pub is_unplaced : List Stacks → StackSummary → Bool
is_unplaced groups s = place_of (ref_of s) 0 0 groups == 0

module _ (r : BoardRenderer) (all : Stacks) (cfg : OverflowConfig) (board_marker : Bytes) where
  abbrev pub budget : ℕ → ℕ → ℕ
  budget part total =
      if part == total || total == 0
      then github_comment_max_len - length (over_cap_note (length all))
      else github_comment_max_len

  abbrev pub growth : ℕ → ℕ
  growth part = length (part_marker board_marker part) - length board_marker

  abbrev planned_part : StackSummary → String × ℕ
  planned_part s = (ref_of s, max_parts_of cfg)

  -- A marker is not so long that no room is left for a body.
  unfoldable pub part_opts : ℕ → ℕ → RenderOpts
  part_opts part total = record {
    include_full_plan = r.keep_full_plan;
    include_diff = true;
    include_summary = true;
    error_budget = 0;
    keep_stacks = none;
    table_limit = 0;
    part = part;
    parts_total = (if total == 0 then max_parts_of cfg else total);
    suppress_table = ltb 1 part;
    table_stacks_override = (if part == 1 then some all else none);
    stack_parts = (if part == 1 then map planned_part all else []);
    comment_limit = budget part total - growth part;
    truncation_note = [];
  }

  unfoldable pub fits : Stacks → ℕ → ℕ → Bool
  fits group part total =
      let o = part_opts part total in leb (length (r.render group o)) o.comment_limit

  unfoldable pub groups_of : List Stacks
  groups_of = split_stacks fits all (split_mode cfg) r.sort_mode (max_parts_of cfg)

  module _ (groups : List Stacks) where
    abbrev pub over_cap : ℕ
    over_cap = length all - placed groups

    abbrev placed_part : StackSummary → String × ℕ
    placed_part s = (ref_of s, place_of (ref_of s) 0 0 groups)

    abbrev pub opts_of : ℕ → RenderOpts
    opts_of i = record (part_opts i (length groups)) { stack_parts = map placed_part all }

    -- The body of a part before its marker is put in, and what it had to drop.
    unfoldable pub rendered : ℕ → Stacks → Bytes × Trim
    rendered i g =
        let o = opts_of i in
        let body = r.render g o in
        if leb (length body) o.comment_limit
        then (body, record no_trim { dropped_full_plan = not r.keep_full_plan })
        else r.descend g o

    abbrev pub is_capped : ℕ → Bool
    is_capped i = i == length groups && ltb 0 over_cap

    unfoldable pub part_of : ℕ → Stacks → Part
    part_of i g =
        let body = (rendered i g).0 in
        let capped = if is_capped i then body ++ over_cap_note over_cap else body in
        record {
          ordinal = i;
          marker = part_marker board_marker i;
          body = replace_first board_marker (part_marker board_marker i) capped;
          trim = (rendered i g).1;
          stacks = map ref_of g;
          omitted_stacks =
              (if is_capped i then map ref_of (select (is_unplaced groups) all) else []);
        }

    abbrev pub parts_from : ℕ → List Stacks → List Part
    parts_from i [] = []
    parts_from i (g ∷ rest) = part_of i g ∷ parts_from (suc i) rest

  -- No part where the board is one comment.
  unfoldable pub paginate : List Part
  paginate = if leb (length groups_of) 1 then [] else parts_from groups_of 1 groups_of
