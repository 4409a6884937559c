-- ===== src/Render/Split.antt =====
-- internal/core/render/overflow.go: how the stacks of a board are divided into parts, one a comment. Whether
-- stacks fit as one of so many parts is an argument, as in the code.
pub mod Parts
pub mod Even
pub mod Placed
use reeve.Prelude.{
  ℕ, zero, suc, ◌+◌, ◌-◌, ◌/◌, ◌%◌, Bool, true, false, not, ◌&&◌, ◌||◌, List, [], ◌∷◌, ◌++◌, String,
  if◌then◌else◌, ltb, leb, ◌==◌, length, is_empty, select, str_eq,
}
use reeve.Discovery.Declared.{str_lt}
use reeve.Render.{Status, planned, no_op, blocked, error, StackSummary, ref_of, take}

pub record OverflowConfig : Type 0 where
  pub mode : String
  pub split : String
  pub max_parts : ℕ

abbrev pub default_max_parts : ℕ
default_max_parts = 10

abbrev pub is_enabled : OverflowConfig → Bool
is_enabled c = str_eq c.mode "continue"

pub data SplitMode : Type 0 where
  divided by_stack by_group : SplitMode

abbrev pub split_mode : OverflowConfig → SplitMode
split_mode c =
    if str_eq c.split "stack"
    then by_stack
    else (if str_eq c.split "group" then by_group else divided)

abbrev pub max_parts_of : OverflowConfig → ℕ
max_parts_of c = if ltb 0 c.max_parts then c.max_parts else default_max_parts

abbrev pub rank : Status → ℕ
rank blocked = 0
rank planned = 1
rank error = 2
rank no_op = 3

-- The order of `sorted`.
abbrev pub comes_before : String → StackSummary → StackSummary → Bool
comes_before mode a b =
    if str_eq mode "alphabetical" || rank a.status == rank b.status
    then str_lt (ref_of a) (ref_of b)
    else ltb (rank a.status) (rank b.status)

abbrev pub insert_sorted : String → StackSummary → List StackSummary → List StackSummary
insert_sorted mode s [] = s ∷ []
insert_sorted mode s (t ∷ ts) =
    let rest = insert_sorted mode s ts in if comes_before mode t s then t ∷ rest else s ∷ t ∷ ts

-- `sorted`: `sort.SliceStable`, and `sort.Slice`, which leaves the order of equal references open.
unfoldable pub sorted : List StackSummary → String → List StackSummary
sorted [] mode = []
sorted (s ∷ ss) mode = insert_sorted mode s (sorted ss mode)

abbrev pub Stacks : Type 0
Stacks = List StackSummary

abbrev pub drop : {A : Type 0} → ℕ → List A → List A
drop zero xs = xs
drop (suc n) [] = []
drop (suc n) (x ∷ xs) = drop n xs

-- The loop of `distribute` from group i on, over what is left.
abbrev pub deal : ℕ → ℕ → ℕ → ℕ → Stacks → List Stacks
deal zero i base extra items = []
deal (suc n) i base extra items =
    let size = if ltb i extra then suc base else base in
    take size items ∷ deal n (suc i) base extra (drop size items)

unfoldable pub distribute : Stacks → ℕ → List Stacks
distribute items n =
    if leb n 1 then items ∷ [] else deal n 0 (length items / n) (length items % n) items

module _ (fits : Stacks → ℕ → ℕ → Bool) where
  -- Whether a stack is too much for the group that is being filled.
  unfoldable pub overflows : ℕ → List Stacks → Stacks → StackSummary → Bool
  overflows total groups cur s =
      not (is_empty cur) && not (fits (cur ++ (s ∷ [])) (suc (length groups)) total)

  -- `pack`, from a stack on: the groups that are closed, and the one that is being filled.
  unfoldable pub pack_from : ℕ → ℕ → List Stacks → Stacks → Stacks → List Stacks
  pack_from max_parts total groups cur [] = if is_empty cur then groups else groups ++ (cur ∷ [])
  pack_from max_parts total groups cur (s ∷ ordered) =
      let trial = cur ++ (s ∷ []) in
      let is_over = overflows total groups cur s in
      let closed = groups ++ (cur ∷ []) in
      let rest =
        pack_from max_parts total (if is_over then closed else groups)
          (if is_over then s ∷ [] else trial) ordered in
      if is_over && leb max_parts (suc (length groups)) then closed else rest

  abbrev pub pack : ℕ → Stacks → ℕ → List Stacks
  pack max_parts ordered total = pack_from max_parts total [] [] ordered

  -- The loop to a fixed point, on as many rounds as are left.
  unfoldable pub packed_from : ℕ → ℕ → Stacks → ℕ → List Stacks
  packed_from zero max_parts ordered total = pack max_parts ordered total
  packed_from (suc n) max_parts ordered total =
      let groups = pack max_parts ordered total in
      let rest = packed_from n max_parts ordered (length groups) in
      if leb (length groups) 1 || length groups == total then groups else rest

  unfoldable pub split_by_capacity : Stacks → ℕ → List Stacks
  split_by_capacity ordered max_parts = packed_from (suc max_parts) max_parts ordered 1

  -- Whether every group fits, the first as part i.
  abbrev pub all_fit : List Stacks → ℕ → ℕ → Bool
  all_fit [] i total = true
  all_fit (g ∷ groups) i total = fits g i total && all_fit groups (suc i) total

  -- The loop of `splitDivided`, from a number of parts on.
  unfoldable pub divided_from : ℕ → ℕ → Stacks → ℕ → List Stacks
  divided_from zero total ordered max_parts = split_by_capacity ordered max_parts
  divided_from (suc n) total ordered max_parts =
      let groups = distribute ordered total in
      let rest = divided_from n (suc total) ordered max_parts in
      if all_fit groups 1 total then groups else rest

  abbrev pub split_divided : Stacks → ℕ → List Stacks
  split_divided ordered max_parts = divided_from max_parts 1 ordered max_parts

  abbrev pub is_status : Status → StackSummary → Bool
  is_status st s = rank s.status == rank st

  -- One round of the loop over the statuses. Where no part is left, a budget below 0 and one of 0 leave one group.
  abbrev pub add_bucket : ℕ → Stacks → Status → List Stacks → List Stacks
  add_bucket max_parts all st groups =
      let b = select (is_status st) all in
      if is_empty b
      then groups
      else (if fits b (suc (length groups)) 0
          then groups ++ (b ∷ [])
          else groups ++ split_by_capacity b (max_parts - length groups))

  unfoldable pub split_by_group : Stacks → String → ℕ → List Stacks
  split_by_group stacks sort_mode max_parts =
      let all = sorted stacks sort_mode in
      let add = add_bucket max_parts all in
      take max_parts (add no_op (add planned (add blocked (add error []))))

  unfoldable pub split_stacks : Stacks → SplitMode → String → ℕ → List Stacks
  split_stacks stacks by_group sort_mode max_parts = split_by_group stacks sort_mode max_parts
  split_stacks stacks by_stack sort_mode max_parts =
      split_by_capacity (sorted stacks sort_mode) max_parts
  split_stacks stacks divided sort_mode max_parts =
      split_divided (sorted stacks sort_mode) max_parts
