-- ===== src/Approvals.antt =====
-- internal/core/approvals/rules.go: the data of approval rules, and how logins are matched. A Go map
-- is a list of its entries, in the order in which the code meets them.
pub mod Sources
pub mod Resolve
pub mod Evaluate
pub mod Counting
pub mod Decision
pub mod Order
pub mod Precedence
mod Tests
use reeve.Prelude.{
  ℕ, Bool, true, false, ◌&&◌, ◌||◌, List, [], ◌∷◌, ◌++◌, map, String, if◌then◌else◌, ℤ, any, member,
  str_eq, trim_at, contains_char,
}

pub record Approval : Type 0 where
  pub source : String
  pub approver : String
  pub submitted_at : ℕ
  pub commit_sha : String
  pub pinned : Bool

pub record Pr : Type 0 where
  pub number : ℕ
  pub head_sha : String
  pub author : String
  pub base_ref : String
  pub is_fork : Bool
  pub repo_private : Bool
  pub opened_at : ℕ
  pub changed : List String

pub record Rules : Type 0 where
  pub required_approvals : ℤ
  pub approvers : List String
  pub codeowners : Bool
  pub require_all_groups : Bool
  pub dismiss_on_new_commit : Bool
  pub allow_unpinned_comments : Bool
  pub freshness : ℤ
  pub allow_unlisted_approvals_on_public : Bool
  pub team_members : List (String × List String)

pub record SourceConfig : Type 0 where
  pub kind : String
  pub enabled : Bool
  pub command : String

pub record StackRule : Type 0 where
  pub pattern : String
  pub rules : Rules
  pub present : String → Bool

pub record Config : Type 0 where
  pub sources : List SourceConfig
  pub default : Rules
  pub stacks : List StackRule

-- `m[k]` of a map of lists: the empty list on a missing key.
abbrev pub members_of : List (String × List String) → String → List String
members_of [] k = []
members_of ((j, v) ∷ m) k = if str_eq j k then v else members_of m k

abbrev pub is_team_slug : String → Bool
is_team_slug s = contains_char b'/' s

abbrev pub is_email_owner : String → Bool
is_email_owner o = contains_char b'@' (trim_at o)

unfoldable pub names : List Approval → List String
names [] = []
names (a ∷ rest) = trim_at a.approver ∷ names rest

-- The keys of `eligible` in `intersect`.
unfoldable pub eligible : List String → List (String × List String) → List String
eligible [] teams = []
eligible (r ∷ rs) teams =
    if is_team_slug (trim_at r)
    then map trim_at (members_of teams (trim_at r)) ++ eligible rs teams
    else trim_at r ∷ eligible rs teams

-- The loop that `intersect` and `distinct` share: each login once, if it passes the test.
unfoldable pub distinct_from : (String → Bool) → List String → List String → List String
distinct_from p seen [] = []
distinct_from p seen (a ∷ rest) =
    let skipped = distinct_from p seen rest in
    let taken = trim_at a ∷ distinct_from p (trim_at a ∷ seen) rest in
    if p (trim_at a) then (if member (trim_at a) seen then skipped else taken) else skipped

unfoldable pub intersect : List String → List String → List (String × List String) → List String
unfolding distinct_from eligible
intersect approvers required teams =
    distinct_from (λ a. member a (eligible required teams)) [] approvers

unfoldable pub distinct : List String → List String
unfolding distinct_from
distinct approvers = distinct_from (λ a. true) [] approvers

unfoldable pub matches_one : List String → String → List (String × List String) → Bool
matches_one approvers g teams =
    let set = map trim_at approvers in
    member (trim_at g) set
    || (is_team_slug (trim_at g)
        && any (λ m. member (trim_at m) set) (members_of teams (trim_at g)))
