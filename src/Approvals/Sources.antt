-- ===== src/Approvals/Sources.antt =====
-- internal/core/approvals/sources.go: which approval sources count.
use reeve.Prelude.{Bool, true, false, List, [], ◌∷◌, ◌++◌, String, if◌then◌else◌, str_eq}
use reeve.Approvals.{Approval, SourceConfig, Config}

-- The first entry of that kind decides; without one the answer is `d`.
abbrev pub enabled_or : Bool → String → List SourceConfig → Bool
enabled_or d kind [] = d
enabled_or d kind (s ∷ ss) = if str_eq s.kind kind then s.enabled else enabled_or d kind ss

unfoldable pub pr_review_enabled : Config → Bool
pr_review_enabled c = enabled_or true "pr_review" c.sources

unfoldable pub pr_comment_enabled : Config → Bool
pr_comment_enabled c = enabled_or false "pr_comment" c.sources

unfoldable pub merge_approvals : List (List Approval) → List Approval
merge_approvals [] = []
merge_approvals (s ∷ sets) = s ++ merge_approvals sets
