-- ===== src/Codeowners/Tests.antt =====
-- Runs of internal/vcs/codeowners/parse.go on small files, and the theorems at them.
use reeve.Prelude.{◌≡◌, refl, Bool, ◌||◌, List, [], ◌∷◌, some, String, str_eq}
use reeve.Codeowners.{Rule, split_line, split_from, parse, match, last_match, resolve}
use reeve.Codeowners.Last.{lookup, resolve-last}

-- A stand-in for doublestar.Match: the patterns of the runs, with what they match.
abbrev glob : String → String → Bool
glob pattern p = str_eq pattern "infra/**" || str_eq pattern p

abbrev file : List String
file = "# owners" ∷ "/infra/ @acme/sre @ann # all" ∷ "" ∷ "/infra/docs\\ old.md" ∷ []

abbrev infra : Rule
infra = record { pattern = "/infra/"; owners = "@acme/sre" ∷ "@ann" ∷ [] }

abbrev unowned : Rule
unowned = record { pattern = "/infra/docs old.md"; owners = [] }

abbrev changed : List String
changed = "infra/main.ts" ∷ "infra/docs old.md" ∷ []

file_parsed : parse file ≡ infra ∷ unowned ∷ []
unfolding parse split_line split_from
file_parsed = refl

file_resolved :
    resolve glob (infra ∷ unowned ∷ []) changed ≡ ("infra/main.ts", "@acme/sre" ∷ "@ann" ∷ []) ∷ []
unfolding resolve last_match match
file_resolved = refl

resolve-last_example :
    lookup (resolve glob (infra ∷ unowned ∷ []) changed) "infra/main.ts"
    ≡ some ("@acme/sre" ∷ "@ann" ∷ [])
unfolding match
resolve-last_example =
    resolve-last glob [] infra (unowned ∷ []) changed "infra/main.ts" refl refl refl

abbrev entry : String
entry = "/infra/ @ann "
