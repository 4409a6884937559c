-- ===== src/Redact.antt =====
-- internal/core/redact/redact.go: the redaction of secrets in a text, on its bytes. A regular expression
-- is a parameter: the places of its matches in a text, which regexp documents.
pub mod Splice
pub mod Leak
mod Tests
use reeve.Prelude.{
  ℕ, zero, suc, ◌+◌, ◌-◌, Bool, true, false, ◌&&◌, ◌||◌, List, [], ◌∷◌, ◌++◌, ltb, ◌==◌,
  if◌then◌else◌, length, any, Bytes, codes,
}

abbrev pub min_secret_length : ℕ
min_secret_length = 8

-- `regexp.FindAllIndex`: for each match, the bytes before it since the match before, and its own.
abbrev pub Rule : Type 0
Rule = Bytes → List (ℕ × ℕ)

-- The secrets are those that have been added, each once.
pub record Redactor : Type 0 where
  pub rules : List Rule
  pub replacement : Bytes
  pub secrets : List Bytes

abbrev pub starts : Bytes → Bytes → Bool
starts [] s = true
starts (c ∷ p) [] = false
starts (c ∷ p) (x ∷ s) = c == x && starts p s

abbrev pub contains : Bytes → Bytes → Bool
contains p [] = starts p []
contains p (x ∷ s) = starts p (x ∷ s) || contains p s

abbrev pub bytes_eq : Bytes → Bytes → Bool
bytes_eq [] [] = true
bytes_eq [] (y ∷ t) = false
bytes_eq (x ∷ s) [] = false
bytes_eq (x ∷ s) (y ∷ t) = x == y && bytes_eq s t

abbrev pub take : ℕ → Bytes → Bytes
take zero s = []
take (suc n) [] = []
take (suc n) (x ∷ s) = x ∷ take n s

abbrev pub drop : ℕ → Bytes → Bytes
drop zero s = s
drop (suc n) [] = []
drop (suc n) (x ∷ s) = drop n s

-- The length of the first of some texts with which a text starts, 0 where it starts with none.
abbrev pub matched : List Bytes → Bytes → ℕ
matched [] s = 0
matched (old ∷ more) s = if starts old s then length old else matched more s

-- Replacement from the left, without overlaps, of any of some texts: `strings.ReplaceAll` of one that is
-- not empty, and a regular expression that has only such alternatives. The number counts the bytes that
-- are still to be left out.
unfoldable pub replace_from : List Bytes → Bytes → ℕ → Bytes → Bytes
replace_from olds new skip [] = []
replace_from olds new (suc skip) (x ∷ s) = replace_from olds new skip s
replace_from olds new zero (x ∷ s) = elim (matched olds (x ∷ s)) [
  | zero ↦ x ∷ replace_from olds new zero s
  | suc n ↦ new ++ replace_from olds new n s
]

abbrev pub replace_all : Bytes → Bytes → Bytes → Bytes
replace_all s old new = replace_from (old ∷ []) new 0 s

-- `ReplaceAllString`, with the matches.
unfoldable pub replace_matches : List (ℕ × ℕ) → Bytes → Bytes → Bytes
replace_matches [] new s = s
replace_matches ((gap, size) ∷ matches) new s =
    take gap s ++ (new ++ replace_matches matches new (drop (gap + size) s))

-- `out[i] < out[j]` on texts of one length.
abbrev pub bytes_lt : Bytes → Bytes → Bool
bytes_lt s [] = false
bytes_lt [] (y ∷ t) = true
bytes_lt (x ∷ s) (y ∷ t) = ltb x y || x == y && bytes_lt s t

abbrev pub comes_before : Bytes → Bytes → Bool
comes_before s t = if length s == length t then bytes_lt s t else ltb (length t) (length s)

abbrev pub insert : Bytes → List Bytes → List Bytes
insert s [] = s ∷ []
insert s (t ∷ ts) = if comes_before t s then t ∷ insert s ts else s ∷ t ∷ ts

-- `sort.Slice`, which has one result, since no two secrets are the same.
unfoldable pub sorted_secrets : List Bytes → List Bytes
sorted_secrets [] = []
sorted_secrets (s ∷ secrets) = insert s (sorted_secrets secrets)

abbrev pub has_secret : Bytes → List Bytes → Bool
has_secret s = any (bytes_eq s)

unfoldable pub add_secret : Bytes → Redactor → Redactor
add_secret s r =
    if ltb (length s) min_secret_length || has_secret s r.secrets
    then r
    else record r { secrets = s ∷ r.secrets }

-- The marker of Pulumi, `\[secret\]|<secret>`.
abbrev pub pulumi_markers : List Bytes
pulumi_markers = codes "[secret]" ∷ codes "<secret>" ∷ []

unfoldable pub redact_secrets : List Bytes → Bytes → Bytes → Bytes
redact_secrets [] new s = s
redact_secrets (secret ∷ secrets) new s = redact_secrets secrets new (replace_all s secret new)

unfoldable pub redact_rules : List Rule → Bytes → Bytes → Bytes
redact_rules [] new s = s
redact_rules (rule ∷ rules) new s = redact_rules rules new (replace_matches (rule s) new s)

unfoldable pub redact : Redactor → Bytes → Bytes
redact r s =
    replace_from pulumi_markers r.replacement 0 (
      redact_rules r.rules r.replacement
        (redact_secrets (sorted_secrets r.secrets) r.replacement s))
