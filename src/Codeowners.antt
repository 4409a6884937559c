-- ===== src/Codeowners.antt =====
-- internal/vcs/codeowners/parse.go: the rules of a CODEOWNERS file, and the owners that they give to the
-- changed paths.
pub mod Lines
pub mod Last
mod Tests
use Prim.Native.Char.{Char, code}
use reeve.Prelude.{
  ℕ, Bool, true, false, not, ◌&&◌, ◌||◌, List, [], ◌∷◌, ◌++◌, Option, none, some, String, ◌==◌,
  if◌then◌else◌, is_blank, append, contains_char, has_prefix, has_suffix, trim_prefix, trim_last,
  after_last, is_empty,
}

pub record Rule : Type 0 where
  pub pattern : String
  pub owners : List String

-- What a rune means where it stands: the escape of the next one, the begin of a comment, a separator, or
-- itself.
pub data Meaning : Type 0 where
  escape comment separator itself : Meaning

abbrev is_separator : ℕ → Bool
is_separator n = n == b' ' || n == 9

abbrev pub escapable : String → Bool
escapable String.[] = false
escapable (String.◌∷◌ d s) = is_separator (code d) || code d == b'#'

abbrev pub meaning : Char → String → Meaning
meaning c rest =
    if code c == 92 && escapable rest
    then escape
    else (if code c == b'#' then comment else (if is_separator (code c) then separator else itself))

abbrev pub flush : List String → String → List String
flush fields cur = if is_blank cur then fields else fields ++ (cur ∷ [])

-- The loop, with the fields so far, the token so far, and whether the rune before escapes this one.
unfoldable pub split_from : List String → String → Bool → String → List String
split_from fields cur escaped String.[] = flush fields cur
split_from fields cur true (String.◌∷◌ c s) =
    split_from fields (append cur (String.◌∷◌ c String.[])) false s
split_from fields cur false (String.◌∷◌ c s) = elim (meaning c s) [
  | escape ↦ split_from fields cur true s
  | comment ↦ flush fields cur
  | separator ↦ split_from (flush fields cur) "" false s
  | itself ↦ split_from fields (append cur (String.◌∷◌ c String.[])) false s
]

unfoldable pub split_line : String → List String
split_line line = split_from [] "" false line

-- `Parse`, over the lines that bufio.Scanner gives.
unfoldable pub parse : List String → List Rule
parse [] = []
parse (line ∷ lines) =
    let rest = parse lines in
    elim (split_line line) [
      | [] ↦ rest
      | pattern ∷ owners ↦ record { pattern = pattern; owners = owners } ∷ rest
    ]

-- The owners that a rule gives, if any.
abbrev pub owned : Option Rule → Option (List String)
owned none = none
owned (some r) = if is_empty r.owners then none else some r.owners

-- doublestar.Match, false where it fails, is a parameter.
module _ (glob_match : String → String → Bool) where
  -- `match` behind its guards, with the pattern relative to the root.
  abbrev match_rooted : Bool → String → String → Bool
  match_rooted dir_only pattern p =
      if dir_only
      then glob_match (append pattern "/**") p
      else (if glob_match pattern p
          then true
          else (if contains_char b'*' (after_last b'/' pattern)
                || contains_char b'?' (after_last b'/' pattern)
              then false
              else glob_match (append pattern "/**") p))

  abbrev match_trimmed : Bool → String → String → Bool
  match_trimmed dir_only pattern p =
      let anchored = contains_char b'/' pattern in
      let relative = trim_prefix pattern "/" in
      if is_blank relative
      then false
      else match_rooted dir_only (if anchored then relative else append "**/" relative) p

  unfoldable pub match : String → String → Bool
  match pattern path =
      if has_prefix pattern "!" || (contains_char b'[' pattern || contains_char b']' pattern)
      then false
      else match_trimmed (has_suffix pattern "/") (trim_last b'/' pattern) (trim_prefix path "/")

  -- The loop from the last rule to the first.
  unfoldable pub last_match : List Rule → String → Option Rule
  last_match [] p = none
  last_match (r ∷ rules) p = elim (last_match rules p) [
    | some later ↦ some later
    | none ↦ if match r.pattern p then some r else none
  ]

  unfoldable pub resolve : List Rule → List String → List (String × List String)
  resolve rules [] = []
  resolve rules (p ∷ changed) =
      let rest = resolve rules changed in
      elim (owned (last_match rules p)) [ none ↦ rest | some owners ↦ (p, owners) ∷ rest ]
