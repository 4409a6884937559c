-- ===== src/Breakglass/Command.antt =====
-- internal/core/breakglass/command.go: the comment that asks for an emergency apply. White space is that
-- of ASCII.
use Prim.Native.Char.{code}
use reeve.Prelude.{
  ℕ, Bool, true, false, not, ◌&&◌, ◌||◌, List, [], ◌∷◌, Option, none, some, String, if◌then◌else◌,
  ◌==◌, str_eq, is_blank, is_space, trim_space, has_prefix, trim_prefix, append, cut_at,
}

pub record Command : Type 0 where
  pub justification : String
  pub force : Bool

-- The errors, without their texts.
pub data CommandError : Type 0 where
  not_a_command no_breakglass unquoted unterminated empty_justification missing_verb : CommandError
  unsupported_verb : String → CommandError
  trailing_input : List String → CommandError

pub data Parsed : Type 0 where
  refused : CommandError → Parsed
  accepted : Command → Parsed

-- `openQuotes`: the quote that closes what a quote opens.
abbrev pub closing_quote : ℕ → Option ℕ
closing_quote c = if c == b'"' then some b'"' else (if c == 8220 then some 8221 else none)

-- `strings.ReplaceAll(comment, "\r\n", "\n")`.
unfoldable pub replace_crlf : String → String
replace_crlf String.[] = String.[]
replace_crlf (String.◌∷◌ c String.[]) = String.◌∷◌ c String.[]
replace_crlf (String.◌∷◌ c (String.◌∷◌ d s)) =
    let rest = replace_crlf (String.◌∷◌ d s) in
    if code c == 13 && code d == 10 then rest else String.◌∷◌ c rest

-- `line, _, _ := strings.Cut(…, "\n")`, and the trim behind it.
abbrev pub cut_line : String → String
cut_line s = elim (cut_at 10 s) [ none ↦ s | some (before, after) ↦ before ]

abbrev pub first_line : String → String
first_line comment = trim_space (cut_line (replace_crlf comment))

unfoldable pub cut_token : String → String → Option String
cut_token s tok =
    if str_eq (trim_space s) tok
    then some ""
    else (if has_prefix (trim_space s) (append tok " ")
          || has_prefix (trim_space s) (append tok "\t")
        then some (trim_prefix (trim_space s) tok)
        else none)

-- What stands before and behind the first of two characters: `strings.IndexAny`.
unfoldable pub cut_any : ℕ → ℕ → String → Option (String × String)
cut_any a b String.[] = none
cut_any a b (String.◌∷◌ c s) =
    let rest = cut_any a b s in
    if code c == a || code c == b
    then some ("", s)
    else elim rest [ none ↦ none | some (before, after) ↦ some (String.◌∷◌ c before, after) ]

-- `strings.Fields`, behind the letters of a field that has begun.
unfoldable pub fields_from : String → String → List String
fields_from word String.[] = if is_blank word then [] else word ∷ []
fields_from word (String.◌∷◌ c s) =
    let rest = fields_from "" s in
    let more = fields_from (append word (String.◌∷◌ c String.[])) s in
    if is_space (code c) then (if is_blank word then rest else word ∷ rest) else more

abbrev pub fields : String → List String
fields s = fields_from "" s

-- The switch over the tokens behind the verb.
abbrev pub verb_options : String → List String → Parsed
verb_options justification [] = accepted (record { justification = justification; force = false })
verb_options justification (t ∷ []) =
    if str_eq t "--force" || str_eq t "force"
    then accepted (record { justification = justification; force = true })
    else refused (trailing_input (t ∷ []))
verb_options justification (t ∷ u ∷ ts) = refused (trailing_input (t ∷ u ∷ ts))

abbrev pub parse_verb : String → List String → Parsed
parse_verb justification [] = refused missing_verb
parse_verb justification (verb ∷ tail) =
    if not (str_eq verb "apply")
    then refused (unsupported_verb verb)
    else verb_options justification tail

abbrev pub parse_quoted : Option (String × String) → Parsed
parse_quoted none = refused unterminated
parse_quoted (some (body, tail)) =
    if is_blank (trim_space body)
    then refused empty_justification
    else parse_verb (trim_space body) (fields tail)

-- What stands behind `breakglass`.
abbrev pub parse_justification : String → Parsed
parse_justification String.[] = refused unquoted
parse_justification (String.◌∷◌ quote body) = elim (closing_quote (code quote)) [
  | none ↦ refused unquoted
  | some close ↦ parse_quoted (cut_any close b'"' body)
]

unfoldable pub parse_command : String → Parsed
parse_command comment = elim (cut_token (first_line comment) "/reeve") [
  | none ↦ refused not_a_command
  | some rest ↦ elim (cut_token rest "breakglass") [
    | none ↦ refused no_breakglass
    | some quoted ↦ parse_justification (trim_space quoted)
  ]
]
