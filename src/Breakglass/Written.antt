-- ===== src/Breakglass/Written.antt =====
-- internal/core/breakglass/command.go: a command that is written as its usage says is read back.
use Prim.Native.Char.{Char}
use Prim.Native.String.compare
use text.Mathlib.Text.{is_eq}
use reeve.Prelude.{
  ℕ, ◌≡◌, refl, ◌∙◌, ap, inl, inr, Bool, true, false, ◌||◌, none, some, String, if◌then◌else◌,
  str_eq, str_eq_iff, is_blank, trim_left, trim_right, trim_space, append, cut_at, contains_char,
  arith, Bool-cases,
}
use reeve.Breakglass.Command.{
  Command, accepted, replace_crlf, first_line, cut_line, cut_token, cut_any, fields_from,
  parse_quoted, parse_justification, parse_command,
}

-- The text behind the justification.
abbrev ending : Bool → String
ending force = append "\"" (if force then " apply --force" else " apply")

abbrev pub written : Command → String
written c = append "/reeve breakglass \"" (append c.justification (ending c.force))

is_blank_cons : (c : Char) (s : String) → is_blank (String.◌∷◌ c s) ≡ false
is_blank_cons c s = ap is_eq (compare.cons-nil c s)

is_blank-append : (s t : String) → is_blank t ≡ false → is_blank (append s t) ≡ false
is_blank-append String.[] t e = e
is_blank-append (String.◌∷◌ c s) t e = is_blank_cons c (append s t)

trim_right-append :
    (s t : String)
    → is_blank (trim_right t) ≡ false
    → trim_right (append s t) ≡ append s (trim_right t)
trim_right-append String.[] t e = refl
trim_right-append (String.◌∷◌ c s) t e =
    ground (arith, trim_right-append s t e, is_blank-append s (trim_right t) e)

-- A line without a line feed is read whole.
replace_crlf_line : (s : String) → contains_char 10 s ≡ false → replace_crlf s ≡ s
unfolding replace_crlf
replace_crlf_line String.[] e = refl
replace_crlf_line (String.◌∷◌ c String.[]) e = refl
replace_crlf_line (String.◌∷◌ c (String.◌∷◌ d s)) e =
    ground (arith, e, replace_crlf_line (String.◌∷◌ d s))

cut_at-none : (s : String) → contains_char 10 s ≡ false → cut_at 10 s ≡ none
cut_at-none String.[] e = refl
cut_at-none (String.◌∷◌ c s) e = ground (arith, e, cut_at-none s)

cut_line_whole : (s : String) → contains_char 10 s ≡ false → cut_line s ≡ s
cut_line_whole s e = rw (cut_at-none s e, cut_line) refl

contains_char-append :
    (b : ℕ) (s t : String) → contains_char b (append s t) ≡ (contains_char b s || contains_char b t)
contains_char-append b String.[] t = refl
contains_char-append b (String.◌∷◌ c s) t = ground (arith, contains_char-append b s t)

cut_any-append :
    (s t : String)
    → contains_char b'"' s ≡ false
    → cut_any b'"' b'"' (append s (append "\"" t)) ≡ some (s, t)
unfolding cut_any
cut_any-append String.[] t e = refl
cut_any-append (String.◌∷◌ c s) t e = ground (arith, e, cut_any-append s t)

str_eq_without :
    (b : ℕ) (s t : String)
    → contains_char b s ≡ true
    → contains_char b t ≡ false
    → str_eq s t ≡ false
str_eq_without b s t e f = elim (Bool-cases (str_eq s t)) [
  | inl h ↦ ground (arith, e, f, ap (contains_char b) ((str_eq_iff s t).0 h))
  | inr h ↦ h
]

trim_right-ending : (force : Bool) → trim_right (ending force) ≡ ending force
trim_right-ending true = refl
trim_right-ending false = refl

is_blank-ending : (force : Bool) → is_blank (ending force) ≡ false
is_blank-ending true = refl
is_blank-ending false = refl

trim_right-justified :
    (j : String) (force : Bool) → trim_right (append j (ending force)) ≡ append j (ending force)
trim_right-justified j force =
    trim_right-append j (ending force)
      (ap is_blank (trim_right-ending force) ∙ is_blank-ending force)
    ∙ ap (append j) (trim_right-ending force)

-- A text that ends as a command does is not trimmed on its right.
trim_right_written :
    (p j : String) (force : Bool)
    → trim_right (append p (append j (ending force))) ≡ append p (append j (ending force))
trim_right_written p j force =
    trim_right-append p (append j (ending force)) (
      ap is_blank (trim_right-justified j force)
      ∙ is_blank-append j (ending force) (is_blank-ending force))
    ∙ ap (append p) (trim_right-justified j force)

contains_quote :
    (p j : String) (force : Bool) → contains_char b'"' (append p (append j (ending force))) ≡ true
contains_quote p j true = ground (
  arith,
  contains_char-append b'"' p (append j (ending true)),
  contains_char-append b'"' j (ending true),
)
contains_quote p j false = ground (
  arith,
  contains_char-append b'"' p (append j (ending false)),
  contains_char-append b'"' j (ending false),
)

module _ (j : String) (force : Bool) where
  -- The text of the command from its justification on.
  abbrev justified : String
  justified = append j (ending force)

  cut_reeve :
      cut_token (append "/reeve breakglass \"" justified) "/reeve"
      ≡ some (append " breakglass \"" justified)
  unfolding cut_token
  cut_reeve =
      rw
        (
          trim_right_written "/reeve breakglass \"" j force,
          str_eq_without b'"' (append "/reeve breakglass \"" justified) "/reeve"
              (contains_quote "/reeve breakglass \"" j force) refl,
        )
        refl

  cut_breakglass :
      cut_token (append " breakglass \"" justified) "breakglass" ≡ some (append " \"" justified)
  unfolding cut_token
  cut_breakglass =
      rw
        (
          trim_right_written " breakglass \"" j force,
          str_eq_without b'"' (append "breakglass \"" justified) "breakglass"
              (contains_quote "breakglass \"" j force) refl,
        )
        refl

contains_feed :
    (j : String) (force : Bool)
    → contains_char 10 j ≡ false
    → contains_char 10 (append "/reeve breakglass \"" (justified j force)) ≡ false
contains_feed j true e =
    contains_char-append 10 "/reeve breakglass \"" (justified j true)
    ∙ (contains_char-append 10 j (ending true) ∙ ap (λ b. b || false) e)
contains_feed j false e =
    contains_char-append 10 "/reeve breakglass \"" (justified j false)
    ∙ (contains_char-append 10 j (ending false) ∙ ap (λ b. b || false) e)

first_line_written :
    (j : String) (force : Bool)
    → contains_char 10 j ≡ false
    → first_line (append "/reeve breakglass \"" (justified j force))
      ≡ append "/reeve breakglass \"" (justified j force)
first_line_written j force e =
    ap (λ s. trim_space (cut_line s))
      (replace_crlf_line (append "/reeve breakglass \"" (justified j force))
        (contains_feed j force e))
    ∙ (ap trim_space (
          cut_line_whole (append "/reeve breakglass \"" (justified j force))
            (contains_feed j force e))
        ∙ ap trim_left (trim_right_written "/reeve breakglass \"" j force))

parse_quoted_written :
    (j : String) (force : Bool)
    → trim_space j ≡ j
    → is_blank j ≡ false
    → parse_quoted (some (j, if force then " apply --force" else " apply"))
      ≡ accepted (record { justification = j; force = force })
unfolding fields_from
parse_quoted_written j true t b = rw (t, b) refl
parse_quoted_written j false t b = rw (t, b) refl

parse_justification_written :
    (j : String) (force : Bool)
    → contains_char b'"' j ≡ false
    → trim_space j ≡ j
    → is_blank j ≡ false
    → parse_justification (trim_space (append " \"" (justified j force)))
      ≡ accepted (record { justification = j; force = force })
parse_justification_written j force q t b =
    rw
      (
        trim_right_written " \"" j force,
        cut_any-append j (if force then " apply --force" else " apply") q,
      )
      (parse_quoted_written j force t b)

-- A command with a justification that is trimmed, not empty and of one line, and in which no ASCII quote
-- stands, is read back from the comment that writes it as the usage says, with its --force if it has it.
pub parse_command-written :
    (c : Command)
    → contains_char b'"' c.justification ≡ false
    → contains_char 10 c.justification ≡ false
    → trim_space c.justification ≡ c.justification
    → is_blank c.justification ≡ false
    → parse_command (written c) ≡ accepted c
unfolding parse_command
parse_command-written c q f t b =
    rw
      (
        first_line_written c.justification c.force f,
        cut_reeve c.justification c.force,
        cut_breakglass c.justification c.force,
        parse_command,
      )
      (parse_justification_written c.justification c.force q t b)
