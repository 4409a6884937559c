-- ===== src/Prelude/Text.antt =====
-- What the code uses of Go's package strings, over the native texts.
use Prim.Native.Nat.{ℕ, ◌+◌}
use Prim.Native.Char.{code}
use Prim.Native.String.{String}
use mathlib.Core.Path.{◌≡◌, refl}
use mathlib.Core.Logic.{◌↔◌}
use mathlib.Core.Bool.{Bool, true, false, ◌&&◌, ◌||◌}
use mathlib.Core.Option.{Option, none, some}
use mathlib.Core.List.{List, [], ◌∷◌}
use text.Mathlib.Text.{◌==◌ as text_eq}
use text.Mathlib.TextEquality.{eq_iff}
use reeve.Prelude.Tests.{◌==◌, leb, if◌then◌else◌}
use reeve.Prelude.Lists.{any, Bytes}

abbrev pub str_eq : String → String → Bool
str_eq = text_eq

pub str_eq_iff : (s t : String) → (str_eq s t ≡ true) ↔ (s ≡ t)
str_eq_iff = eq_iff

pub str_eq_refl : (s : String) → str_eq s s ≡ true
str_eq_refl s = (eq_iff s s).1 refl

-- `strings.TrimPrefix(s, "@")`.
abbrev pub trim_at : String → String
trim_at String.[] = String.[]
trim_at (String.◌∷◌ c s) = if code c == b'@' then s else String.◌∷◌ c s

-- `strings.Contains(s, string(b))` for an ASCII byte b.
abbrev pub contains_char : ℕ → String → Bool
contains_char b String.[] = false
contains_char b (String.◌∷◌ c s) = code c == b || contains_char b s

abbrev pub member : String → List String → Bool
member s = any (str_eq s)

abbrev pub is_blank : String → Bool
is_blank s = str_eq s ""

-- `unicode.IsSpace`, for ASCII.
abbrev pub is_space : ℕ → Bool
is_space n = n == 32 || n == 9 || n == 10 || n == 11 || n == 12 || n == 13

abbrev pub trim_left : String → String
trim_left String.[] = String.[]
trim_left (String.◌∷◌ c s) =
    let rest = trim_left s in if is_space (code c) then rest else String.◌∷◌ c s

abbrev pub trim_right : String → String
trim_right String.[] = String.[]
trim_right (String.◌∷◌ c s) =
    let rest = trim_right s in
    if is_blank rest && is_space (code c) then String.[] else String.◌∷◌ c rest

abbrev pub trim_space : String → String
trim_space s = trim_left (trim_right s)

-- An ASCII letter in lower case.
abbrev pub lower : ℕ → ℕ
lower n = if leb b'A' n && leb n b'Z' then n + 32 else n

-- `strings.EqualFold`, for ASCII.
abbrev pub equal_fold : String → String → Bool
equal_fold String.[] String.[] = true
equal_fold String.[] (String.◌∷◌ d t) = false
equal_fold (String.◌∷◌ c s) String.[] = false
equal_fold (String.◌∷◌ c s) (String.◌∷◌ d t) = lower (code c) == lower (code d) && equal_fold s t

-- `strings.CutPrefix(s, p)`.
abbrev pub cut_prefix : String → String → Option String
cut_prefix s String.[] = some s
cut_prefix String.[] (String.◌∷◌ d p) = none
cut_prefix (String.◌∷◌ c s) (String.◌∷◌ d p) =
    let rest = cut_prefix s p in if code c == code d then rest else none

abbrev pub has_prefix : String → String → Bool
has_prefix s p = elim (cut_prefix s p) [ none ↦ false | some rest ↦ true ]

abbrev pub trim_prefix : String → String → String
trim_prefix s p = elim (cut_prefix s p) [ none ↦ s | some rest ↦ rest ]

abbrev pub has_suffix : String → String → Bool
has_suffix String.[] p = is_blank p
has_suffix (String.◌∷◌ c s) p = str_eq (String.◌∷◌ c s) p || has_suffix s p

-- `strings.Cut(s, string(b))` for an ASCII byte b.
abbrev pub cut_at : ℕ → String → Option (String × String)
cut_at b String.[] = none
cut_at b (String.◌∷◌ c s) =
    let rest = cut_at b s in
    if code c == b
    then some (String.[], s)
    else elim rest [ none ↦ none | some (before, after) ↦ some (String.◌∷◌ c before, after) ]

-- `s + t`.
abbrev pub append : String → String → String
append String.[] t = t
append (String.◌∷◌ c s) t = String.◌∷◌ c (append s t)

-- `strings.TrimSuffix(s, string(b))` for an ASCII byte b.
abbrev pub trim_last : ℕ → String → String
trim_last b String.[] = String.[]
trim_last b (String.◌∷◌ c s) =
    let rest = trim_last b s in if is_blank s && code c == b then String.[] else String.◌∷◌ c rest

-- What stands behind the last byte b, `s[strings.LastIndex(s, string(b))+1:]`.
abbrev pub after_last : ℕ → String → String
after_last b String.[] = String.[]
after_last b (String.◌∷◌ c s) =
    let rest = after_last b s in
    if contains_char b s then rest else (if code c == b then s else String.◌∷◌ c s)

-- The bytes of an ASCII text.
abbrev pub codes : String → Bytes
codes String.[] = []
codes (String.◌∷◌ c s) = code c ∷ codes s
