-- ===== src/Keys.antt =====
-- internal/blob/key.go: the name of an object for a name that the reviewed repository chose, and the key
-- of a lock's object, of internal/blob/locks/store.go.
pub mod Injective
mod Tests
use reeve.Prelude.{
  ℕ, Bool, true, false, ◌&&◌, ◌||◌, String, ◌==◌, leb, if◌then◌else◌, is_blank, append,
}
use Prim.Native.Char.{Char, code}

abbrev pub is_safe : ℕ → Bool
is_safe n =
    leb b'a' n && leb n b'z' || leb b'A' n && leb n b'Z' || leb b'0' n && leb n b'9' || n == b'-'

unfoldable pub is_passthrough : String → Bool
is_passthrough String.[] = true
is_passthrough (String.◌∷◌ c s) = is_safe (code c) && is_passthrough s

unfoldable pub sanitize_component : String → String
sanitize_component String.[] = String.[]
sanitize_component (String.◌∷◌ c s) =
    let rest = sanitize_component s in
    if is_safe (code c) || code c == b'_' then String.◌∷◌ c rest else append "_" rest

-- `strings.Trim(s, "_") == ""`.
abbrev pub only_underscores : String → Bool
only_underscores String.[] = true
only_underscores (String.◌∷◌ c s) = code c == b'_' && only_underscores s

-- The digest, crypto/sha256 in hex cut to 32 characters, is a parameter.
module _ (short_hash : String → String) where
  unfoldable pub transformed : String → String
  transformed s =
      let sanitised = sanitize_component s in
      append (if only_underscores sanitised then "key" else sanitised) (append "__" (short_hash s))

  unfoldable pub passthrough_or_digest : String → String
  passthrough_or_digest s =
      if is_blank s then "key" else (if is_passthrough s then s else transformed s)

  unfoldable pub slug_component : String → String → String
  slug_component s fallback =
      if is_blank s then passthrough_or_digest fallback else passthrough_or_digest s

  unfoldable pub key : String → String → String
  key project stack = append "locks/" (
      append (slug_component project "project")
        (append "/" (append (slug_component stack "stack") ".json")))
