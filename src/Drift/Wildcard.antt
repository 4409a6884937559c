-- ===== src/Drift/Wildcard.antt =====
-- internal/drift/classify_filter.go: the glob that resource types, addresses and property paths are
-- matched against, byte by byte.
use reeve.Prelude.{
  ℕ, zero, suc, ◌*◌, Bool, true, false, ◌&&◌, ◌||◌, List, [], ◌∷◌, Option, none, some, ◌==◌,
  if◌then◌else◌, length, any,
}
pub use reeve.Prelude.{Bytes}

abbrev pub only_stars : Bytes → Bool
only_stars [] = true
only_stars (d ∷ p) = d == b'*' && only_stars p

-- What a round does with a byte: it takes it, notes a star with the pattern behind it, or goes back.
pub data Move : Type 0 where
  takes notes : Bytes → Move
  back : Move

abbrev pub move : Bytes → ℕ → Move
move [] x = back
move (d ∷ p) x = if d == b'?' || d == x then takes p else (if d == b'*' then notes p else back)

-- The last star: the pattern behind it, and the text from which it spans. Both indices of the source are
-- the text and the pattern that are left.
abbrev pub Star : Type 0
Star = Option (Bytes × Bytes)

-- The last case of the switch: one more byte for the last star.
abbrev pub go_back : (Bytes → Bytes → Star → Option Bool) → Star → Option Bool
go_back rest none = some false
go_back rest (some (q, [])) = some (only_stars q)
go_back rest (some (q, y ∷ t)) = rest q t (some (q, t))

-- The loop, with none where the rounds run out.
unfoldable pub match_from : ℕ → Bytes → Bytes → Star → Option Bool
match_from zero p s star = none
match_from (suc n) p [] star = some (only_stars p)
match_from (suc n) p (x ∷ s) star = elim (move p x) [
  | takes q ↦ match_from n q s star
  | notes q ↦ match_from n q (x ∷ s) (some (q, x ∷ s))
  | back ↦ go_back (match_from n) star
]

-- A round for each byte of the pattern, and one more, at each place of the text, its end included.
abbrev pub rounds : Bytes → Bytes → ℕ
rounds pattern s = suc (length s) * suc (length pattern)

abbrev pub or_false : Option Bool → Bool
or_false none = false
or_false (some b) = b

unfoldable pub wildcard_match : Bytes → Bytes → Bool
wildcard_match pattern s = or_false (match_from (rounds pattern s) pattern s none)

unfoldable pub matches_any : Bytes → List Bytes → Bool
matches_any s patterns = any (λ p. wildcard_match p s) patterns
