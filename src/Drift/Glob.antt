-- ===== src/Drift/Glob.antt =====
-- internal/drift/classify_filter.go: what the `*` and `?` of a glob mean, and the moves of wildcardMatch.
pub mod Rounds
pub mod Decides
use reeve.Prelude.{
  ℕ, zero, suc, ◌+◌, ◌*◌, ◌≤◌, ◌<◌, ◌≡◌, refl, sym, ◌∙◌, ap, subst, ◌⊎◌, inl, inr, Bool, true,
  false, not, ◌&&◌, ◌||◌, List, [], ◌∷◌, Option, none, some, ◌==◌, if◌then◌else◌, length, any,
  arith, Bool-cases,
}
use reeve.Drift.Wildcard.{
  Bytes, only_stars, Move, takes, notes, back, move, Star, go_back, match_from, rounds, or_false,
  wildcard_match,
}

-- What a pattern means: `?` is any byte, `*` any run of bytes, and another byte is itself.
abbrev pub glob : Bytes → Bytes → Bool
glob [] [] = true
glob [] (x ∷ s) = false
glob (d ∷ p) [] = d == b'*' && glob p []
glob (d ∷ p) (x ∷ s) =
    let inner = glob p (x ∷ s) in
    let outer = glob (d ∷ p) s in
    let next = glob p s in if d == b'*' then inner || outer else (d == b'?' || d == x) && next

abbrev pub has_star : Bytes → Bool
has_star = any (λ x. x == b'*')

abbrev pub is_done : Option Bool → Bool
is_done none = false
is_done (some b) = true

-- The three moves, with what tells them apart.
abbrev pub Moved : Bytes → ℕ → Type 0
Moved p x =
    ((d : ℕ) × (q : Bytes) × (p ≡ d ∷ q) × ((d == b'?' || d == x) ≡ true) × (move p x ≡ takes q))
    ⊎ (((q : Bytes) × (p ≡ b'*' ∷ q) × ((b'*' == x) ≡ false) × (move p x ≡ notes q))
        ⊎ ((move p x ≡ back) × ((s : Bytes) → (x == b'*') ≡ false → glob p (x ∷ s) ≡ false)))

pub move-cases : (p : Bytes) (x : ℕ) → Moved p x
move-cases [] x = inr (inr (refl, λ s e. refl))
move-cases (d ∷ p) x = elim (Bool-cases (d == b'?' || d == x)) [
  | inl e ↦ inl (d, p, refl, e, ground (arith, e))
  | inr e ↦ elim (Bool-cases (d == b'*')) [
    | inl f ↦ inr (inl (p, ground (arith, f), ground (arith, e, f), ground (arith, e, f)))
    | inr f ↦ inr (inr (ground (arith, e, f), λ s g. ground (arith, e, f)))
  ]
]
