-- ===== src/Drift/Glob/Decides.antt =====
-- internal/drift/classify_filter.go: wildcardMatch decides what a glob means.
use reeve.Prelude.{
  ℕ, zero, suc, ◌-◌, ◌≤◌, ◌≡◌, refl, sym, ◌∙◌, ap, subst, inl, inr, Bool, true, false, ◌||◌, [],
  ◌∷◌, Option, none, some, ◌==◌, length, arith, Bool-cases,
}
use reeve.Drift.Wildcard.{
  Bytes, only_stars, Move, takes, notes, back, Star, go_back, match_from, rounds, or_false,
  wildcard_match,
}
use reeve.Drift.Glob.{glob, has_star, is_done, move-cases}
use reeve.Drift.Glob.Rounds.{match_from-rounds}

abbrev drop : ℕ → Bytes → Bytes
drop zero s = s
drop (suc n) [] = []
drop (suc n) (x ∷ s) = drop n s

abbrev tail : Bytes → Bytes
tail [] = []
tail (x ∷ s) = s

drop-nil : (n : ℕ) → drop n [] ≡ []
drop-nil zero = refl
drop-nil (suc n) = refl

tail-drop : (n : ℕ) (x : ℕ) (s : Bytes) → tail (drop n (x ∷ s)) ≡ drop n s
tail-drop zero x s = refl
tail-drop (suc n) x [] = ap tail (drop-nil n)
tail-drop (suc n) x (y ∷ s) = tail-drop n y s

only_stars-glob : (p : Bytes) → only_stars p ≡ glob p []
only_stars-glob [] = refl
only_stars-glob (d ∷ p) = ground (arith, only_stars-glob p)

-- A star takes what is dropped.
glob-drop : (n : ℕ) (p s : Bytes) → glob p (drop n s) ≡ true → glob (b'*' ∷ p) s ≡ true
glob-drop zero p [] e = e
glob-drop zero p (x ∷ s) e = ground (arith, e)
glob-drop (suc n) p [] e = e
glob-drop (suc n) p (x ∷ s) e = ground (arith, glob-drop n p s e)

-- And takes only that.
glob_dropped : (p s : Bytes) → glob (b'*' ∷ p) s ≡ true → (n : ℕ) × (glob p (drop n s) ≡ true)
glob_dropped p [] e = (zero, e)
glob_dropped p (x ∷ s) e = elim (Bool-cases (glob p (x ∷ s))) [
  | inl f ↦ (zero, f)
  | inr f ↦ let rest = glob_dropped p s (ground (arith, e, f)) in (suc rest.0, rest.1)
]

glob_star_star :
    (n : ℕ) (p s : Bytes) → glob (b'*' ∷ p) (drop n s) ≡ true → glob (b'*' ∷ p) s ≡ true
glob_star_star zero p s e = e
glob_star_star (suc n) p [] e = e
glob_star_star (suc n) p (x ∷ s) e = ground (arith, glob_star_star n p s e)

-- What is left to the last star: to span at least one byte more.
abbrev later : Star → Bool
later none = false
later (some (q, [])) = false
later (some (q, y ∷ t)) = glob (b'*' ∷ q) t

-- What matches the pattern behind the star in a later place matches what is left of it in that place.
abbrev Covers : Star → Bytes → Bytes → Type 0
Covers none p s = Unit {0}
Covers (some (q, t)) p s =
    (length s ≤ length t)
    × (has_star t ≡ false)
    × ((n : ℕ) → glob q (drop n t) ≡ true → glob p (drop n s) ≡ true)

later_covered :
    (star : Star) (p s : Bytes)
    → Covers star p s
    → later star ≡ true
    → (n : ℕ) × (glob p (drop n s) ≡ true)
later_covered none p s c e = (zero, ground (arith, e))
later_covered (some (q, [])) p s c e = (zero, ground (arith, e))
later_covered (some (q, y ∷ t)) p s c e =
    let place = glob_dropped q t e in (suc place.0, c.2 (suc place.0) place.1)

glob-tail :
    (d : ℕ) (p s : Bytes) → (d == b'*') ≡ false → glob (d ∷ p) s ≡ true → glob p (tail s) ≡ true
glob-tail d p [] e f = ground (arith, e, f)
glob-tail d p (x ∷ s) e f = ground (arith, e, f)

Covers-takes :
    (star : Star) (d x : ℕ) (p s : Bytes)
    → (d == b'*') ≡ false
    → Covers star (d ∷ p) (x ∷ s)
    → Covers star p s
Covers-takes none d x p s e c = tt
Covers-takes (some (q, t)) d x p s e c = (
  omega (arith, c.0),
  c.1,
  λ n m.
      subst (λ r. glob p r ≡ true) (tail-drop n x s) (glob-tail d p (drop n (x ∷ s)) e (c.2 n m)),
)

Covers-notes : (q s : Bytes) → has_star s ≡ false → Covers (some (q, s)) q s
Covers-notes q s e = (omega arith, e, λ n m. m)

-- A star that is noted spans what the one before it could.
later_noted :
    (star : Star) (q s : Bytes)
    → Covers star (b'*' ∷ q) s
    → (glob (b'*' ∷ q) s || later star) ≡ glob (b'*' ∷ q) s
later_noted star q s c = elim (Bool-cases (later star)) [
  | inl e ↦
      let place = later_covered star (b'*' ∷ q) s c e in
      ground (arith, e, glob_star_star place.0 q s place.1)
  | inr e ↦ ground (arith, e)
]

later_next : (q t : Bytes) → (glob q t || later (some (q, t))) ≡ glob (b'*' ∷ q) t
later_next q [] = ground arith
later_next q (y ∷ t) = refl

abbrev Decided : ℕ → Type 0
Decided n =
    (p s : Bytes) (star : Star)
    → has_star s ≡ false
    → Covers star p s
    → is_done (match_from n p s star) ≡ true
    → match_from n p s star ≡ some (glob p s || later star)

back-Decided :
    (n x : ℕ) (p s : Bytes) (star : Star)
    → Decided n
    → Covers star p (x ∷ s)
    → is_done (go_back (match_from n) star) ≡ true
    → go_back (match_from n) star ≡ some (later star)
back-Decided n x p s none rest c e = refl
back-Decided n x p s (some (q, [])) rest c e = ground (arith, c.0)
back-Decided n x p s (some (q, y ∷ t)) rest c e =
    rest q t (some (q, t)) (ground (arith, c.1)) (Covers-notes q t (ground (arith, c.1))) e
    ∙ ap some (later_next q t)

-- A byte of the pattern that the byte fits, in a text without stars.
glob_byte :
    (d x : ℕ) (q s : Bytes)
    → (d == b'?' || d == x) ≡ true
    → (x == b'*') ≡ false
    → ((d == b'*') ≡ false) × (glob (d ∷ q) (x ∷ s) ≡ glob q s)
glob_byte d x q s e f = (ground (arith, e, f), ground (arith, e, f))

abbrev after_move : ℕ → ℕ → Bytes → Star → Move → Option Bool
after_move n x s star m = elim m [
  | takes q ↦ match_from n q s star
  | notes q ↦ match_from n q (x ∷ s) (some (q, x ∷ s))
  | back ↦ go_back (match_from n) star
]

match_from-Decided : (n : ℕ) → Decided n
unfolding match_from
match_from-Decided zero p s star h c e = ground (arith, e)
match_from-Decided (suc n) p [] star h c e = elim (Bool-cases (later star)) [
  | inl f ↦
      let place = later_covered star p [] c f in
      ground (arith, f, only_stars-glob p, subst (λ r. glob p r ≡ true) (drop-nil place.0) place.1)
  | inr f ↦ ground (arith, f, only_stars-glob p)
]
match_from-Decided (suc n) p (x ∷ s) star h c e = elim (move-cases p x) [
  | inl (d, q, f, t, g) ↦
      let byte = glob_byte d x q s t (ground (arith, h)) in
      rw (g, match_from)
        (match_from-Decided n q s star (ground (arith, h))
            (Covers-takes star d x q s byte.0 (subst (λ r. Covers star r (x ∷ s)) f c))
            (subst (λ m. is_done (after_move n x s star m) ≡ true) g e)
          ∙ ap (λ b. some (b || later star)) (sym (ap (λ r. glob r (x ∷ s)) f ∙ byte.1)))
  | inr (inl (q, f, t, g)) ↦
      rw (g, match_from)
        (match_from-Decided n q (x ∷ s) (some (q, x ∷ s)) h (Covers-notes q (x ∷ s) h)
            (subst (λ m. is_done (after_move n x s star m) ≡ true) g e)
          ∙ ap some (
              sym (
                ap (λ r. glob r (x ∷ s) || later star) f
                ∙ later_noted star q (x ∷ s) (subst (λ r. Covers star r (x ∷ s)) f c))))
  | inr (inr (g, f)) ↦
      rw (g, match_from)
        (back-Decided n x p s star (match_from-Decided n) c
            (subst (λ m. is_done (after_move n x s star m) ≡ true) g e)
          ∙ ap (λ b. some (b || later star)) (sym (f s (ground (arith, h)))))
]

-- In a text without stars, wildcardMatch answers exactly when the pattern matches: a `?` stands for any
-- byte, a `*` for any run of bytes, separators included, and another byte for itself.
pub wildcard_match-glob :
    (pattern s : Bytes) → has_star s ≡ false → wildcard_match pattern s ≡ glob pattern s
unfolding wildcard_match
wildcard_match-glob pattern s h =
    ground (
      arith,
      match_from-Decided (rounds pattern s) pattern s none h tt (match_from-rounds pattern s),
    )

drop_all : (s : Bytes) → drop (length s) s ≡ []
drop_all [] = refl
drop_all (x ∷ s) = drop_all s

starred_rounds :
    (n x : ℕ) (s : Bytes) → match_from (suc (suc n)) (b'*' ∷ []) (b'*' ∷ x ∷ s) none ≡ some false
unfolding match_from
starred_rounds n x s = refl

-- A lone star does not match a text of several bytes that begins with a star: the loop takes the star of
-- the pattern for a plain byte. By the meaning of the star it does.
pub wildcard_match_starred :
    (x : ℕ) (s : Bytes)
    → (wildcard_match (b'*' ∷ []) (b'*' ∷ x ∷ s) ≡ false) × (glob (b'*' ∷ []) (b'*' ∷ x ∷ s) ≡ true)
unfolding wildcard_match
wildcard_match_starred x s =
    let n = rounds (b'*' ∷ []) (b'*' ∷ x ∷ s) - 2 in
    let e : suc (suc n) ≡ rounds (b'*' ∷ []) (b'*' ∷ x ∷ s) = omega arith in
    (
      ap or_false (
          subst (λ k. match_from k (b'*' ∷ []) (b'*' ∷ x ∷ s) none ≡ some false) e
            (starred_rounds n x s)),
      glob-drop (suc (suc (length s))) [] (b'*' ∷ x ∷ s) (rw (drop_all s) refl),
    )
