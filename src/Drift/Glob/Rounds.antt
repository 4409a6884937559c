-- ===== src/Drift/Glob/Rounds.antt =====
-- internal/drift/classify_filter.go: the loop of wildcardMatch ends.
use reeve.Prelude.{
  ℕ, zero, suc, ◌+◌, ◌*◌, ◌≤◌, ◌<◌, ◌≡◌, refl, subst, inl, inr, true, [], ◌∷◌, none, some, length,
  arith,
}
use reeve.Drift.Wildcard.{Bytes, Star, go_back, match_from, rounds}
use reeve.Drift.Glob.{is_done, move-cases}

-- The lengths that bound the rounds: k is above the lengths of the patterns, m bounds the text to which
-- the loop may still go back.
module _ (k : ℕ) where
  abbrev StarBound : ℕ → Bytes → Star → Type 0
  StarBound m s none = length s ≤ m
  StarBound m s (some (q, t)) = (length s ≤ length t) × (length t ≤ m) × (length q < k)

  record IsBounded (n m : ℕ) (p s : Bytes) (star : Star) : Type 0 where
    stars : StarBound m s star
    pattern : length p < k
    fuel : m * k + length p < n

  bound_text : (m : ℕ) (s : Bytes) (star : Star) → StarBound m s star → length s ≤ m
  bound_text m s none b = b
  bound_text m s (some (q, t)) b = omega (arith, b.0, b.1)

  bound_takes :
      (n m d x : ℕ) (p s : Bytes) (star : Star)
      → IsBounded (suc n) m (d ∷ p) (x ∷ s) star
      → IsBounded n m p s star
  bound_takes n m d x p s none b = record {
    stars = omega (arith, b.stars);
    pattern = omega (arith, b.pattern);
    fuel = omega (arith, b.fuel);
  }
  bound_takes n m d x p s (some (q, t)) b = record {
    stars = (omega (arith, b.stars.0), b.stars.1, b.stars.2);
    pattern = omega (arith, b.pattern);
    fuel = omega (arith, b.fuel);
  }

  bound_notes :
      (n m d x : ℕ) (p s : Bytes) (star : Star)
      → IsBounded (suc n) m (d ∷ p) (x ∷ s) star
      → IsBounded n m p (x ∷ s) (some (p, x ∷ s))
  bound_notes n m d x p s star b = record {
    stars = (omega arith, bound_text m (x ∷ s) star b.stars, omega (arith, b.pattern));
    pattern = omega (arith, b.pattern);
    fuel = omega (arith, b.fuel);
  }

  bound_back :
      (n m x y : ℕ) (p q s t : Bytes)
      → IsBounded (suc n) (suc m) p (x ∷ s) (some (q, y ∷ t))
      → IsBounded n m q t (some (q, t))
  bound_back n m x y p q s t b = record {
    stars = (omega arith, omega (arith, b.stars.1), b.stars.2);
    pattern = b.stars.2;
    fuel = omega (arith, b.fuel, b.stars.2);
  }

  back_done :
      (n m x : ℕ) (p s : Bytes) (star : Star)
      → ((m' : ℕ) (q t : Bytes) (star' : Star)
          → IsBounded n m' q t star'
          → is_done (match_from n q t star') ≡ true)
      → IsBounded (suc n) m p (x ∷ s) star
      → is_done (go_back (match_from n) star) ≡ true
  back_done n m x p s none rest b = refl
  back_done n m x p s (some (q, [])) rest b = refl
  back_done n zero x p s (some (q, y ∷ t)) rest b = ground (arith, b.stars)
  back_done n (suc m) x p s (some (q, y ∷ t)) rest b =
      rest m q t (some (q, t)) (bound_back n m x y p q s t b)

  match_from-done :
      (n m : ℕ) (p s : Bytes) (star : Star)
      → IsBounded n m p s star
      → is_done (match_from n p s star) ≡ true
  unfolding match_from
  match_from-done zero m p s star b = ground (arith, b.fuel)
  match_from-done (suc n) m p [] star b = refl
  match_from-done (suc n) m p (x ∷ s) star b = elim (move-cases p x) [
    | inl (d, q, e, c, f) ↦
        rw (f, match_from)
          (match_from-done n m q s star
            (bound_takes n m d x q s star (subst (λ r. IsBounded (suc n) m r (x ∷ s) star) e b)))
    | inr (inl (q, e, c, f)) ↦
        rw (f, match_from)
          (match_from-done n m q (x ∷ s) (some (q, x ∷ s))
            (bound_notes n m b'*' x q s star (subst (λ r. IsBounded (suc n) m r (x ∷ s) star) e b)))
    | inr (inr (f, g)) ↦ rw (f, match_from) (back_done n m x p s star (match_from-done n) b)
  ]

-- The loop has its answer within the rounds that wildcardMatch is given here, whatever the bytes.
pub match_from-rounds :
    (pattern s : Bytes) → is_done (match_from (rounds pattern s) pattern s none) ≡ true
match_from-rounds pattern s =
    match_from-done (suc (length pattern)) (rounds pattern s) (length s) pattern s none
      (record { stars = omega arith; pattern = omega arith; fuel = omega arith })
