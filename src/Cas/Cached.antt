-- ===== src/Cas/Cached.antt =====
-- internal/blob/cas.go: what a process is told by its probe, call after call.
use reeve.Prelude.{
  ◌≡◌, refl, ap, inl, inr, List, [], ◌∷◌, map, none, some, if◌then◌else◌, Bool-cases,
}
use reeve.Cas.{Store, Verdict, CasProbe, is_definitive, ensure, probe_conditional_writes}

module _ {World : Type 0} (store : Store World) where
  -- What the calls of one probe answer, with what happens to the bucket before each.
  abbrev pub answers : CasProbe → List (World → World) → World → List Verdict
  answers p [] w = []
  answers p (others ∷ moves) w =
      let call = ensure store p (others w) in call.0 ∷ answers call.1 moves call.2

  -- What they are to answer: a probe of the bucket each time, up to the first verdict, which stays.
  abbrev pub told : List (World → World) → World → List Verdict
  told [] w = []
  told (others ∷ moves) w =
      let answer = probe_conditional_writes store (others w) in
      let later = told moves answer.1 in
      answer.0 ∷ (if is_definitive answer.0 then map (λ m. answer.0) moves else later)

  answers_cached :
      (v : Verdict) (moves : List (World → World)) (w : World)
      → answers (some v) moves w ≡ map (λ m. v) moves
  unfolding ensure
  answers_cached v [] w = refl
  answers_cached v (others ∷ moves) w = ap (λ vs. v ∷ vs) (answers_cached v moves (others w))

  -- Whatever others do to the bucket in between, the calls of Ensure answer what a probe of the bucket
  -- answers each time, up to the first that tells whether the bucket enforces conditional writes; from then
  -- on they answer that.
  pub answers-told :
      (moves : List (World → World)) (w : World) → answers none moves w ≡ told moves w
  unfolding ensure
  answers-told [] w = refl
  answers-told (others ∷ moves) w =
      let answer = probe_conditional_writes store (others w) in
      elim (Bool-cases (is_definitive answer.0)) [
        | inl e ↦ rw e (ap (λ vs. answer.0 ∷ vs) (answers_cached answer.0 moves answer.1))
        | inr e ↦ rw e (ap (λ vs. answer.0 ∷ vs) (answers-told moves answer.1))
      ]
