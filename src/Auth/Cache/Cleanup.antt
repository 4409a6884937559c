-- ===== src/Auth/Cache/Cleanup.antt =====
-- internal/auth/cache.go: every credential is cleaned up once.
use reeve.Prelude.{
  ℕ, ◌+◌, ◌≡◌, refl, inl, inr, Bool, true, false, ◌&&◌, List, [], ◌∷◌, ◌++◌, Option, none, some,
  String, if◌then◌else◌, arith, Bool-cases, Option-cases,
}
use reeve.Auth.Cache.{
  Credential, Entry, Attempt, Cache, new_cache, credential_usable, entry_of, cleanup_credential,
  Acquired, acquired, failed, begun, begin, attempt_of, finish_failed, finish_acquired, hand,
  finish, invalidate_all, clean_all, close, Step, begin_step, finish_step, invalidate_step,
  close_step, step, run,
}

-- How many of the credentials pass a test.
abbrev pub tally : (Credential → Bool) → List Credential → ℕ
tally q [] = 0
tally q (c ∷ cs) = (if q c then 1 else 0) + tally q cs

tally-append :
    (q : Credential → Bool) (cs : List Credential) (c : Credential)
    → tally q (cs ++ (c ∷ [])) ≡ tally q cs + (if q c then 1 else 0)
tally-append q [] c = omega arith
tally-append q (d ∷ cs) c = omega (arith, tally-append q cs c)

-- Those that pass it and have a cleanup.
abbrev pub due : (Credential → Bool) → Credential → Bool
due q c = c.has_cleanup && q c

module _ (q : Credential → Bool) where
  -- What has been cleaned up and what is still to be is what has been handed out.
  abbrev pub IsBalanced : Cache → Type 0
  IsBalanced s =
      tally q s.cleaned + (if s.is_closed then 0 else tally (due q) s.owned)
      ≡ tally (due q) s.handed

  -- As long as a cache is open it has everything to clean that it owns.
  cleaned-cleanup_credential :
      (c : Credential) (s : Cache)
      → tally q (cleanup_credential c s).cleaned ≡ tally q s.cleaned + (if due q c then 1 else 0)
  cleaned-cleanup_credential c s = ground arith

  closed_balance :
      (s : Cache)
      → s.is_closed ≡ true
      → IsBalanced s
      → tally q s.cleaned + 0 ≡ tally (due q) s.handed
  closed_balance s c b = ground arith

  open_balance :
      (s : Cache)
      → s.is_closed ≡ false
      → IsBalanced s
      → tally q s.cleaned + tally (due q) s.owned ≡ tally (due q) s.handed
  open_balance s c b = ground arith

  begun-IsBalanced : (e : Entry) (s : Cache) → IsBalanced s → IsBalanced (begun e s).1
  begun-IsBalanced e s b = elim (Option-cases e.attempt) [ inl n ↦ rw n b | inr (k, n) ↦ rw n b ]

  begin-IsBalanced :
      (margin : ℕ) (name : String) (now : ℕ) (s : Cache)
      → IsBalanced s
      → IsBalanced (begin margin name now s).1
  unfolding begin
  begin-IsBalanced margin name now s b =
      let e = entry_of name s.entries in
      elim (Bool-cases s.is_closed) [
        | inl c ↦ rw (c, begin) (closed_balance s c b)
        | inr c ↦ elim (Option-cases e.credential) [
          | inl n ↦ rw (c, n, begin) (begun-IsBalanced e s b)
          | inr (d, n) ↦ elim (Bool-cases (credential_usable d now margin)) [
            | inl u ↦ rw (c, n, u, begin) b
            | inr u ↦ rw (c, n, u, begin) (begun-IsBalanced e s b)
          ]
        ]
      ]

  finish_failed-IsBalanced :
      (a : Attempt) (c : Option Credential) (s : Cache)
      → IsBalanced s
      → IsBalanced (finish_failed a c (hand c s)).1
  finish_failed-IsBalanced a none s b = b
  finish_failed-IsBalanced a (some c) s b = ground arith

  finish_acquired-IsBalanced :
      (a : Attempt) (c : Credential) (s : Cache)
      → IsBalanced s
      → IsBalanced (finish_acquired a c (hand (some c) s)).1
  finish_acquired-IsBalanced a c s b = ground (arith, tally-append (due q) s.owned c)

  finish-IsBalanced :
      (margin n : ℕ) (answer : Acquired) (now : ℕ) (s : Cache)
      → IsBalanced s
      → IsBalanced (finish margin n answer now s).1
  unfolding finish
  finish-IsBalanced margin n (failed c) now s b = elim (Option-cases (attempt_of n s.attempts)) [
    | inl e ↦ rw (e, finish) b
    | inr (a, e) ↦ rw (e, finish) (finish_failed-IsBalanced a c s b)
  ]
  finish-IsBalanced margin n (acquired c) now s b = elim (Option-cases (attempt_of n s.attempts)) [
    | inl e ↦ rw (e, finish) b
    | inr (a, e) ↦ elim (Bool-cases (credential_usable c now margin)) [
      | inl u ↦ rw (e, u, finish) (finish_acquired-IsBalanced a c s b)
      | inr u ↦ rw (e, u, finish) (finish_failed-IsBalanced a (some c) s b)
    ]
  ]

  tally-clean_all :
      (cs : List Credential) (s : Cache)
      → tally q (clean_all cs s).cleaned ≡ tally (due q) cs + tally q s.cleaned
  tally-clean_all [] s = omega arith
  tally-clean_all (c ∷ cs) s =
      omega (arith, tally-clean_all cs s, cleaned-cleanup_credential c (clean_all cs s))

  handed-clean_all : (cs : List Credential) (s : Cache) → (clean_all cs s).handed ≡ s.handed
  handed-clean_all [] s = refl
  handed-clean_all (c ∷ cs) s = ground (arith, handed-clean_all cs s)

  is_closed-clean_all :
      (cs : List Credential) (s : Cache) → (clean_all cs s).is_closed ≡ s.is_closed
  is_closed-clean_all [] s = refl
  is_closed-clean_all (c ∷ cs) s = ground (arith, is_closed-clean_all cs s)

  close-IsBalanced : (s : Cache) → IsBalanced s → IsBalanced (close s).1
  unfolding close
  close-IsBalanced s b =
      let s1 = record s { is_closed = true } in
      ground (
        arith,
        tally-clean_all s.owned s1,
        handed-clean_all s.owned s1,
        is_closed-clean_all s.owned s1,
      )

  invalidate_all-IsBalanced : (s : Cache) → IsBalanced s → IsBalanced (invalidate_all s).1
  unfolding invalidate_all
  invalidate_all-IsBalanced s b = elim (Bool-cases s.is_closed) [
    | inl c ↦ rw (c, invalidate_all) (closed_balance s c b)
    | inr c ↦ rw (c, invalidate_all) (open_balance s c b)
  ]

  step-IsBalanced :
      (margin : ℕ) (t : Step) (s : Cache) → IsBalanced s → IsBalanced (step margin t s).1
  step-IsBalanced margin (begin_step name now) s b = begin-IsBalanced margin name now s b
  step-IsBalanced margin (finish_step n answer now) s b = finish-IsBalanced margin n answer now s b
  step-IsBalanced margin invalidate_step s b = invalidate_all-IsBalanced s b
  step-IsBalanced margin close_step s b = close-IsBalanced s b

  -- Whichever requests, answers of providers, invalidations and calls of Close follow on one another from a new
  -- cache, and for any test of credentials: those that pass it and have been cleaned up are, with those that
  -- pass it, have a cleanup and are owned by the cache while it is open, as many as those that pass it, have a
  -- cleanup and were handed out by a provider. So none is cleaned up twice, and once the cache is closed every
  -- one is cleaned up, also one whose provider answers after that.
  pub run-IsBalanced : (margin : ℕ) (steps : List Step) → IsBalanced (run margin steps new_cache)
  unfolding run
  run-IsBalanced margin steps = go steps new_cache refl
    where
      go : (steps : List Step) (s : Cache) → IsBalanced s → IsBalanced (run margin steps s)
      go [] s b = b
      go (t ∷ steps) s b = go steps (step margin t s).1 (step-IsBalanced margin t s b)
