-- ===== src/Cas/Tests.antt =====
-- Runs of internal/blob/cas.go on small buckets, and the theorems at them.
use reeve.Prelude.{
  ◌≡◌, refl, sym, ◌∙◌, ap, ◌⊎◌, inl, inr, true, false, List, [], ◌∷◌, Option, none, some, String,
  if◌then◌else◌, str_eq, str_eq_iff, is_blank, arith, Bool-cases, subst,
}
use reeve.Cas.{
  Store, Wrote, wrote, precondition_failed, Got, got, read_error, enforced, unsupported,
  create_failed, etag_of, probe_stale, probe_update, probe_match, probe_create, probe_key,
  probe_conditional_writes,
}
use reeve.Cas.Lax.{writes, passes, probe_conditional_writes-passes}
use reeve.Cas.Fair.{IsConditional, is_unsupported, probe_conditional_writes-supported}
use reeve.Cas.Cached.{told}

abbrev flip : String → String
flip c = if str_eq c "a" then "b" else "a"

-- A bucket with room for one object, of which it keeps the ETag; `a` and `b` take turns.
abbrev write_at : String → Option String → Wrote × Option String
write_at e none = if is_blank e then (wrote (some "a"), some "a") else (precondition_failed, none)
write_at e (some c) =
    if is_blank e
    then (precondition_failed, some c)
    else (if str_eq c e
        then (wrote (some (flip c)), some (flip c))
        else (precondition_failed, some c))

abbrev read_at : Option String → Got × Option String
read_at none = (read_error "not found", none)
read_at (some c) = (got (some c), some c)

abbrev small : Store (Option String)
small = record {
  put_if_match = λ key body e w. write_at e w;
  get = λ key w. read_at w;
  delete = λ key w. none;
  random_suffix = λ w. (some "0a1b", w);
}

small_passes : (probe_conditional_writes small none).0 ≡ enforced
unfolding probe_conditional_writes probe_key probe_create probe_match probe_update probe_stale
small_passes = refl

occupied_fails : (probe_conditional_writes small (some "a")).0 ≡ create_failed "precondition"
unfolding probe_conditional_writes probe_key
occupied_fails = refl

abbrev wrote_etag : Wrote → String
wrote_etag (wrote md) = etag_of md
wrote_etag r = ""

abbrev got_etag : Got → String
got_etag (got md) = etag_of md
got_etag (read_error e) = ""

flip_filled : (c : String) → is_blank (flip c) ≡ false
flip_filled c = elim (Bool-cases (str_eq c "a")) [ inl e ↦ rw e refl | inr e ↦ rw e refl ]

a_other : (c : String) → str_eq c "a" ≡ false → str_eq "a" c ≡ false
a_other c e = elim (Bool-cases (str_eq "a" c)) [
  | inl h ↦ ground (arith, e, (str_eq_iff c "a").1 (sym ((str_eq_iff "a" c).0 h)))
  | inr h ↦ h
]

flip_other : (c : String) → str_eq (flip c) c ≡ false
flip_other c = elim (Bool-cases (str_eq c "a")) [
  | inl e ↦ rw e (ap (str_eq "b") ((str_eq_iff c "a").0 e))
  | inr e ↦ rw e (a_other c e)
]

write_at-writes :
    (e : String) (w : Option String)
    → is_blank e ≡ false
    → writes (write_at e w).0 ≡ true
    → w ≡ some e
write_at-writes e none filled h = ground (arith, filled, h)
write_at-writes e (some c) filled h = ap some ((str_eq_iff c e).0 (ground (arith, filled, h)))

written_at :
    (e : String) (md : Option String) (w : Option String)
    → (write_at e w).0 ≡ wrote md
    → (new : String) × ((write_at e w).1 ≡ some new)
      × (is_blank new ≡ false)
      × (str_eq new e ≡ false)
      × ((is_blank (etag_of md) ≡ true) ⊎ (etag_of md ≡ new))
written_at e md none h = elim (Bool-cases (is_blank e)) [
  | inl b ↦ (
    "a",
    rw b refl,
    refl,
    ap (str_eq "a") ((str_eq_iff e "").0 b),
    inr (sym (ap wrote_etag h) ∙ rw b refl),
  )
  | inr b ↦ ground (arith, b, h)
]
written_at e md (some c) h = elim (Bool-cases (is_blank e)) [
  | inl b ↦ ground (arith, b, h)
  | inr b ↦ elim (Bool-cases (str_eq c e)) [
    | inl f ↦ (
      flip c,
      rw (b, f) refl,
      flip_filled c,
      subst (λ x. str_eq (flip c) x ≡ false) ((str_eq_iff c e).0 f) (flip_other c),
      inr (sym (ap wrote_etag h) ∙ rw (b, f) refl),
    )
    | inr f ↦ ground (arith, b, f, h)
  ]
]

refused_at :
    (e : String) (w : Option String) → writes (write_at e w).0 ≡ false → (write_at e w).1 ≡ w
refused_at e none h = ground (arith, h)
refused_at e (some c) h = ground (arith, h)

created_at : (w : Option String) → writes (write_at "" w).0 ≡ true → w ≡ none
created_at none h = refl
created_at (some c) h = ground (arith, h)

read_at_etag :
    (new : String) (md : Option String) (w : Option String)
    → (read_at w).0 ≡ got md
    → w ≡ some new
    → etag_of md ≡ new
read_at_etag new md none h here = ground (arith, h, here)
read_at_etag new md (some c) h here = sym (ap got_etag h) ∙ ap etag_of here

read_at_keeps : (w : Option String) → (read_at w).1 ≡ w
read_at_keeps none = refl
read_at_keeps (some c) = refl

small-IsConditional : IsConditional small (λ key w. w)
small-IsConditional = record {
  create_absent = λ key body w h. created_at w h;
  update_current = λ key body e w filled h. write_at-writes e w filled h;
  written = λ key body e md w h. written_at e md w h;
  refused_keeps = λ key body e w h. refused_at e w h;
  read_current = λ key new md w h here. read_at_etag new md w h here;
  read_keeps = λ key w. read_at_keeps w;
}

probe_conditional_writes-supported_example :
    is_unsupported (probe_conditional_writes small none).0 ≡ false
probe_conditional_writes-supported_example =
    probe_conditional_writes-supported small (λ key w. w) small-IsConditional none

-- A bucket that knows conditional updates but takes every create.
abbrev lax : Store (Option String)
lax = record {
  put_if_match = λ key body e w. if is_blank e then (wrote (some "a"), some "a") else write_at e w;
  get = λ key w. read_at w;
  delete = λ key w. none;
  random_suffix = λ w. (some "0a1b", w);
}

lax_unsupported : (probe_conditional_writes lax none).0 ≡ unsupported
unfolding probe_conditional_writes probe_key probe_create
lax_unsupported = refl

probe_conditional_writes-passes_example : passes (probe_conditional_writes lax none).0 ≡ false
probe_conditional_writes-passes_example =
    probe_conditional_writes-passes lax (inl (λ key body w. refl)) none

-- Somebody's object stands in the way of the first probe and is gone at the second.
abbrev moves : List (Option String → Option String)
moves = (λ w. some "a") ∷ (λ w. none) ∷ (λ w. some "a") ∷ []

told_twice : told small moves none ≡ create_failed "precondition" ∷ enforced ∷ enforced ∷ []
unfolding probe_conditional_writes probe_key probe_create probe_match probe_update probe_stale
told_twice = refl
