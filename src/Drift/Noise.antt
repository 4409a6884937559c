-- ===== src/Drift/Noise.antt =====
-- internal/drift/classify_filter.go: what the filter keeps, and that a second pass takes nothing more.
use reeve.Prelude.{
  ◌≡◌, refl, sym, ap, subst, inl, inr, Bool, true, false, not, ◌&&◌, ◌||◌, List, [], ◌∷◌, map,
  Option, none, some, if◌then◌else◌, ◌==◌, length, length-select-le, is_empty, select, str_eq,
  arith, Bool-cases, if_cases,
}
use reeve.Drift.Wildcard.{Bytes, matches_any}
use reeve.Drift.Filter.{
  Classification, IgnoreProperty, ResourceChange, kept, ignored_props_for, retained_paths,
  verdict_of, verdict, filtered_one, filter_from, filter, is_neutral,
}

-- The paths of a resource that no property glob for its type matches.
abbrev pub open_paths : Classification → ResourceChange → List Bytes
open_paths c r =
    select (λ p. not (matches_any p (ignored_props_for c.ignore_properties r.kind))) r.paths

-- An update whose paths are known.
abbrev pub is_update : ResourceChange → Bool
is_update r = str_eq r.op "update" && not (is_empty r.paths)

-- A resource that is ignored by its address, by its category, or as an update of ignored paths only.
abbrev pub is_noise : Classification → ResourceChange → Bool
is_noise c r =
    matches_any r.address c.ignore_resources
    || not c.treat_orphaned_as_drift && str_eq r.category "orphaned"
    || not c.treat_missing_as_drift && str_eq r.category "missing"
    || is_update r && is_empty (open_paths c r)

-- A resource without the paths that are ignored in an update.
abbrev pub strip : Classification → ResourceChange → ResourceChange
strip c r = if is_update r then record r { paths = open_paths c r } else r

module _ {ℓ} {A : Type ℓ} where
  -- A selection of the full length is the whole.
  select_full : (p : A → Bool) (xs : List A) → length (select p xs) ≡ length xs → select p xs ≡ xs
  select_full p [] e = refl
  select_full p (x ∷ xs) e = elim (Bool-cases (p x)) [
    | inl t ↦ rw (t, select) (ap (λ ys. x ∷ ys) (select_full p xs (ground (arith, e, t))))
    | inr f ↦ ground (arith, e, f, length-select-le p xs)
  ]

  select-select : (p : A → Bool) (xs : List A) → select p (select p xs) ≡ select p xs
  select-select p [] = refl
  select-select p (x ∷ xs) = ground (arith, select-select p xs)

  select-true : (p : A → Bool) (xs : List A) → ((x : A) → p x ≡ true) → select p xs ≡ xs
  select-true p [] h = refl
  select-true p (x ∷ xs) h = ground (arith, h x, select-true p xs h)

not_ignored :
    (ignored : List Bytes) (paths : List Bytes)
    → (if is_empty ignored then paths else select (λ p. not (matches_any p ignored)) paths)
      ≡ select (λ p. not (matches_any p ignored)) paths
unfolding matches_any
not_ignored [] paths = sym (select-true (λ p. not (matches_any p [])) paths (λ p. refl))
not_ignored (i ∷ ignored) paths = refl

retained_paths-open :
    (c : Classification) (r : ResourceChange) → retained_paths c r ≡ open_paths c r
unfolding retained_paths
retained_paths-open c r = not_ignored (ignored_props_for c.ignore_properties r.kind) r.paths

-- The paths that stay are the whole where their number is.
open_paths_full :
    (c : Classification) (r : ResourceChange)
    → (length (open_paths c r) == length r.paths) ≡ true
    → record r { paths = open_paths c r } ≡ r
open_paths_full c r e =
    ap (λ ps. record r { paths = ps }) (select_full _ r.paths (ground (arith, e)))

update_one :
    (c : Classification) (r : ResourceChange)
    → filtered_one r (verdict_of r (open_paths c r))
      ≡ (if is_empty (open_paths c r) then [] else (record r { paths = open_paths c r } ∷ []))
update_one c r = elim (Bool-cases (length (open_paths c r) == length r.paths)) [
  | inl e ↦ ground (arith, e, open_paths_full c r e)
  | inr e ↦ ground (arith, e)
]

-- The verdict on a resource that is no update, or an update.
verdict_one :
    (c : Classification) (r : ResourceChange)
    → filtered_one r (verdict c r) ≡ (if is_noise c r then [] else strip c r ∷ [])
unfolding verdict
verdict_one c r = ground (arith, retained_paths-open c r, update_one c r)

abbrev quiet : Classification → List ResourceChange → List ResourceChange
quiet c rs = map (strip c) (select (λ r. not (is_noise c r)) rs)

filter_from-quiet :
    (c : Classification) (rs : List ResourceChange) → (filter_from c rs).0 ≡ quiet c rs
unfolding filter_from
filter_from-quiet c [] = refl
filter_from-quiet c (r ∷ rs) = elim (Bool-cases (is_noise c r)) [
  | inl e ↦ ground (arith, e, verdict_one c r, filter_from-quiet c rs)
  | inr e ↦ ground (arith, e, verdict_one c r, filter_from-quiet c rs)
]

matches_none : (t : Bytes) (ps : List Bytes) → is_empty ps ≡ true → matches_any t ps ≡ false
unfolding matches_any
matches_none t [] e = refl
matches_none t (p ∷ ps) e = ground (arith, e)

ignored_none :
    (ips : List IgnoreProperty) (typ : Bytes) → is_empty ips ≡ true → ignored_props_for ips typ ≡ []
unfolding ignored_props_for
ignored_none [] typ e = refl
ignored_none (ip ∷ ips) typ e = ground (arith, e)

-- A classification without globs that counts both categories as drift takes nothing.
neutral_one :
    (c : Classification) (r : ResourceChange) → is_neutral (some c) ≡ true → verdict c r ≡ kept
unfolding verdict retained_paths
neutral_one c r e =
    ground
      (arith, e, matches_none r.address c.ignore_resources, ignored_none c.ignore_properties r.kind)

other_kept :
    (c : Classification) (r : ResourceChange)
    → is_noise c r ≡ false
    → is_update r ≡ false
    → verdict c r ≡ kept
unfolding verdict
other_kept c r e u = ground (arith, e, u)

trimmed_kept :
    (c : Classification) (r : ResourceChange)
    → is_noise c r ≡ false
    → is_update r ≡ true
    → verdict c (record r { paths = open_paths c r }) ≡ kept
unfolding verdict
trimmed_kept c r e u = ground (
  arith,
  e,
  u,
  retained_paths-open c (record r { paths = open_paths c r }),
  select-select (λ p. not (matches_any p (ignored_props_for c.ignore_properties r.kind))) r.paths,
)

strip-kept :
    (c : Classification) (r : ResourceChange) → is_noise c r ≡ false → verdict c (strip c r) ≡ kept
strip-kept c r e =
    if_cases (λ s. verdict c s ≡ kept) (is_update r) _ r (trimmed_kept c r e)
      (λ u. other_kept c r e u)

-- A second pass takes nothing.
filter_from-again :
    (c : Classification) (rs : List ResourceChange)
    → filter_from c (quiet c rs) ≡ (quiet c rs, false)
unfolding filter_from
filter_from-again c [] = refl
filter_from-again c (r ∷ rs) = elim (Bool-cases (is_noise c r)) [
  | inl e ↦ ground (arith, e, filter_from-again c rs)
  | inr e ↦ ground (arith, e, filter_from-again c rs, strip-kept c r e)
]

neutral-quiet :
    (c : Classification) (rs : List ResourceChange) → is_neutral (some c) ≡ true → quiet c rs ≡ rs
neutral-quiet c [] n = refl
neutral-quiet c (r ∷ rs) n =
    let one = verdict_one c r in ground (arith, one, neutral_one c r n, neutral-quiet c rs n)

-- The filter keeps exactly the resources that are no noise, in their order, each without its ignored
-- paths if it is an update, also where the code takes its short way out.
pub filter-quiet :
    (c : Classification) (rs : List ResourceChange)
    → (filter (some c) rs).0 ≡ map (strip c) (select (λ r. not (is_noise c r)) rs)
unfolding filter
filter-quiet c [] = ground arith
filter-quiet c (r ∷ rs) = elim (Bool-cases (is_neutral (some c))) [
  | inl n ↦ ground (arith, n, neutral-quiet c (r ∷ rs) n)
  | inr n ↦ ground (arith, n, filter_from-quiet c (r ∷ rs))
]

quiet_again :
    (c : Classification) (rs : List ResourceChange)
    → filter (some c) (quiet c rs) ≡ (quiet c rs, false)
unfolding filter
quiet_again c rs =
    if_cases (λ r. r ≡ (quiet c rs, false)) (is_neutral (some c) || is_empty (quiet c rs)) _ _
      (λ e. refl) (λ e. filter_from-again c rs)

-- What the filter keeps it keeps again: a second pass leaves it as it is and reports nothing removed.
pub filter-filter :
    (c : Option Classification) (rs : List ResourceChange)
    → filter c (filter c rs).0 ≡ ((filter c rs).0, false)
unfolding filter
filter-filter none rs = refl
filter-filter (some c) rs =
    subst (λ q. filter (some c) q ≡ (q, false)) (sym (filter-quiet c rs)) (quiet_again c rs)
