-- ===== src/Discovery/Unique.antt =====
-- internal/core/discovery/discovery.go: the test that a reference names one stack.
use reeve.Prelude.{
  ◌≤◌, ◌≡◌, refl, ◌∙◌, ap, inl, inr, Bool, true, false, not, ◌&&◌, ◌||◌, List, [], ◌∷◌, Option,
  none, some, String, any, all, is_empty, length, length-append, ltb, str_eq, str_eq_iff, arith,
  Bool-cases, Option-cases,
}
use reeve.Discovery.{Stack, ref_of, Index, lookup}
use reeve.Discovery.Declared.{
  append_at, paths_by_ref, insert_text, sort_texts, duplicate_refs, first_duplicate,
  validate_unique_refs,
}

abbrev has_entry : String → Index → Bool
has_entry key index = any (λ e. str_eq e.0 key) index

-- No entry has more than one text.
abbrev are_short : Index → Bool
are_short index = all (λ e. not (ltb 1 (length e.1))) index

abbrev are_filled : Index → Bool
are_filled index = all (λ e. not (is_empty e.1)) index

filled_length : (texts : List String) → is_empty texts ≡ false → 1 ≤ length texts
filled_length [] e = ground (arith, e)
filled_length (t ∷ texts) e = omega arith

has_entry-append_at :
    (j key text : String) (index : Index)
    → has_entry j (append_at key (text ∷ []) index) ≡ (has_entry j index || str_eq key j)
unfolding append_at
has_entry-append_at j key text [] = ground arith
has_entry-append_at j key text ((k, old) ∷ rest) = elim (Bool-cases (str_eq k key)) [
  | inl e ↦ ground (arith, e, ap (λ x. str_eq x j) ((str_eq_iff k key).0 e))
  | inr e ↦ ground (arith, e, has_entry-append_at j key text rest)
]

are_filled-append_at :
    (key text : String) (index : Index)
    → are_filled index ≡ true
    → are_filled (append_at key (text ∷ []) index) ≡ true
unfolding append_at
are_filled-append_at key text [] f = refl
are_filled-append_at key text ((k, []) ∷ rest) f = ground (arith, f)
are_filled-append_at key text ((k, t ∷ old) ∷ rest) f =
    ground (arith, f, are_filled-append_at key text rest)

are_short-append_at :
    (key text : String) (index : Index)
    → are_filled index ≡ true
    → are_short (append_at key (text ∷ []) index) ≡ (not (has_entry key index) && are_short index)
unfolding append_at
are_short-append_at key text [] f = refl
are_short-append_at key text ((k, old) ∷ rest) f =
    ground (
      arith,
      f,
      filled_length old,
      length-append old (text ∷ []),
      are_short-append_at key text rest,
    )

-- No two stacks have one Ref.
abbrev pub is_unique : List Stack → Bool
is_unique [] = true
is_unique (s ∷ stacks) = not (any (λ t. str_eq (ref_of s) (ref_of t)) stacks) && is_unique stacks

abbrev is_fresh : Index → List Stack → Bool
is_fresh index stacks = not (any (λ t. has_entry (ref_of t) index) stacks)

any-or :
    (p q : Stack → Bool) (stacks : List Stack)
    → any (λ t. p t || q t) stacks ≡ (any p stacks || any q stacks)
any-or p q [] = refl
any-or p q (s ∷ stacks) = ground (arith, any-or p q stacks)

any_ap :
    (p q : Stack → Bool) (e : (t : Stack) → p t ≡ q t) (stacks : List Stack)
    → any p stacks ≡ any q stacks
any_ap p q e [] = refl
any_ap p q e (s ∷ stacks) = ground (arith, e s, any_ap p q e stacks)

is_fresh-append_at :
    (key text : String) (index : Index) (stacks : List Stack)
    → is_fresh (append_at key (text ∷ []) index) stacks
      ≡ (is_fresh index stacks && not (any (λ t. str_eq key (ref_of t)) stacks))
is_fresh-append_at key text index stacks = ground (
  arith,
  any_ap (λ t. has_entry (ref_of t) (append_at key (text ∷ []) index))
      (λ t. has_entry (ref_of t) index || str_eq key (ref_of t))
      (λ t. has_entry-append_at (ref_of t) key text index) stacks,
  any-or (λ t. has_entry (ref_of t) index) (λ t. str_eq key (ref_of t)) stacks,
)

are_short-paths_by_ref :
    (index : Index) (stacks : List Stack)
    → are_filled index ≡ true
    → are_short (paths_by_ref index stacks)
      ≡ (are_short index && is_unique stacks && is_fresh index stacks)
unfolding paths_by_ref
are_short-paths_by_ref index [] f = ground arith
are_short-paths_by_ref index (s ∷ stacks) f = ground (
  arith,
  are_short-paths_by_ref (append_at (ref_of s) (s.path ∷ []) index) stacks
      (are_filled-append_at (ref_of s) s.path index f),
  are_short-append_at (ref_of s) s.path index f,
  is_fresh-append_at (ref_of s) s.path index stacks,
)

is_empty-insert_text : (s : String) (ts : List String) → is_empty (insert_text s ts) ≡ false
unfolding insert_text
is_empty-insert_text s [] = refl
is_empty-insert_text s (t ∷ ts) = ground arith

is_empty-sort_texts : (ts : List String) → is_empty (sort_texts ts) ≡ is_empty ts
unfolding sort_texts
is_empty-sort_texts [] = refl
is_empty-sort_texts (t ∷ ts) = is_empty-insert_text t (sort_texts ts)

is_empty-duplicate_refs : (index : Index) → is_empty (duplicate_refs index) ≡ are_short index
unfolding duplicate_refs
is_empty-duplicate_refs [] = refl
is_empty-duplicate_refs ((ref, paths) ∷ index) = ground (arith, is_empty-duplicate_refs index)

abbrev pub is_accepted : Option (String × List String) → Bool
is_accepted none = true
is_accepted (some e) = false

is_accepted-first_duplicate :
    (index : Index) (refs : List String) → is_accepted (first_duplicate index refs) ≡ is_empty refs
is_accepted-first_duplicate index [] = refl
is_accepted-first_duplicate index (ref ∷ refs) = elim (Option-cases (lookup ref index)) [
  | inl e ↦ ground (arith, e)
  | inr (paths, e) ↦ ground (arith, e)
]

is_fresh_none : (stacks : List Stack) → is_fresh [] stacks ≡ true
is_fresh_none [] = refl
is_fresh_none (s ∷ stacks) = is_fresh_none stacks

-- ValidateUniqueRefs accepts a list of stacks exactly if no two of them have one reference.
pub validate_unique_refs_iff :
    (stacks : List Stack) → is_accepted (validate_unique_refs stacks) ≡ is_unique stacks
unfolding validate_unique_refs
validate_unique_refs_iff stacks =
    is_accepted-first_duplicate (paths_by_ref [] stacks)
      (sort_texts (duplicate_refs (paths_by_ref [] stacks)))
    ∙ (is_empty-sort_texts (duplicate_refs (paths_by_ref [] stacks))
        ∙ (is_empty-duplicate_refs (paths_by_ref [] stacks)
            ∙ ground (arith, are_short-paths_by_ref [] stacks refl, is_fresh_none stacks)))
