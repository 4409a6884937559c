-- ===== src/Discovery/Listed.antt =====
-- internal/core/discovery/discovery.go: what Resolve answers.
use reeve.Prelude.{
  ℕ, ◌+◌, ◌≡◌, refl, ◌∙◌, ap, inl, inr, Bool, true, false, not, ◌&&◌, ◌||◌, List, [], ◌∷◌, ◌++◌,
  String, if◌then◌else◌, any, select, member, str_eq, str_eq_iff, is_blank, arith, Bool-cases,
}
use reeve.Discovery.{Stack, ref_of, Index}
use reeve.Discovery.Declared.{
  Declaration, Filter, append_at, declared_by_path, declared_by_pattern, str_lt, insert_by_ref,
  sort_by_ref, is_listed, declared, excluded, resolve,
}

member-append :
    (s : String) (xs ys : List String) → member s (xs ++ ys) ≡ (member s xs || member s ys)
member-append s [] ys = refl
member-append s (x ∷ xs) ys = ground (arith, member-append s xs ys)

is_listed-append_at :
    (path name key : String) (texts : List String) (index : Index)
    → is_listed path name (append_at key texts index)
      ≡ (is_listed path name index || str_eq key path && member name texts)
unfolding append_at
is_listed-append_at path name key texts [] = ground arith
is_listed-append_at path name key texts ((k, old) ∷ rest) = elim (Bool-cases (str_eq k key)) [
  | inl e ↦
      ground
        (arith, e, ap (λ x. str_eq x path) ((str_eq_iff k key).0 e), member-append name old texts)
  | inr e ↦ elim (Bool-cases (str_eq k path)) [
    | inl f ↦ ground (
      arith,
      e,
      f,
      (str_eq_iff k path).0 f,
      (str_eq_iff key path).0,
      ap (λ x. str_eq k x) ((str_eq_iff k path).0 f),
      λ (h : str_eq key path ≡ true). ap (λ x. str_eq k x) ((str_eq_iff key path).0 h),
    )
    | inr f ↦ ground (arith, e, f, is_listed-append_at path name key texts rest)
  ]
]

module _ (glob_match : String → String → Bool) where
  -- The declaration is for the stack: by its pattern if it has one, by its path if it has none.
  abbrev pub is_declared_by : Stack → Declaration → Bool
  is_declared_by s d =
      (if is_blank d.pattern
        then not (is_blank d.path) && str_eq d.path s.path
        else glob_match d.pattern s.path)
      && member s.name d.stacks

  declared-any :
      (s : Stack) (index : Index) (decls : List Declaration)
      → declared glob_match s (declared_by_path index decls) (declared_by_pattern decls)
        ≡ (is_listed s.path s.name index || any (is_declared_by s) decls)
  unfolding declared_by_path
  declared-any s index [] = ground arith
  declared-any s index (d ∷ decls) = ground (
    arith,
    declared-any s index decls,
    declared-any s (append_at d.path d.stacks index) decls,
    is_listed-append_at s.path s.name d.path d.stacks index,
  )

str_lt_asym : (s t : String) → str_lt s t ≡ true → str_lt t s ≡ false
str_lt_asym s String.[] e = ground (arith, e)
str_lt_asym String.[] (String.◌∷◌ d t) e = refl
str_lt_asym (String.◌∷◌ c s) (String.◌∷◌ d t) e = ground (arith, e, str_lt_asym s t)

-- No stack of the list has a Ref behind that of the next.
abbrev pub is_sorted : List Stack → Bool
is_sorted [] = true
is_sorted (s ∷ []) = true
is_sorted (s ∷ t ∷ ts) = not (str_lt (ref_of t) (ref_of s)) && is_sorted (t ∷ ts)

is_sorted-insert_by_ref :
    (s : Stack) (ts : List Stack) → is_sorted ts ≡ true → is_sorted (insert_by_ref s ts) ≡ true
unfolding insert_by_ref
is_sorted-insert_by_ref s [] e = refl
is_sorted-insert_by_ref s (t ∷ []) e = ground (arith, str_lt_asym (ref_of t) (ref_of s))
is_sorted-insert_by_ref s (t ∷ u ∷ ts) e =
    ground (arith, e, str_lt_asym (ref_of t) (ref_of s), is_sorted-insert_by_ref s (u ∷ ts))

is_sorted-sort_by_ref : (stacks : List Stack) → is_sorted (sort_by_ref stacks) ≡ true
unfolding sort_by_ref
is_sorted-sort_by_ref [] = refl
is_sorted-sort_by_ref (s ∷ stacks) =
    is_sorted-insert_by_ref s (sort_by_ref stacks) (is_sorted-sort_by_ref stacks)

-- How many stacks pass a test.
abbrev pub tally : (Stack → Bool) → List Stack → ℕ
tally q [] = 0
tally q (s ∷ stacks) = (if q s then 1 else 0) + tally q stacks

tally-insert_by_ref :
    (q : Stack → Bool) (s : Stack) (ts : List Stack)
    → tally q (insert_by_ref s ts) ≡ tally q (s ∷ ts)
unfolding insert_by_ref
tally-insert_by_ref q s [] = refl
tally-insert_by_ref q s (t ∷ ts) = ground (arith, tally-insert_by_ref q s ts)

tally-sort_by_ref :
    (q : Stack → Bool) (stacks : List Stack) → tally q (sort_by_ref stacks) ≡ tally q stacks
unfolding sort_by_ref
tally-sort_by_ref q [] = refl
tally-sort_by_ref q (s ∷ stacks) =
    ground (arith, tally-insert_by_ref q s (sort_by_ref stacks), tally-sort_by_ref q stacks)

tally-select :
    (q p r : Stack → Bool) (e : (s : Stack) → p s ≡ r s) (stacks : List Stack)
    → tally q (select p stacks) ≡ tally (λ s. q s && r s) stacks
tally-select q p r e [] = refl
tally-select q p r e (s ∷ stacks) = ground (arith, e s, tally-select q p r e stacks)

module _ (glob_match : String → String → Bool) where
  -- Resolve answers in the order of their references, each as often as it is enumerated, the stacks that a
  -- declaration is for, by its pattern or by its path, and that the filter does not exclude, and no other.
  pub resolve-tally :
      (enumerated : List Stack) (decls : List Declaration) (filter : Filter)
      → (is_sorted (resolve glob_match enumerated decls filter) ≡ true)
        × ((q : Stack → Bool)
            → tally q (resolve glob_match enumerated decls filter)
              ≡ tally
                  (λ s.
                    q s
                    && (any (is_declared_by glob_match s) decls
                        && not (excluded glob_match s filter)))
                  enumerated)
  unfolding resolve
  resolve-tally enumerated decls filter =
      let kept = λ (s : Stack).
        declared glob_match s (declared_by_path [] decls) (declared_by_pattern decls)
        && not (excluded glob_match s filter) in
      (
        is_sorted-sort_by_ref (select kept enumerated),
        λ q.
            tally-sort_by_ref q (select kept enumerated)
            ∙ tally-select q kept _
                (λ s.
                  ap (λ b. b && not (excluded glob_match s filter))
                    (declared-any glob_match s [] decls))
                enumerated,
      )
