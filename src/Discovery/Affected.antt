-- ===== src/Discovery/Affected.antt =====
-- internal/core/discovery/discovery.go: which stacks a change affects.
use reeve.Prelude.{
  ◌≡◌, refl, ◌∙◌, ap, inl, inr, Bool, true, false, not, ◌&&◌, ◌||◌, List, [], ◌∷◌, String, any,
  select, all, member, str_eq, str_eq_iff, str_eq_refl, arith, Option-cases, Bool-cases,
}
use reeve.Discovery.{
  Stack, ChangeMapping, AffectedResult, docs_only, file_matches_stack, lookup, matches_any,
  is_triggered, mark_matched, is_hit, hit_from, is_skipped, matched, broadened, concluded,
  affected_by, affected_detailed,
}

module _ (path_match : String → String → Bool) (cm : ChangeMapping) where
  -- The file is the stack's own or one that triggers it.
  abbrev pub claims : Stack → String → Bool
  claims s f = file_matches_stack s f || is_triggered path_match cm s (f ∷ [])

  any_none : (ps : List String) → any (λ p. any (path_match p) []) ps ≡ false
  any_none [] = refl
  any_none (p ∷ ps) = any_none ps

  matches_any-cons :
      (ps : List String) (f : String) (fs : List String)
      → matches_any path_match ps (f ∷ fs)
        ≡ (matches_any path_match ps (f ∷ []) || matches_any path_match ps fs)
  matches_any-cons [] f fs = refl
  matches_any-cons (p ∷ ps) f fs = ground (arith, matches_any-cons ps f fs)

  is_triggered-cons :
      (s : Stack) (f : String) (fs : List String)
      → is_triggered path_match cm s (f ∷ fs)
        ≡ (is_triggered path_match cm s (f ∷ []) || is_triggered path_match cm s fs)
  is_triggered-cons s f fs = elim (Option-cases (lookup s.project cm.extra_triggers)) [
    | inl e ↦ ground (arith, e)
    | inr (ts, e) ↦ ground (arith, e, matches_any-cons ts f fs)
  ]

  is_triggered-none : (s : Stack) → is_triggered path_match cm s [] ≡ false
  is_triggered-none s = elim (Option-cases (lookup s.project cm.extra_triggers)) [
    | inl e ↦ ground (arith, e)
    | inr (ts, e) ↦ ground (arith, e, any_none ts)
  ]

  is_hit-claims : (s : Stack) (fs : List String) → is_hit path_match cm fs s ≡ any (claims s) fs
  is_hit-claims s [] = is_triggered-none s
  is_hit-claims s (f ∷ fs) = ground (arith, is_triggered-cons s f fs, is_hit-claims s fs)

  member_same : (g f : String) → str_eq g f ≡ true → (s : Stack) → claims s g ≡ claims s f
  member_same g f e s = ap (claims s) ((str_eq_iff g f).0 e)

  -- A file stands among the marked ones if it did, or the stack claims it and it is one of the files.
  member-mark_matched :
      (g : String) (marked : List String) (s : Stack) (fs : List String)
      → member g (mark_matched path_match cm marked s fs)
        ≡ (member g marked || claims s g && member g fs)
  unfolding mark_matched
  member-mark_matched g marked s [] = ground arith
  member-mark_matched g marked s (f ∷ fs) = ground (
    arith,
    member-mark_matched g marked s fs,
    member-mark_matched g (f ∷ marked) s fs,
    λ (e : str_eq g f ≡ true). member_same g f e s,
  )

  pub any-claims :
      (s : Stack) (g : String) (fs : List String)
      → member g fs ≡ true
      → claims s g ≡ true
      → any (claims s) fs ≡ true
  any-claims s g [] m c = ground (arith, m)
  any-claims s g (f ∷ fs) m c =
      ground (arith, m, c, any-claims s g fs, λ (e : str_eq g f ≡ true). member_same g f e s)

  member-hit_from :
      (g : String) (fs : List String) (stacks : List Stack) (marked : List String)
      → member g fs ≡ true
      → member g (hit_from path_match cm fs stacks marked).1
        ≡ (member g marked || any (λ s. claims s g) stacks)
  unfolding hit_from
  member-hit_from g fs [] marked h = ground arith
  member-hit_from g fs (s ∷ stacks) marked h = ground (
    arith,
    h,
    is_hit-claims s fs,
    any-claims s g fs h,
    member-mark_matched g marked s fs,
    member-hit_from g fs stacks marked h,
    member-hit_from g fs stacks (mark_matched path_match cm marked s fs) h,
  )

  hit_from-claims :
      (fs : List String) (stacks : List Stack) (marked : List String)
      → (hit_from path_match cm fs stacks marked).0 ≡ select (λ s. any (claims s) fs) stacks
  unfolding hit_from
  hit_from-claims fs [] marked = refl
  hit_from-claims fs (s ∷ stacks) marked = ground (
    arith,
    is_hit-claims s fs,
    hit_from-claims fs stacks marked,
    hit_from-claims fs stacks (mark_matched path_match cm marked s fs),
  )

  -- The changed files that count, and those of them that no stack claims.
  abbrev pub counted : List String → List String
  counted = select (λ f. not (is_skipped path_match cm f))

  abbrev pub unclaimed : List Stack → List String → List String
  unclaimed stacks = select (λ f. not (any (λ s. claims s f) stacks))

  select-hit_from :
      (fs : List String) (stacks : List Stack) (gs : List String)
      → all (λ g. member g fs) gs ≡ true
      → select (λ f. not (member f (hit_from path_match cm fs stacks []).1)) gs
        ≡ unclaimed stacks gs
  select-hit_from fs stacks [] h = refl
  select-hit_from fs stacks (g ∷ gs) h = ground (
    arith,
    member-hit_from g fs stacks [] (ground (arith, h)),
    select-hit_from fs stacks gs (ground (arith, h)),
  )

  all_weaken :
      (f : String) (fs gs : List String)
      → all (λ g. member g fs) gs ≡ true
      → all (λ g. member g (f ∷ fs)) gs ≡ true
  all_weaken f fs [] h = refl
  all_weaken f fs (g ∷ gs) h = ground (arith, h, all_weaken f fs gs)

  all_members : (fs : List String) → all (λ g. member g fs) fs ≡ true
  all_members [] = refl
  all_members (f ∷ fs) = ground (arith, str_eq_refl f, all_weaken f fs fs (all_members fs))

  -- What is answered for the stacks that claim a file and the files that no stack claims: in the scope
  -- pulumi_only, or without such files, those stacks; else all.
  abbrev pub answer_for : Bool → List Stack → List Stack → List String → AffectedResult
  answer_for pulumi_only stacks hits [] = record {
    stacks = hits;
    reason = matched;
    unmapped = [];
    demonstrated = hits;
  }
  answer_for true stacks hits (f ∷ fs) = record {
    stacks = hits;
    reason = matched;
    unmapped = [];
    demonstrated = hits;
  }
  answer_for false stacks hits (f ∷ fs) = record {
    stacks = stacks;
    reason = broadened;
    unmapped = f ∷ fs;
    demonstrated = hits;
  }

  concluded-answer_for :
      (stacks hits : List Stack) (fs : List String)
      → concluded path_match cm stacks hits fs
        ≡ answer_for (str_eq cm.scope "pulumi_only") stacks hits fs
  concluded-answer_for stacks hits [] = refl
  concluded-answer_for stacks hits (f ∷ fs) = elim (Bool-cases (str_eq cm.scope "pulumi_only")) [
    | inl e ↦ rw e refl
    | inr e ↦ rw e refl
  ]

  -- What AffectedDetailed is to answer, file by file and stack by stack, for the files that count.
  abbrev pub expected : List Stack → List String → AffectedResult
  expected stacks [] = record { stacks = []; reason = docs_only; unmapped = []; demonstrated = [] }
  expected stacks (f ∷ fs) =
      answer_for (str_eq cm.scope "pulumi_only") stacks
        (select (λ s. any (claims s) (f ∷ fs)) stacks) (unclaimed stacks (f ∷ fs))

  affected_by-expected :
      (stacks : List Stack) (fs : List String)
      → affected_by path_match cm stacks fs ≡ expected stacks fs
  affected_by-expected stacks [] = refl
  affected_by-expected stacks (f ∷ fs) =
      ap
        (λ hits.
          concluded path_match cm stacks hits
            (select (λ g. not (member g (hit_from path_match cm (f ∷ fs) stacks []).1)) (f ∷ fs)))
        (hit_from-claims (f ∷ fs) stacks [])
      ∙ ap (concluded path_match cm stacks (select (λ s. any (claims s) (f ∷ fs)) stacks))
          (select-hit_from (f ∷ fs) stacks (f ∷ fs) (all_members (f ∷ fs)))
      ∙ concluded-answer_for stacks (select (λ s. any (claims s) (f ∷ fs)) stacks)
          (unclaimed stacks (f ∷ fs))

  -- With the marking of files and the two loops over them, AffectedDetailed demonstrates exactly the
  -- stacks that claim a file that is not skipped, in their order, and answers them; but every stack, with
  -- the files that no stack claims, where there are such and the scope is not pulumi_only; and none where
  -- every file is skipped. A stack claims a file that is its own or that one of its project's triggers
  -- matches.
  pub affected_detailed_reference :
      (stacks : List Stack) (changed : List String)
      → affected_detailed path_match stacks changed cm ≡ expected stacks (counted changed)
  unfolding affected_detailed
  affected_detailed_reference stacks changed = affected_by-expected stacks (counted changed)
