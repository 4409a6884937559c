-- ===== src/Discovery/Covers.antt =====
-- internal/core/discovery/discovery.go: no changed file is lost.
use reeve.Prelude.{
  ◌≡◌, refl, sym, subst, ap, ◌⊎◌, inl, inr, ◌∙◌, Bool, true, false, List, [], ◌∷◌, String, any,
  is_empty, select, member, str_eq, str_eq_iff, arith,
}
use reeve.Discovery.{Stack, ChangeMapping, is_skipped, affected_detailed}
use reeve.Discovery.Affected.{
  claims, any-claims, counted, unclaimed, answer_for, expected, affected_detailed_reference,
}

module _ (path_match : String → String → Bool) (cm : ChangeMapping) where
  any-select :
      (f : String) (fs : List String) (stacks : List Stack)
      → member f fs ≡ true
      → any (λ s. claims path_match cm s f) (select (λ s. any (claims path_match cm s) fs) stacks)
        ≡ any (λ s. claims path_match cm s f) stacks
  any-select f fs [] m = refl
  any-select f fs (s ∷ stacks) m =
      ground (arith, m, any-claims path_match cm s f fs m, any-select f fs stacks m)

  any_same :
      (g f : String) (stacks : List Stack)
      → str_eq g f ≡ true
      → any (λ s. claims path_match cm s g) stacks ≡ any (λ s. claims path_match cm s f) stacks
  any_same g f stacks e =
      ap (λ x. any (λ s. claims path_match cm s x) stacks) ((str_eq_iff g f).0 e)

  any-unclaimed :
      (g : String) (fs : List String) (stacks : List Stack)
      → member g fs ≡ true
      → is_empty (unclaimed path_match cm stacks fs) ≡ true
      → any (λ s. claims path_match cm s g) stacks ≡ true
  any-unclaimed g [] stacks m h = ground (arith, m)
  any-unclaimed g (f ∷ fs) stacks m h =
      ground (arith, m, h, any_same g f stacks, any-unclaimed g fs stacks)

  skipped_same :
      (g f : String) → str_eq g f ≡ true → is_skipped path_match cm g ≡ is_skipped path_match cm f
  skipped_same g f e = ap (is_skipped path_match cm) ((str_eq_iff g f).0 e)

  member-counted :
      (g : String) (fs : List String)
      → member g fs ≡ true
      → is_skipped path_match cm g ≡ false
      → member g (counted path_match cm fs) ≡ true
  member-counted g [] m n = ground (arith, m)
  member-counted g (f ∷ fs) m n =
      ground (arith, m, n, skipped_same g f, λ (h : member g fs ≡ true). member-counted g fs h n)

  answer_for-covers :
      (pulumi_only : Bool) (stacks hits : List Stack) (us : List String) (f : String)
      → pulumi_only ≡ false
      → (is_empty us ≡ true → any (λ s. claims path_match cm s f) hits ≡ true)
      → ((answer_for path_match cm pulumi_only stacks hits us).stacks ≡ stacks)
        ⊎ (any
              (λ s. claims path_match cm s f)
              (answer_for path_match cm pulumi_only stacks hits us).stacks
            ≡ true)
  answer_for-covers pulumi_only stacks hits [] f e h = inr (h refl)
  answer_for-covers true stacks hits (u ∷ us) f e h = ground (arith, e)
  answer_for-covers false stacks hits (u ∷ us) f e h = inl refl

  expected-covers :
      (stacks : List Stack) (fs : List String) (f : String)
      → member f fs ≡ true
      → str_eq cm.scope "pulumi_only" ≡ false
      → ((expected path_match cm stacks fs).stacks ≡ stacks)
        ⊎ (any (λ s. claims path_match cm s f) (expected path_match cm stacks fs).stacks ≡ true)
  expected-covers stacks [] f m scope = ground (arith, m)
  expected-covers stacks (g ∷ fs) f m scope =
      answer_for-covers (str_eq cm.scope "pulumi_only") stacks _ _ f scope
        (λ e. any-select f (g ∷ fs) stacks m ∙ any-unclaimed f (g ∷ fs) stacks m e)

  -- Unless the scope is pulumi_only, no changed file is lost: for each that is not skipped, the stacks
  -- that are answered are all there are, or one of them claims it.
  pub affected_detailed_covers :
      (stacks : List Stack) (changed : List String) (f : String)
      → member f changed ≡ true
      → is_skipped path_match cm f ≡ false
      → str_eq cm.scope "pulumi_only" ≡ false
      → ((affected_detailed path_match stacks changed cm).stacks ≡ stacks)
        ⊎ (any
              (λ s. claims path_match cm s f)
              (affected_detailed path_match stacks changed cm).stacks
            ≡ true)
  affected_detailed_covers stacks changed f m n scope =
      subst (λ r. (r.stacks ≡ stacks) ⊎ (any (λ s. claims path_match cm s f) r.stacks ≡ true))
        (sym (affected_detailed_reference path_match cm stacks changed))
        (expected-covers stacks (counted path_match cm changed) f (member-counted f changed m n)
          scope)
