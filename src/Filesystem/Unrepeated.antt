-- ===== src/Filesystem/Unrepeated.antt =====
-- internal/blob/filesystem/filesystem.go: a version that has been told is only good for the object that it was told of.
use mathlib.Core.Bool.{false≢true}
use reeve.Prelude.{
  ℕ, suc, ◌<◌, ◌≡◌, refl, sym, ap, subst, ◌⊎◌, inl, inr, Bool, true, false, List, Option, none,
  some, String, if◌then◌else◌, length, str_eq, str_eq_iff, ==_iff, Bytes, arith, Bool-cases,
  if_cases, Option-cases,
}
use reeve.Filesystem.Steps.{run_keeps}
use reeve.Filesystem.{
  cleaned, Version, generation, legacy, version_eq, Object, Disk, disk_of, set, Fault, no_fault,
  unreadable, before_generation, before_object, is_unreadable, Reply, clean_key, inspect_key,
  write_atomic, remove_object, is_required, put_if_match, delete_if_match, Step, run,
}

eq_of : (a b : String) → a ≡ b → str_eq a b ≡ true
eq_of a b e = (str_eq_iff a b).1 e

abbrev is_some : Option ℕ → Bool
is_some none = false
is_some (some n) = true

abbrev is_there : Option Object → Bool
is_there none = false
is_there (some x) = true

abbrev is_told : Option (Version × Object) → Bool
is_told none = false
is_told (some told) = true

abbrev is_counted : Option (Version × Object) → Bool
is_counted (some (generation h, x)) = true
is_counted _ = false

abbrev object_of : Option (Version × Object) → Option Object
object_of none = none
object_of (some (v, x)) = some x

abbrev number_of : Option (Version × Object) → Option ℕ
number_of (some (generation h, x)) = some h
number_of _ = none

some_eq : (a b : ℕ) → some a ≡ some b → a ≡ b
some_eq a b e = ground (arith, e)

some_lt : (a b : ℕ) → some a ≡ some b → b < a → true ≡ false
some_lt a b e lt = ground (arith, e)

module _ (path_clean digest : String → String) (k : String) (g : ℕ) (o : Object) where
  -- As long as a generation is kept, its object is, unless it has been removed.
  record IsKept (d : Disk) : Type 0 where
    drawn_before : g < d.drawn
    same : d.generations (digest k) ≡ some g → (d.objects k ≡ none) ⊎ (d.objects k ≡ some o)

  differ : (k' : String) → str_eq (digest k) (digest k') ≡ false → str_eq k k' ≡ false
  differ k' e = elim (Bool-cases (str_eq k k')) [
    | inr f ↦ f
    | inl t ↦ ground (arith, e, eq_of (digest k) (digest k') (ap digest ((str_eq_iff k k').0 t)))
  ]

  -- A generation from before is not the one that has just been drawn.
  unset_generation :
      (k' : String) (d : Disk)
      → set (digest k') (some d.drawn) d.generations (digest k) ≡ some g
      → g < d.drawn
      → (str_eq (digest k) (digest k') ≡ false) × (d.generations (digest k) ≡ some g)
  unset_generation k' d e lt = elim (Bool-cases (str_eq (digest k) (digest k'))) [
    | inl t ↦ absurd (
        false≢true (
          sym (
            some_lt d.drawn g
              (subst (λ b. (if b then some d.drawn else d.generations (digest k)) ≡ some g) t e)
              lt)))
    | inr f ↦ (f, subst (λ b. (if b then some d.drawn else d.generations (digest k)) ≡ some g) f e)
  ]

  write_atomic-IsKept :
      (k' : String) (content : Bytes) (now : ℕ) (fault : Fault) (d : Disk)
      → IsKept d
      → IsKept (write_atomic path_clean digest k' content now fault d).1
  unfolding write_atomic
  write_atomic-IsKept k' content now no_fault d h = record {
    drawn_before = omega (arith, h.drawn_before);
    same = λ e.
        let old = unset_generation k' d e h.drawn_before in rw (differ k' old.0) (h.same old.1);
  }
  write_atomic-IsKept k' content now before_object d h = record {
    drawn_before = omega (arith, h.drawn_before);
    same = λ e. h.same (unset_generation k' d e h.drawn_before).1;
  }
  write_atomic-IsKept k' content now before_generation d h = record {
    drawn_before = omega (arith, h.drawn_before);
    same = h.same;
  }
  write_atomic-IsKept k' content now unreadable d h = h

  remove_object-IsKept :
      (k' : String) (fault : Fault) (d : Disk)
      → IsKept d
      → IsKept (remove_object path_clean digest k' fault d).1
  unfolding remove_object
  remove_object-IsKept k' no_fault d h = record {
    drawn_before = h.drawn_before;
    same = λ e. elim (Bool-cases (str_eq (digest k) (digest k'))) [
      | inl t ↦ absurd (
          false≢true
            (ap is_some (subst (λ b. (if b then none else d.generations (digest k)) ≡ some g) t e)))
      | inr f ↦
          rw (differ k' f)
            (h.same (subst (λ b. (if b then none else d.generations (digest k)) ≡ some g) f e))
    ];
  }
  remove_object-IsKept k' before_generation d h = record {
    drawn_before = h.drawn_before;
    same =
        λ e. elim (Bool-cases (str_eq k k')) [ inl t ↦ inl (rw t refl) | inr f ↦ rw f (h.same e) ];
  }
  remove_object-IsKept k' before_object d h = h
  remove_object-IsKept k' unreadable d h = h

  run-IsKept : (steps : List Step) (d : Disk) → IsKept d → IsKept (run path_clean digest steps d)
  run-IsKept = run_keeps path_clean digest IsKept write_atomic-IsKept remove_object-IsKept

  abbrev inspected : Option Object → Option ℕ → Option (Version × Object)
  inspected c m = elim c [
    | none ↦ none
    | some x ↦
        some (elim m [ some h ↦ generation h | none ↦ legacy (length x.content) x.mod_time ], x)
  ]

  required_object :
      (c : Option Object) (m : Option ℕ)
      → (m ≡ some g → (c ≡ none) ⊎ (c ≡ some o))
      → is_required path_clean digest (some (generation g)) (inspected c m) ≡ true
      → c ≡ some o
  required_object none m same e = absurd (false≢true e)
  required_object (some x) none same e = absurd (false≢true e)
  required_object (some x) (some h) same e = elim (same (ap some ((==_iff h g).0 e))) [
    | inl z ↦ absurd (false≢true (sym (ap is_there z)))
    | inr z ↦ z
  ]

  -- Where a version with the generation is what is required, the object is there.
  required_same :
      (d : Disk)
      → IsKept d
      → is_required path_clean digest (some (generation g)) (inspect_key path_clean digest d k)
        ≡ true
      → d.objects k ≡ some o
  required_same d h e = required_object (d.objects k) (d.generations (digest k)) h.same e

  told_cases :
      (c : Option Object) (m : Option ℕ)
      → inspected c m ≡ some (generation g, o)
      → (c ≡ some o) × (m ≡ some g)
  told_cases none m e = absurd (false≢true (ap is_told e))
  told_cases (some x) none e = absurd (false≢true (ap is_counted e))
  told_cases (some x) (some h) e = (ap object_of e, ap number_of e)

  put_same :
      (key : String) (content : Bytes) (now : ℕ) (fault : Fault) (d : Disk)
      → clean_key path_clean digest key ≡ cleaned k
      → IsKept d
      → ((put_if_match path_clean digest key content (some (generation g)) now fault d).1 ≡ d)
        ⊎ (d.objects k ≡ some o)
  unfolding put_if_match
  put_same key content now fault d c h =
      let may =
        is_required path_clean digest (some (generation g)) (inspect_key path_clean digest d k) in
      rw (c, put_if_match)
        (if_cases Done (is_unreadable fault) _ _ (λ u. inl refl)
          (λ u. if_cases Done may _ _ (λ r. inr (required_same d h r)) (λ r. inl refl)))
    where
      Done : Reply × Disk → Type 0
      Done r = (r.1 ≡ d) ⊎ (d.objects k ≡ some o)

  delete_same :
      (key : String) (fault : Fault) (d : Disk)
      → clean_key path_clean digest key ≡ cleaned k
      → IsKept d
      → ((delete_if_match path_clean digest key (some (generation g)) fault d).1 ≡ d)
        ⊎ (d.objects k ≡ some o)
  unfolding delete_if_match
  delete_same key fault d c h = elim (Option-cases (inspect_key path_clean digest d k)) [
    | inl n ↦
        rw (c, n, delete_if_match)
          (if_cases Done (is_unreadable fault) _ _ (λ u. inl refl) (λ u. inl refl))
    | inr ((current, x), n) ↦
        rw (c, n, delete_if_match)
          (if_cases Done (is_unreadable fault) _ _ (λ u. inl refl)
            (λ u.
              if_cases Done (version_eq current (generation g)) _ _
                (λ r. inr (required_same d h (rw n r))) (λ r. inl refl)))
  ]
    where
      Done : Reply × Disk → Type 0
      Done r = (r.1 ≡ d) ⊎ (d.objects k ≡ some o)

-- No generation on the disk is one that is still to be drawn.
IsDrawn : Disk → Type 0
IsDrawn d = (k : String) (g : ℕ) → d.generations k ≡ some g → g < d.drawn

module _ (path_clean digest : String → String) where
  set_drawn :
      (x k : String) (d : Disk) (g : ℕ)
      → IsDrawn d
      → set (digest k) (some d.drawn) d.generations x ≡ some g
      → g < suc d.drawn
  unfolding IsDrawn
  set_drawn x k d g h e = elim (Bool-cases (str_eq x (digest k))) [
    | inl t ↦ omega (
      arith,
      some_eq d.drawn g (subst (λ b. (if b then some d.drawn else d.generations x) ≡ some g) t e),
    )
    | inr f ↦
        omega
          (arith, h x g (subst (λ b. (if b then some d.drawn else d.generations x) ≡ some g) f e))
  ]

  write_atomic-IsDrawn :
      (k : String) (content : Bytes) (now : ℕ) (fault : Fault) (d : Disk)
      → IsDrawn d
      → IsDrawn (write_atomic path_clean digest k content now fault d).1
  unfolding write_atomic IsDrawn
  write_atomic-IsDrawn k content now no_fault d h = λ x g e. set_drawn x k d g h e
  write_atomic-IsDrawn k content now before_object d h = λ x g e. set_drawn x k d g h e
  write_atomic-IsDrawn k content now before_generation d h = λ x g e. omega (arith, h x g e)
  write_atomic-IsDrawn k content now unreadable d h = h

  remove_object-IsDrawn :
      (k : String) (fault : Fault) (d : Disk)
      → IsDrawn d
      → IsDrawn (remove_object path_clean digest k fault d).1
  unfolding remove_object IsDrawn
  remove_object-IsDrawn k no_fault d h = λ x g e. elim (Bool-cases (str_eq x (digest k))) [
    | inl t ↦
        absurd (
          false≢true (ap is_some (subst (λ b. (if b then none else d.generations x) ≡ some g) t e)))
    | inr f ↦ h x g (subst (λ b. (if b then none else d.generations x) ≡ some g) f e)
  ]
  remove_object-IsDrawn k before_generation d h = h
  remove_object-IsDrawn k before_object d h = h
  remove_object-IsDrawn k unreadable d h = h

  run-IsDrawn : (steps : List Step) (d : Disk) → IsDrawn d → IsDrawn (run path_clean digest steps d)
  run-IsDrawn = run_keeps path_clean digest IsDrawn write_atomic-IsDrawn remove_object-IsDrawn

  disk_of-IsDrawn : (objects : String → Option Object) → IsDrawn (disk_of objects)
  unfolding IsDrawn
  disk_of-IsDrawn objects x g e = absurd (false≢true (ap is_some e))

  -- Let a bucket have begun with objects without generations, and whatever calls have followed, also such as failed on
  -- the way. When a version with a generation is told of an object, then, whatever calls follow, a PutIfMatch
  -- or a DeleteIfMatch that requires this version changes the disk only if the object is still the same.
  pub put_if_match-same :
      (objects : String → Option Object) (before after : List Step) (key k : String) (g : ℕ)
      (o : Object) (content : Bytes) (now : ℕ) (fault : Fault)
      → clean_key path_clean digest key ≡ cleaned k
      → inspect_key path_clean digest (run path_clean digest before (disk_of objects)) k
        ≡ some (generation g, o)
      → (let d = run path_clean digest after (run path_clean digest before (disk_of objects)) in
          (((put_if_match path_clean digest key content (some (generation g)) now fault d).1 ≡ d)
            ⊎ (d.objects k ≡ some o))
          × (((delete_if_match path_clean digest key (some (generation g)) fault d).1 ≡ d)
              ⊎ (d.objects k ≡ some o)))
  unfolding IsDrawn
  put_if_match-same objects before after key k g o content now fault c told =
      let d0 = run path_clean digest before (disk_of objects) in
      let d = run path_clean digest after d0 in
      let start =
        told_cases path_clean digest k g o (d0.objects k) (d0.generations (digest k)) told in
      let kept = run-IsKept path_clean digest k g o after d0 (record {
        drawn_before =
            run-IsDrawn before (disk_of objects) (disk_of-IsDrawn objects) (digest k) g start.1;
        same = λ e. inr start.0;
      }) in
      (
        put_same path_clean digest k g o key content now fault d c kept,
        delete_same path_clean digest k g o key fault d c kept,
      )
