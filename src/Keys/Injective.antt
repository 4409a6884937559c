-- ===== src/Keys/Injective.antt =====
-- internal/blob/key.go: two names never give one key, nor two stacks one lock object.
use Prim.Native.Char.{Char, code}
use reeve.Prelude.{
  ℕ, zero, suc, ◌+◌, ◌≡◌, refl, sym, ◌∙◌, ap, subst, inl, inr, true, false, ◌&&◌, ◌||◌, String,
  if◌then◌else◌, is_blank, append, contains_char, arith, Bool-cases, if_cases,
}
use reeve.Keys.{
  is_passthrough, sanitize_component, only_underscores, transformed, passthrough_or_digest,
  slug_component, key,
}

abbrev pub size : String → ℕ
size String.[] = zero
size (String.◌∷◌ c s) = suc (size s)

abbrev tail : String → String
tail String.[] = String.[]
tail (String.◌∷◌ c s) = s

abbrev head_code : String → ℕ
head_code String.[] = zero
head_code (String.◌∷◌ c s) = code c

size-append : (s t : String) → size (append s t) ≡ size s + size t
size-append String.[] t = omega arith
size-append (String.◌∷◌ c s) t = omega (arith, size-append s t)

-- Texts with ends of one length have one end.
append_end : (a b x y : String) → append a x ≡ append b y → size x ≡ size y → x ≡ y
append_end String.[] String.[] x y e l = e
append_end String.[] (String.◌∷◌ d b) x y e l = ground (arith, l, ap size e, size-append b y)
append_end (String.◌∷◌ c a) String.[] x y e l = ground (arith, l, ap size e, size-append a x)
append_end (String.◌∷◌ c a) (String.◌∷◌ d b) x y e l = append_end a b x y (ap tail e) l

abbrev head : Char → String → Char
head k String.[] = k
head k (String.◌∷◌ c s) = c

-- Texts with one tail and one head.
cons_eq : (c d : Char) (a b : String) → c ≡ d → a ≡ b → String.◌∷◌ c a ≡ String.◌∷◌ d b
cons_eq c d a b p q = ap (λ k. String.◌∷◌ k a) p ∙ ap (String.◌∷◌ d) q

-- Texts with one end have one beginning.
append_start : (a b x : String) → append a x ≡ append b x → a ≡ b
append_start String.[] String.[] x e = refl
append_start String.[] (String.◌∷◌ d b) x e = ground (arith, ap size e, size-append b x)
append_start (String.◌∷◌ c a) String.[] x e = ground (arith, ap size e, size-append a x)
append_start (String.◌∷◌ c a) (String.◌∷◌ d b) x e =
    cons_eq c d a b (ap (head c) e) (append_start a b x (ap tail e))

is_passthrough-append :
    (s t : String) → is_passthrough (append s t) ≡ (is_passthrough s && is_passthrough t)
unfolding is_passthrough
is_passthrough-append String.[] t = refl
is_passthrough-append (String.◌∷◌ c s) t = ground (arith, is_passthrough-append s t)

-- The first slash divides a text in one way.
split_at_slash :
    (a b x y : String)
    → contains_char b'/' a ≡ false
    → contains_char b'/' b ≡ false
    → append a (append "/" x) ≡ append b (append "/" y)
    → (a ≡ b) × (x ≡ y)
split_at_slash String.[] String.[] x y f g e = (refl, ap tail e)
split_at_slash String.[] (String.◌∷◌ d b) x y f g e = ground (arith, g, ap head_code e)
split_at_slash (String.◌∷◌ c a) String.[] x y f g e = ground (arith, f, ap head_code e)
split_at_slash (String.◌∷◌ c a) (String.◌∷◌ d b) x y f g e =
    let rest = split_at_slash a b x y (ground (arith, f)) (ground (arith, g)) (ap tail e) in
    (cons_eq c d a b (ap (head c) e) rest.0, rest.1)

is_passthrough-slash : (s : String) → is_passthrough s ≡ true → contains_char b'/' s ≡ false
unfolding is_passthrough
is_passthrough-slash String.[] e = refl
is_passthrough-slash (String.◌∷◌ c s) e = ground (arith, is_passthrough-slash s)

sanitize_component-slash : (s : String) → contains_char b'/' (sanitize_component s) ≡ false
unfolding sanitize_component
sanitize_component-slash String.[] = refl
sanitize_component-slash (String.◌∷◌ c s) = ground (arith, sanitize_component-slash s)

contains_char-append :
    (k : ℕ) (s t : String) → contains_char k (append s t) ≡ (contains_char k s || contains_char k t)
contains_char-append k String.[] t = refl
contains_char-append k (String.◌∷◌ c s) t = ground (arith, contains_char-append k s t)

-- What the parameter, 32 characters of a digest in hex, is known to give.
pub record IsDigest (short_hash : String → String) : Type 0 where
  pub sized : (s : String) → size (short_hash s) ≡ 32
  pub slashless : (s : String) → contains_char b'/' (short_hash s) ≡ false

marked-is_passthrough : (a h : String) → is_passthrough (append a (append "__" h)) ≡ false
unfolding is_passthrough
marked-is_passthrough a h = ground (arith, is_passthrough-append a (append "__" h))

marked-slash :
    (a h : String)
    → contains_char b'/' a ≡ false
    → contains_char b'/' h ≡ false
    → contains_char b'/' (append a (append "__" h)) ≡ false
marked-slash a h e f = ground (arith, contains_char-append b'/' a (append "__" h), e, f)

stem-slash :
    (a : String)
    → contains_char b'/' a ≡ false
    → contains_char b'/' (if only_underscores a then "key" else a) ≡ false
stem-slash a e =
    if_cases (λ x. contains_char b'/' x ≡ false) (only_underscores a) "key" a (λ _. refl) (λ _. e)

module _ (short_hash : String → String) (digest : IsDigest short_hash) where
  transformed-is_passthrough : (s : String) → is_passthrough (transformed short_hash s) ≡ false
  unfolding transformed
  transformed-is_passthrough s = marked-is_passthrough _ (short_hash s)

  abbrev slug : String → String
  slug s = if is_passthrough s then s else transformed short_hash s

  slug_component-slug : (s f : String) → is_blank s ≡ false → slug_component short_hash s f ≡ slug s
  unfolding slug_component passthrough_or_digest
  slug_component-slug s f e = rw e refl

  transformed_digest :
      (s t : String)
      → transformed short_hash s ≡ transformed short_hash t
      → short_hash s ≡ short_hash t
  unfolding transformed
  transformed_digest s t e =
      ap (λ x. tail (tail x))
        (append_end _ _ (append "__" (short_hash s)) (append "__" (short_hash t)) e
          (omega (arith, digest.sized s, digest.sized t)))

  slug_injective : (s t : String) → (short_hash s ≡ short_hash t → s ≡ t) → slug s ≡ slug t → s ≡ t
  slug_injective s t collide e = elim (Bool-cases (is_passthrough s)) [
    | inl p ↦ elim (Bool-cases (is_passthrough t)) [
      | inl q ↦ ground (arith, e, p, q)
      | inr q ↦ ground (arith, ap is_passthrough e, p, q, transformed-is_passthrough t)
    ]
    | inr p ↦ elim (Bool-cases (is_passthrough t)) [
      | inl q ↦ ground (arith, ap is_passthrough e, p, q, transformed-is_passthrough s)
      | inr q ↦ collide (transformed_digest s t (ground (arith, e, p, q)))
    ]
  ]

  -- Two names that are not empty and whose digests differ if they do have different slugs, whatever stands
  -- in for empty names.
  pub slug_component_injective :
      (s t f g : String)
      → is_blank s ≡ false
      → is_blank t ≡ false
      → (short_hash s ≡ short_hash t → s ≡ t)
      → slug_component short_hash s f ≡ slug_component short_hash t g
      → s ≡ t
  slug_component_injective s t f g bs bt collide e =
      slug_injective s t collide (sym (slug_component-slug s f bs) ∙ e ∙ slug_component-slug t g bt)

  transformed-slash : (s : String) → contains_char b'/' (transformed short_hash s) ≡ false
  unfolding transformed
  transformed-slash s =
      marked-slash (if only_underscores (sanitize_component s) then "key" else sanitize_component s)
        (short_hash s) (stem-slash (sanitize_component s) (sanitize_component-slash s))
        (digest.slashless s)

  slug_component-slash :
      (s f : String)
      → is_blank s ≡ false
      → contains_char b'/' (slug_component short_hash s f) ≡ false
  slug_component-slash s f e =
      subst (λ x. contains_char b'/' x ≡ false) (sym (slug_component-slug s f e))
        (if_cases (λ x. contains_char b'/' x ≡ false) (is_passthrough s) s
          (transformed short_hash s) (is_passthrough-slash s) (λ _. transformed-slash s))

  -- Two stacks have their locks in different objects, if their projects and names are not empty and have
  -- digests that differ if they do.
  pub key_injective :
      (project stack other_project other_stack : String)
      → is_blank project ≡ false
      → is_blank stack ≡ false
      → is_blank other_project ≡ false
      → is_blank other_stack ≡ false
      → (short_hash project ≡ short_hash other_project → project ≡ other_project)
      → (short_hash stack ≡ short_hash other_stack → stack ≡ other_stack)
      → key short_hash project stack ≡ key short_hash other_project other_stack
      → (project ≡ other_project) × (stack ≡ other_stack)
  unfolding key
  key_injective p s q t bp bs bq bt cp cs e =
      let parts =
        split_at_slash (slug_component short_hash p "project")
          (slug_component short_hash q "project")
          (append (slug_component short_hash s "stack") ".json")
          (append (slug_component short_hash t "stack") ".json")
          (slug_component-slash p "project" bp) (slug_component-slash q "project" bq)
          (ap (λ x. tail (tail (tail (tail (tail (tail x)))))) e) in
      (
        slug_component_injective p q "project" "project" bp bq cp parts.0,
        slug_component_injective s t "stack" "stack" bs bt cs (append_start _ _ ".json" parts.1),
      )
