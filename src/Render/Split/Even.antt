-- ===== src/Render/Split/Even.antt =====
-- internal/core/render/overflow.go: an even division.
use mathlib.Core.List.{append-nil}
use native.Mathlib.Nat.{div-add-mod, div-one, mod-lt, suc-mul}
use reeve.Prelude.{
  ℕ, zero, suc, ◌+◌, ◌-◌, ◌*◌, ◌/◌, ◌%◌, ◌≤◌, ◌≡◌, refl, ap, ◌∙◌, subst, Bool, true, ◌||◌, List, [],
  ◌∷◌, ◌++◌, if◌then◌else◌, ltb, leb, ◌==◌, arith, length, all, if_cases,
}
use reeve.Render.{take}
use reeve.Render.Split.{Stacks, drop, deal, distribute}
use reeve.Render.Split.Parts.{concat}

take-drop : {A : Type 0} (n : ℕ) (xs : List A) → take n xs ++ drop n xs ≡ xs
take-drop zero xs = refl
take-drop (suc n) [] = refl
take-drop (suc n) (x ∷ xs) = ap (λ ys. x ∷ ys) (take-drop n xs)

length-drop : {A : Type 0} (n : ℕ) (xs : List A) → length (drop n xs) ≡ length xs - n
length-drop zero xs = omega arith
length-drop (suc n) [] = omega arith
length-drop (suc n) (x ∷ xs) = omega (arith, length-drop n xs)

length-take : {A : Type 0} (n : ℕ) (xs : List A) → n ≤ length xs → length (take n xs) ≡ n
length-take zero xs le = refl
length-take (suc n) [] le = omega arith
length-take (suc n) (x ∷ xs) le = ap suc (length-take n xs (omega arith))

-- Whether a group has as many stacks as it is to have, or one more.
abbrev pub is_even : ℕ → Stacks → Bool
is_even base g = length g == base || length g == suc base

length-deal : (n i base extra : ℕ) (items : Stacks) → length (deal n i base extra items) ≡ n
length-deal zero i base extra items = refl
length-deal (suc n) i base extra items = omega (arith, length-deal n (suc i) base extra _)

size_le :
    (n i base extra : ℕ) (items : Stacks)
    → length items ≡ suc n * base + (extra - i)
    → (if ltb i extra then suc base else base) ≤ length items
size_le n i base extra items e = ground (arith, e, suc-mul n base)

rest_eq :
    (n i base extra : ℕ) (items : Stacks)
    → length items ≡ suc n * base + (extra - i)
    → length (drop (if ltb i extra then suc base else base) items) ≡ n * base + (extra - suc i)
rest_eq n i base extra items e =
    ground (arith, e, suc-mul n base, length-drop (if ltb i extra then suc base else base) items)

empty_of : (items : Stacks) → length items ≡ 0 → [] ≡ items
empty_of [] e = refl
empty_of (x ∷ items) e = ground (arith, e)

none_left : (n base extra i : ℕ) → n ≡ 0 * base + (extra - i) → extra - i ≤ 0 → n ≡ 0
none_left n base extra i e le = omega (arith, e)

concat-deal :
    (n i base extra : ℕ) (items : Stacks)
    → length items ≡ n * base + (extra - i)
    → extra - i ≤ n
    → concat (deal n i base extra items) ≡ items
concat-deal zero i base extra items e le =
    empty_of items (none_left (length items) base extra i e le)
concat-deal (suc n) i base extra items e le =
    let size = if ltb i extra then suc base else base in
    ap (λ ys. take size items ++ ys)
      (concat-deal n (suc i) base extra (drop size items) (rest_eq n i base extra items e)
        (omega arith))
    ∙ take-drop size items

deal_even :
    (n i base extra : ℕ) (items : Stacks)
    → length items ≡ n * base + (extra - i)
    → extra - i ≤ n
    → all (is_even base) (deal n i base extra items) ≡ true
deal_even zero i base extra items e le = refl
deal_even (suc n) i base extra items e le =
    let size = if ltb i extra then suc base else base in
    ground (
      arith,
      length-take size items (size_le n i base extra items e),
      deal_even n (suc i) base extra (drop size items) (rest_eq n i base extra items e)
          (omega arith),
    )

one_of : (n : ℕ) → 1 ≤ n → leb n 1 ≡ true → 1 ≡ n
one_of n le e = ground arith

is_even_alone : (m : ℕ) → (m == m / 1 || m == suc (m / 1)) ≡ true
is_even_alone m = rw (div-one m) (ground arith)

length_parts : (m n : ℕ) → 1 ≤ n → m ≡ n * (m / n) + (m % n - 0)
length_parts m n le = omega (arith, div-add-mod m n)

remainder_le : (m n : ℕ) → 1 ≤ n → m % n - 0 ≤ n
remainder_le m n le = omega (arith, mod-lt m le)

-- So many groups; joined, they are the stacks; each has as many as the quotient says, or one more.
abbrev pub IsEven : Stacks → ℕ → List Stacks → Type 0
IsEven items n groups =
    (length groups ≡ n) × (concat groups ≡ items) × (all (is_even (length items / n)) groups ≡ true)

one_even : (items : Stacks) → all (is_even (length items / 1)) (items ∷ []) ≡ true
one_even items = ground (arith, is_even_alone (length items))

-- Into how many groups ever stacks are distributed, they are so many, but at least one; joined, they are the
-- stacks in their order; and each has as many stacks as the quotient says, or one more.
pub distribute-IsEven : (items : Stacks) (n : ℕ) → 1 ≤ n → IsEven items n (distribute items n)
unfolding distribute
distribute-IsEven items n le =
    let base = length items / n in
    let extra = length items % n in
    let sum = length_parts (length items) n le in
    let few = remainder_le (length items) n le in
    if_cases (IsEven items n) (leb n 1) (items ∷ []) (deal n 0 base extra items)
      (λ e.
        subst (λ k. IsEven items k (items ∷ [])) (one_of n le e)
          (refl, append-nil items, one_even items))
      (λ e. (
        length-deal n 0 base extra items,
        concat-deal n 0 base extra items sum few,
        deal_even n 0 base extra items sum few,
      ))
