-- ===== src/Redact/Leak.antt =====
-- internal/core/redact/redact.go: no secret that has been registered is left in a redacted text.
use reeve.Prelude.{
  ℕ, ◌≤◌, ◌≡◌, refl, sym, ◌∙◌, ap, subst, inl, inr, Bool, true, false, ◌||◌, List, [], ◌∷◌, length,
  Bytes, arith, Bool-cases,
}
use reeve.Redact.{
  Redactor, contains, bytes_eq, insert, sorted_secrets, has_secret, add_secret, redact_secrets,
  redact_rules, replace_from, replace_all, pulumi_markers, redact, min_secret_length,
}
use reeve.Redact.Splice.{
  marked, IsGuarded, contains_replaced, contains_secrets, contains_rules, contains-replace_from,
}

bytes_eq-eq : (s t : Bytes) → bytes_eq s t ≡ true → s ≡ t
bytes_eq-eq [] [] e = refl
bytes_eq-eq [] (y ∷ t) e = ground (arith, e)
bytes_eq-eq (x ∷ s) [] e = ground (arith, e)
bytes_eq-eq (x ∷ s) (y ∷ t) e = ground (arith, e, bytes_eq-eq s t)

bytes_eq_refl : (s : Bytes) → bytes_eq s s ≡ true
bytes_eq_refl [] = refl
bytes_eq_refl (x ∷ s) = ground (arith, bytes_eq_refl s)

has_secret-insert :
    (s t : Bytes) (ts : List Bytes) → has_secret s (insert t ts) ≡ (bytes_eq s t || has_secret s ts)
has_secret-insert s t [] = refl
has_secret-insert s t (u ∷ ts) = ground (arith, has_secret-insert s t ts)

has_secret-sorted_secrets :
    (s : Bytes) (ts : List Bytes) → has_secret s (sorted_secrets ts) ≡ has_secret s ts
unfolding sorted_secrets
has_secret-sorted_secrets s [] = refl
has_secret-sorted_secrets s (t ∷ ts) =
    has_secret-insert s t (sorted_secrets ts)
    ∙ ap (λ b. bytes_eq s t || b) (has_secret-sorted_secrets s ts)

from_true : (x y : Bool) → (x ≡ true → y ≡ true) → y ≡ false → x ≡ false
from_true true y f e = ground (arith, f refl, e)
from_true false y f e = refl

module _ (first : ℕ) (middle : Bytes) (last : ℕ) (secret : Bytes) where
  redact_secrets-contains :
      (guarded : IsGuarded first middle last secret) (secrets : List Bytes) (s : Bytes)
      → has_secret secret secrets ≡ true
      → contains secret (redact_secrets secrets (marked first middle last) s) ≡ false
  unfolding redact_secrets
  redact_secrets-contains guarded [] s h = ground (arith, h)
  redact_secrets-contains guarded (t ∷ secrets) s h = elim (Bool-cases (bytes_eq secret t)) [
    | inl e ↦
        from_true
          (contains secret (
            redact_secrets secrets (marked first middle last)
              (replace_all s t (marked first middle last))))
          _ (contains_secrets first middle last secret guarded secrets _)
          (subst (λ u. contains secret (replace_all s u (marked first middle last)) ≡ false)
            (bytes_eq-eq secret t e) (contains-replace_from first middle last secret guarded 0 s))
    | inr e ↦ redact_secrets-contains guarded secrets _ (ground (arith, h, e))
  ]

  add_secret_replacement : (r : Redactor) → (add_secret secret r).replacement ≡ r.replacement
  unfolding add_secret
  add_secret_replacement r = ground arith

  has_secret-add_secret :
      (r : Redactor)
      → min_secret_length ≤ length secret
      → has_secret secret (add_secret secret r).secrets ≡ true
  unfolding add_secret
  has_secret-add_secret r long = ground (arith, long, bytes_eq_refl secret)

  redact-contains :
      (r : Redactor) (s : Bytes)
      → r.replacement ≡ marked first middle last
      → IsGuarded first middle last secret
      → has_secret secret r.secrets ≡ true
      → contains secret (redact r s) ≡ false
  unfolding redact
  redact-contains r s e guarded h =
      let text = λ (new : Bytes).
        redact_rules r.rules new (redact_secrets (sorted_secrets r.secrets) new s) in
      subst (λ new. contains secret (replace_from pulumi_markers new 0 (text new)) ≡ false) (sym e)
        (from_true
          (contains secret (
            replace_from pulumi_markers (marked first middle last) 0
              (text (marked first middle last))))
          (contains secret (redact_secrets (sorted_secrets r.secrets) (marked first middle last) s))
          (λ t.
            contains_rules first middle last secret guarded r.rules _
              (contains_replaced first middle last secret guarded pulumi_markers 0 _ t))
          (redact_secrets-contains guarded (sorted_secrets r.secrets) s
            (has_secret-sorted_secrets secret r.secrets ∙ h)))

  -- A secret of at least eight bytes that AddSecret is given is in no text that is redacted after, if it
  -- has neither of the outer bytes of the replacement and is no part of it, whatever the other secrets and
  -- the rules are.
  pub redact-add_secret :
      (r : Redactor) (s : Bytes)
      → r.replacement ≡ marked first middle last
      → IsGuarded first middle last secret
      → min_secret_length ≤ length secret
      → contains secret (redact (add_secret secret r) s) ≡ false
  redact-add_secret r s e guarded long =
      redact-contains (add_secret secret r) s (add_secret_replacement r ∙ e) guarded
        (has_secret-add_secret r long)
