-- ===== src/Codeowners/Lines.antt =====
-- internal/vcs/codeowners/parse.go: what a line of the file is read as.
use reeve.Prelude.{
  ◌≡◌, refl, Bool, true, false, ◌||◌, List, [], ◌∷◌, ◌++◌, String, any, is_blank, append,
  contains_char, arith,
}
use reeve.Codeowners.{
  escape, comment, separator, itself, meaning, flush, split_from, split_line, parse,
}

any-append_blank :
    (fields : List String) (cur : String)
    → any is_blank (fields ++ (cur ∷ [])) ≡ (any is_blank fields || is_blank cur)
any-append_blank [] cur = ground arith
any-append_blank (f ∷ fields) cur = ground (arith, any-append_blank fields cur)

flush-filled :
    (fields : List String) (cur : String)
    → any is_blank fields ≡ false
    → any is_blank (flush fields cur) ≡ false
flush-filled fields cur e = ground (arith, e, any-append_blank fields cur)

split_from-filled :
    (fields : List String) (cur : String) (escaped : Bool) (s : String)
    → any is_blank fields ≡ false
    → any is_blank (split_from fields cur escaped s) ≡ false
unfolding split_from
split_from-filled fields cur escaped String.[] e = flush-filled fields cur e
split_from-filled fields cur true (String.◌∷◌ c s) e =
    split_from-filled fields (append cur (String.◌∷◌ c String.[])) false s e
split_from-filled fields cur false (String.◌∷◌ c s) e =
    elim (meaning c s)
      as (λ m.
        any is_blank (elim m as (λ _. List String) [
          | escape ↦ split_from fields cur true s
          | comment ↦ flush fields cur
          | separator ↦ split_from (flush fields cur) "" false s
          | itself ↦ split_from fields (append cur (String.◌∷◌ c String.[])) false s
        ])
        ≡ false) [
          | escape ↦ split_from-filled fields cur true s e
          | comment ↦ flush-filled fields cur e
          | separator ↦ split_from-filled (flush fields cur) "" false s (flush-filled fields cur e)
          | itself ↦ split_from-filled fields (append cur (String.◌∷◌ c String.[])) false s e
        ]

-- No rule has an empty pattern.
pub parse-filled : (lines : List String) → any (λ r. is_blank r.pattern) (parse lines) ≡ false
unfolding parse split_line
parse-filled [] = refl
parse-filled (line ∷ lines) =
    ground (arith, parse-filled lines, split_from-filled [] "" false line refl)

-- What follows a # is a comment, where the text before it has no backslash.
split_from-comment :
    (fields : List String) (cur s t : String)
    → contains_char 92 s ≡ false
    → split_from fields cur false (append s (append "#" t)) ≡ split_from fields cur false s
unfolding split_from
split_from-comment fields cur String.[] t e = refl
split_from-comment fields cur (String.◌∷◌ c s) t e = ground (
  arith,
  e,
  split_from-comment (flush fields cur) "" s t,
  split_from-comment fields (append cur (String.◌∷◌ c String.[])) s t,
)

-- What follows the first # of a line that has no backslash before it changes nothing.
pub split_line-comment :
    (s t : String)
    → contains_char 92 s ≡ false
    → split_line (append s (append "#" t)) ≡ split_line s
unfolding split_line
split_line-comment s t e = split_from-comment [] "" s t e
