-- ===== src/Keys/Tests.antt =====
-- Runs of internal/blob/key.go on small names, and its theorems at them.
use reeve.Prelude.{◌≡◌, refl, false, String, if_cases, contains_char, str_eq, if◌then◌else◌}
use reeve.Keys.{
  key, slug_component, passthrough_or_digest, transformed, is_passthrough, sanitize_component,
}
use reeve.Keys.Injective.{size, IsDigest, key_injective}

-- A stand-in for the digest that tells the names of the runs apart.
abbrev short_hash : String → String
short_hash s =
    if str_eq s "a/b"
    then "00000000000000000000000000000001"
    else "00000000000000000000000000000002"

short_hash-IsDigest : IsDigest short_hash
short_hash-IsDigest = record {
  sized = λ s. if_cases (λ x. size x ≡ 32) (str_eq s "a/b") _ _ (λ _. refl) (λ _. refl);
  slashless = λ s.
      if_cases (λ x. contains_char b'/' x ≡ false) (str_eq s "a/b") _ _ (λ _. refl) (λ _. refl);
}

unsafe_slug : slug_component short_hash "a/b" "project" ≡ "a_b__00000000000000000000000000000001"
unfolding slug_component passthrough_or_digest transformed is_passthrough sanitize_component
unsafe_slug = refl

safe_key : key short_hash "net" "prod-eu" ≡ "locks/net/prod-eu.json"
unfolding key slug_component passthrough_or_digest is_passthrough
safe_key = refl

-- An empty name and the word that stands in for it have one slug.
blank_slug : slug_component short_hash "" "project" ≡ slug_component short_hash "project" "project"
unfolding slug_component passthrough_or_digest is_passthrough
blank_slug = refl

abbrev unsafe : String
unsafe = "a/b"

abbrev prod : String
prod = "prod"

key_injective_example : (unsafe ≡ unsafe) × (prod ≡ prod)
key_injective_example =
    key_injective short_hash short_hash-IsDigest unsafe prod unsafe prod refl refl refl refl
      (λ e. refl) (λ e. refl) refl
