-- ===== src/Discovery/Declared.antt =====
-- internal/core/discovery/discovery.go: the stacks that are declared, and the test that a reference names
-- one of them. doublestar.Match is a parameter; its errors are a match that fails.
use reeve.Prelude.{
  Bool, true, false, not, ◌&&◌, ◌||◌, List, [], ◌∷◌, ◌++◌, Option, none, some, String,
  if◌then◌else◌, any, length, ltb, ◌==◌, select, member, str_eq, is_blank,
}
use Prim.Native.Char.{code}
use reeve.Discovery.{Stack, ref_of, Index, lookup}

pub record Declaration : Type 0 where
  pub project : String
  pub path : String
  pub pattern : String
  pub stacks : List String

pub record Filter : Type 0 where
  pub path_patterns : List String
  pub stack_patterns : List String

-- `m[key] = append(m[key], texts...)`.
unfoldable pub append_at : String → List String → Index → Index
append_at key texts [] = (key, texts) ∷ []
append_at key texts ((k, old) ∷ rest) =
    let more = append_at key texts rest in
    if str_eq k key then (k, old ++ texts) ∷ rest else (k, old) ∷ more

-- The loop over the declarations: those by path.
unfoldable pub declared_by_path : Index → List Declaration → Index
declared_by_path index [] = index
declared_by_path index (d ∷ decls) =
    if not (is_blank d.pattern)
    then declared_by_path index decls
    else (if not (is_blank d.path)
        then declared_by_path (append_at d.path d.stacks index) decls
        else declared_by_path index decls)

-- Those by pattern.
abbrev pub declared_by_pattern : List Declaration → List Declaration
declared_by_pattern = select (λ d. not (is_blank d.pattern))

-- `s < t`: on UTF-8 the order of the bytes is that of the characters.
abbrev pub str_lt : String → String → Bool
str_lt s String.[] = false
str_lt String.[] (String.◌∷◌ d t) = true
str_lt (String.◌∷◌ c s) (String.◌∷◌ d t) = ltb (code c) (code d) || code c == code d && str_lt s t

unfoldable pub insert_by_ref : Stack → List Stack → List Stack
insert_by_ref s [] = s ∷ []
insert_by_ref s (t ∷ ts) =
    if str_lt (ref_of t) (ref_of s) then t ∷ insert_by_ref s ts else s ∷ t ∷ ts

-- `sort.Slice` by Ref, which leaves the order of stacks of one Ref open.
unfoldable pub sort_by_ref : List Stack → List Stack
sort_by_ref [] = []
sort_by_ref (s ∷ stacks) = insert_by_ref s (sort_by_ref stacks)

-- `names, ok := byPath[s.Path]; ok && containsStack(names, s.Name)`.
abbrev pub is_listed : String → String → Index → Bool
is_listed path name index = elim (lookup path index) [
  | none ↦ false
  | some names ↦ member name names
]

module _ (glob_match : String → String → Bool) where
  abbrev pub declared : Stack → Index → List Declaration → Bool
  declared s by_path patterns =
      is_listed s.path s.name by_path
      || any (λ d. glob_match d.pattern s.path && member s.name d.stacks) patterns

  abbrev pub excluded : Stack → Filter → Bool
  excluded s f =
      any (λ p. glob_match p s.path) f.path_patterns
      || any (λ p. glob_match p (ref_of s)) f.stack_patterns

  unfoldable pub resolve : List Stack → List Declaration → Filter → List Stack
  resolve enumerated decls filter = sort_by_ref (
      select
        (λ s.
          declared s (declared_by_path [] decls) (declared_by_pattern decls)
          && not (excluded s filter))
        enumerated)

unfoldable pub paths_by_ref : Index → List Stack → Index
paths_by_ref index [] = index
paths_by_ref index (s ∷ stacks) = paths_by_ref (append_at (ref_of s) (s.path ∷ []) index) stacks

unfoldable pub insert_text : String → List String → List String
insert_text s [] = s ∷ []
insert_text s (t ∷ ts) = if str_lt t s then t ∷ insert_text s ts else s ∷ t ∷ ts

-- `sort.Strings`.
unfoldable pub sort_texts : List String → List String
sort_texts [] = []
sort_texts (s ∷ texts) = insert_text s (sort_texts texts)

unfoldable pub duplicate_refs : Index → List String
duplicate_refs [] = []
duplicate_refs ((ref, paths) ∷ index) =
    let rest = duplicate_refs index in if ltb 1 (length paths) then ref ∷ rest else rest

-- The error, with the reference and its paths; none where there is none.
abbrev pub first_duplicate : Index → List String → Option (String × List String)
first_duplicate index [] = none
first_duplicate index (ref ∷ refs) = elim (lookup ref index) [
  | none ↦ some (ref, [])
  | some paths ↦ some (ref, sort_texts paths)
]

unfoldable pub validate_unique_refs : List Stack → Option (String × List String)
validate_unique_refs stacks =
    let index = paths_by_ref [] stacks in first_duplicate index (sort_texts (duplicate_refs index))
