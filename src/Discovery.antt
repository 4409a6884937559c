-- ===== src/Discovery.antt =====
-- internal/core/discovery/discovery.go: the stacks that a change of files affects. doublestar.PathMatch is
-- a parameter; its errors are a match that fails, as the code takes them.
pub mod Affected
pub mod Covers
pub mod Declared
pub mod Listed
pub mod Unique
mod Tests
use reeve.Prelude.{
  ℕ, Bool, true, false, not, ◌&&◌, ◌||◌, List, [], ◌∷◌, ◌++◌, Option, none, some, String,
  if◌then◌else◌, any, is_empty, select, member, str_eq, is_blank, append, contains_char, has_prefix,
  trim_prefix,
}

pub record Stack : Type 0 where
  pub project : String
  pub path : String
  pub name : String
  pub env : String

-- `Ref`.
abbrev pub ref_of : Stack → String
ref_of s = append s.project (append "/" s.name)

-- A `map[string][]string`: its entries, with one for each key.
abbrev pub Index : Type 0
Index = List (String × List String)

abbrev pub lookup : String → Index → Option (List String)
lookup key [] = none
lookup key ((k, texts) ∷ rest) = if str_eq k key then some texts else lookup key rest

pub record ChangeMapping : Type 0 where
  pub ignore_changes : List String
  pub extra_triggers : Index
  pub scope : String

abbrev pub default_skip_globs : List String
default_skip_globs =
    "**/*.md" ∷ "*.md" ∷ "**/*.markdown" ∷ "*.markdown" ∷ "**/*.adoc" ∷ "*.adoc" ∷ "**/*.asciidoc"
    ∷ "*.asciidoc" ∷ "**/*.rst" ∷ "*.rst" ∷ "**/*.txt" ∷ "*.txt" ∷ "**/LICENSE" ∷ "LICENSE"
    ∷ "**/*.png" ∷ "**/*.jpg" ∷ "**/*.jpeg" ∷ "**/*.gif" ∷ "**/*.svg" ∷ "**/*.webp" ∷ []

pub data AffectReason : Type 0 where
  matched docs_only broadened : AffectReason

pub record AffectedResult : Type 0 where
  pub stacks : List Stack
  pub reason : AffectReason
  pub unmapped : List String
  pub demonstrated : List Stack

-- `strings.TrimSuffix(s, p)` for a p that is not empty.
abbrev pub trim_suffix : String → String → String
trim_suffix String.[] p = String.[]
trim_suffix (String.◌∷◌ c s) p =
    let rest = trim_suffix s p in if str_eq (String.◌∷◌ c s) p then String.[] else String.◌∷◌ c rest

-- The name in a stack's own configuration file, none for a file that the stacks share.
unfoldable pub stack_config_name : String → Option String
stack_config_name rel =
    let trimmed = trim_prefix (trim_suffix (trim_suffix rel ".yml") ".yaml") "Pulumi." in
    if contains_char b'/' rel
    then none
    else (if str_eq rel "Pulumi.yaml" || str_eq rel "Pulumi.yml"
        then none
        else (if not (has_prefix rel "Pulumi.")
            then none
            else (if is_blank trimmed || str_eq trimmed rel then none else some trimmed)))

abbrev pub is_named : Stack → Option String → Bool
is_named s none = true
is_named s (some name) = str_eq name s.name

abbrev pub is_root : Stack → Bool
is_root s = str_eq s.path "." || is_blank s.path

unfoldable pub file_matches_stack : Stack → String → Bool
file_matches_stack s f =
    let prefix = append s.path "/" in
    if not (is_root s) && not (str_eq f s.path) && not (has_prefix f prefix)
    then false
    else is_named s (stack_config_name (if is_root s then f else trim_prefix f prefix))

abbrev pub intersects_path : Stack → List String → Bool
intersects_path s changed = any (file_matches_stack s) changed

module _ (path_match : String → String → Bool) where
  abbrev pub matches_any : List String → List String → Bool
  matches_any patterns files = any (λ pat. any (path_match pat) files) patterns

  -- `triggers, ok := cm.ExtraTriggers[s.Project]; ok && matchesAny(triggers, files)`.
  abbrev pub is_triggered : ChangeMapping → Stack → List String → Bool
  is_triggered cm s files = elim (lookup s.project cm.extra_triggers) [
    | none ↦ false
    | some triggers ↦ matches_any triggers files
  ]

  unfoldable pub mark_matched : ChangeMapping → List String → Stack → List String → List String
  mark_matched cm marked s [] = marked
  mark_matched cm marked s (f ∷ filtered) =
      if file_matches_stack s f
      then mark_matched cm (f ∷ marked) s filtered
      else (if is_triggered cm s (f ∷ [])
          then mark_matched cm (f ∷ marked) s filtered
          else mark_matched cm marked s filtered)

  abbrev pub is_hit : ChangeMapping → List String → Stack → Bool
  is_hit cm filtered s = if intersects_path s filtered then true else is_triggered cm s filtered

  -- The loop over the stacks: those that are hit, and the files that are marked.
  unfoldable pub hit_from :
      ChangeMapping → List String → List Stack → List String → List Stack × List String
  hit_from cm filtered [] marked = ([], marked)
  hit_from cm filtered (s ∷ stacks) marked =
      if is_hit cm filtered s
      then (let rest = hit_from cm filtered stacks (mark_matched cm marked s filtered) in
          (s ∷ rest.0, rest.1))
      else hit_from cm filtered stacks marked

  abbrev pub is_skipped : ChangeMapping → String → Bool
  is_skipped cm f = matches_any (default_skip_globs ++ cm.ignore_changes) (f ∷ [])

  abbrev pub concluded : ChangeMapping → List Stack → List Stack → List String → AffectedResult
  concluded cm stacks out unmapped =
      if not (is_empty unmapped) && not (str_eq cm.scope "pulumi_only")
      then record { stacks = stacks; reason = broadened; unmapped = unmapped; demonstrated = out }
      else record { stacks = out; reason = matched; unmapped = []; demonstrated = out }

  abbrev pub affected_by : ChangeMapping → List Stack → List String → AffectedResult
  affected_by cm stacks filtered =
      let hits = hit_from cm filtered stacks [] in
      if is_empty filtered
      then record { stacks = []; reason = docs_only; unmapped = []; demonstrated = [] }
      else concluded cm stacks hits.0 (select (λ f. not (member f hits.1)) filtered)

  unfoldable pub affected_detailed : List Stack → List String → ChangeMapping → AffectedResult
  affected_detailed stacks changed_files cm =
      affected_by cm stacks (select (λ f. not (is_skipped cm f)) changed_files)
