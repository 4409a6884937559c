-- ===== src/Drift/Filter.antt =====
-- internal/drift/classify_filter.go: the filter that takes drift noise out of what a check found.
use reeve.Prelude.{
  ℕ, ◌+◌, Bool, true, false, not, ◌&&◌, ◌||◌, List, [], ◌∷◌, ◌++◌, Option, none, some, String,
  if◌then◌else◌, ◌==◌, length, is_empty, select, str_eq,
}
use reeve.Drift.Wildcard.{Bytes, wildcard_match, matches_any}

pub record IgnoreProperty : Type 0 where
  pub resource_type : Bytes
  pub properties : List Bytes

pub record Classification : Type 0 where
  pub ignore_properties : List IgnoreProperty
  pub ignore_resources : List Bytes
  pub treat_orphaned_as_drift : Bool
  pub treat_missing_as_drift : Bool

-- internal/iac/preview.go. The names of resources and properties are the bytes that globs see.
pub record ResourceChange : Type 0 where
  pub address : Bytes
  pub kind : Bytes
  pub op : String
  pub paths : List Bytes
  pub category : String

pub record Counts : Type 0 where
  pub add : ℕ
  pub change : ℕ
  pub delete : ℕ
  pub replace : ℕ

abbrev pub no_counts : Counts
no_counts = record { add = 0; change = 0; delete = 0; replace = 0 }

-- A nil classification is none.
abbrev pub is_neutral : Option Classification → Bool
is_neutral none = true
is_neutral (some c) =
    is_empty c.ignore_properties
    && is_empty c.ignore_resources
    && c.treat_orphaned_as_drift
    && c.treat_missing_as_drift

unfoldable pub ignored_props_for : List IgnoreProperty → Bytes → List Bytes
ignored_props_for [] typ = []
ignored_props_for (ip ∷ rest) typ =
    let more = ignored_props_for rest typ in
    if is_empty ip.resource_type || wildcard_match ip.resource_type typ
    then ip.properties ++ more
    else more

unfoldable pub retained_paths : Classification → ResourceChange → List Bytes
retained_paths c r =
    let ignored = ignored_props_for c.ignore_properties r.kind in
    if is_empty ignored then r.paths else select (λ p. not (matches_any p ignored)) r.paths

-- What the loop does with one resource: drop it, keep it as it is, or keep it with fewer paths.
pub data Verdict : Type 0 where
  dropped kept : Verdict
  trimmed : List Bytes → Verdict

abbrev pub verdict_of : ResourceChange → List Bytes → Verdict
verdict_of r remaining =
    if is_empty remaining
    then dropped
    else (if length remaining == length r.paths then kept else trimmed remaining)

unfoldable pub verdict : Classification → ResourceChange → Verdict
verdict c r =
    if matches_any r.address c.ignore_resources
    then dropped
    else (if not c.treat_orphaned_as_drift && str_eq r.category "orphaned"
        then dropped
        else (if not c.treat_missing_as_drift && str_eq r.category "missing"
            then dropped
            else (if str_eq r.op "update" && not (is_empty r.paths)
                then verdict_of r (retained_paths c r)
                else kept)))

abbrev pub filtered_one : ResourceChange → Verdict → List ResourceChange
filtered_one r dropped = []
filtered_one r kept = r ∷ []
filtered_one r (trimmed remaining) = record r { paths = remaining } ∷ []

abbrev pub removes : Verdict → Bool
removes dropped = true
removes kept = false
removes (trimmed remaining) = true

unfoldable pub filter_from : Classification → List ResourceChange → List ResourceChange × Bool
filter_from c [] = ([], false)
filter_from c (r ∷ resources) =
    let rest = filter_from c resources in
    (filtered_one r (verdict c r) ++ rest.0, removes (verdict c r) || rest.1)

-- The resources that still count as drift, and whether anything was taken out.
unfoldable pub filter : Option Classification → List ResourceChange → List ResourceChange × Bool
filter none resources = (resources, false)
filter (some c) resources =
    if is_neutral (some c) || is_empty resources
    then (resources, false)
    else filter_from c resources

abbrev pub count_op : String → Counts → Counts
count_op op c =
    if str_eq op "create"
    then record c { add = c.add + 1 }
    else (if str_eq op "update"
        then record c { change = c.change + 1 }
        else (if str_eq op "delete"
            then record c { delete = c.delete + 1 }
            else (if str_eq op "replace" then record c { replace = c.replace + 1 } else c)))

unfoldable pub apply_counts_from : Counts → List Bytes → List ResourceChange → Counts × List Bytes
apply_counts_from c addrs [] = (c, addrs)
apply_counts_from c addrs (r ∷ resources) =
    apply_counts_from (count_op r.op c)
      (if is_empty r.address then addrs else addrs ++ (r.address ∷ [])) resources

unfoldable pub apply_counts : List ResourceChange → Counts × List Bytes
apply_counts resources = apply_counts_from no_counts [] resources
