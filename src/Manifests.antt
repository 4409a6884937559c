-- ===== src/Manifests.antt =====
-- internal/run/preview_lookup.go: the preview that an apply is bound to. What the bucket lists and answers for a key is
-- a parameter; a manifest stands for its JSON, with the time that time.Parse makes of its text.
pub mod Admitted
pub mod Verdicts
pub mod Latest
pub mod Snapshot
mod Tests
use Prim.Native.Char.{code}
use reeve.Prelude.{
  ℕ, zero, suc, length, is_empty, ◌+◌, ◌-◌, ◌*◌, Bool, true, false, not, ◌&&◌, ◌||◌, List, [], ◌∷◌,
  Option, none, some, String, if◌then◌else◌, ltb, leb, ◌==◌, any, member, str_eq, is_blank, append,
  cut_at, cut_prefix, has_prefix, has_suffix, trim_prefix, trim_space, ℤ, sub_time,
}
use reeve.Discovery.Declared.{str_lt}

pub data StackStatus : Type 0 where
  planned no_op error : StackStatus
  other : String → StackStatus

-- What the lookup reads of a stack's summary; a manifest has its whole plan.
pub record StackEntry : Type 0 where
  pub project : String
  pub stack : String
  pub status : StackStatus
  pub total : ℕ
  pub error_text : String

pub record Manifest : Type 0 where
  pub run_id : String
  pub pr : ℕ
  pub commit_sha : String
  pub op : String
  pub created_at : Option ℕ
  pub stacks : List StackEntry

pub data Read : Type 0 where
  unreadable malformed : Read
  manifest : Manifest → Read

pub data LookupError : Type 0 where
  list_failed : LookupError
  read_failed decode_failed not_identical wrong_pr wrong_run_id bad_created_at :
      String → LookupError

-- `strings.TrimSuffix`.
abbrev pub trim_suffix : String → String → String
trim_suffix String.[] suffix = String.[]
trim_suffix (String.◌∷◌ c s) suffix =
    let rest = trim_suffix s suffix in
    if str_eq (String.◌∷◌ c s) suffix then String.[] else String.◌∷◌ c rest

abbrev digits_from : ℕ → String → Option ℕ
digits_from n String.[] = some n
digits_from n (String.◌∷◌ c s) =
    let rest = digits_from (n * 10 + (code c - b'0')) s in
    if leb b'0' (code c) && leb (code c) b'9' then rest else none

abbrev pub max_int : ℕ
max_int = 9223372036854775807

-- `strconv.Atoi` of a text without a minus sign.
abbrev pub atoi : String → Option ℕ
atoi s =
    let text = trim_prefix s "+" in
    if is_blank text then none else (elim (digits_from 0 text) [
      | none ↦ none
      | some n ↦ if leb n max_int then some n else none
    ])

-- The number and the attempt of a run id, without its prefix and suffix.
abbrev pub identity_order : String → Option (ℕ × ℕ)
identity_order identity = elim (cut_at b'-' identity) [
  | none ↦ elim (atoi identity) [ none ↦ none | some n ↦ some (n, 0) ]
  | some (number, attempt) ↦ elim (atoi number) [
    | none ↦ none
    | some n ↦ elim (atoi attempt) [ none ↦ none | some a ↦ if ltb 0 a then some (n, a) else none ]
  ]
]

abbrev pub artifact_sha : String → String
artifact_sha commit_sha = if is_blank commit_sha then "unknown" else commit_sha

abbrev first_chars : ℕ → String → String
first_chars zero s = String.[]
first_chars (suc n) String.[] = String.[]
first_chars (suc n) (String.◌∷◌ c s) = String.◌∷◌ c (first_chars n s)

-- `shortSHA`, for ASCII.
abbrev pub short_sha : String → String
short_sha s = if is_blank s then "unknown" else first_chars 7 s

unfoldable pub preview_run_order : String → String → Option (ℕ × ℕ)
preview_run_order run_id commit_sha = elim (cut_prefix run_id "run-") [
  | none ↦ none
  | some rest ↦
      let artifact = append "-" (artifact_sha commit_sha) in
      let short = append "-" (short_sha commit_sha) in
      if has_suffix run_id artifact
      then identity_order (trim_suffix rest artifact)
      else (if has_suffix run_id short then identity_order (trim_suffix rest short) else none)
]

unfoldable pub newer_preview_run_id : String → String → String → Bool
newer_preview_run_id candidate current commit_sha =
    let by_text = str_lt current candidate in
    elim (preview_run_order candidate commit_sha) [
      | none ↦ by_text
      | some (n, a) ↦ elim (preview_run_order current commit_sha) [
        | none ↦ by_text
        | some (m, b) ↦
            if not (n == m) then ltb m n else (if not (a == b) then ltb b a else by_text)
      ]
    ]

-- The run id of a key that may be the preview's, and whether the key is bound to the commit.
unfoldable pub preview_manifest_candidate : String → String → String → Option (String × Bool)
preview_manifest_candidate key prefix commit_sha =
    if is_blank commit_sha then none else (elim (cut_prefix key prefix) [
      | none ↦ none
      | some relative ↦ elim (cut_at b'/' relative) [
        | none ↦ none
        | some (run_id, rest) ↦
            if not (str_eq rest "manifest.json")
            then none
            else (if has_prefix run_id "apply-" || has_prefix run_id "refresh-"
                then none
                else (if not (has_prefix run_id "run-")
                    then some (run_id, false)
                    else (if has_suffix run_id (append "-" (artifact_sha commit_sha))
                        then some (run_id, true)
                        else (if has_suffix run_id (append "-" (short_sha commit_sha))
                            then some (run_id, false)
                            else none))))
      ]
    ])

-- What the loop makes of one key.
pub data Considered : Type 0 where
  skipped : Considered
  failed : LookupError → Considered
  admitted : Manifest → ℕ → Considered

unfoldable pub check_manifest : String → ℕ → String → String → Bool → Manifest → Considered
check_manifest key pr commit_sha run_id is_bound m =
    if not (str_eq m.op "preview") || not (str_eq m.commit_sha commit_sha)
    then (if is_bound then failed (not_identical key) else skipped)
    else (if not (m.pr == pr)
        then failed (wrong_pr key)
        else (if not (str_eq m.run_id run_id)
            then failed (wrong_run_id key)
            else (elim m.created_at [
              | none ↦ failed (bad_created_at key)
              | some t ↦ admitted m t
            ])))

pub record Best : Type 0 where
  pub manifest : Manifest
  pub created_at : ℕ

abbrev pub is_better : String → Manifest → ℕ → Option Best → Bool
is_better commit_sha m t none = true
is_better commit_sha m t (some best) =
    ltb best.created_at t
    || best.created_at == t && newer_preview_run_id m.run_id best.manifest.run_id commit_sha

-- The best manifest so far, or the first error.
pub data Newest : Type 0 where
  refused : LookupError → Newest
  newest : Option Best → Newest

module _ (read : String → Read) (prefix : String) (pr : ℕ) (commit_sha : String) where
  unfoldable pub consider : String → Considered
  consider key = elim (preview_manifest_candidate key prefix commit_sha) [
    | none ↦ skipped
    | some (run_id, is_bound) ↦ elim (read key) [
      | unreadable ↦ if is_bound then failed (read_failed key) else skipped
      | malformed ↦ if is_bound then failed (decode_failed key) else skipped
      | manifest m ↦ check_manifest key pr commit_sha run_id is_bound m
    ]
  ]

  -- The loop over the keys.
  unfoldable pub newest_from : Option Best → List String → Newest
  newest_from best [] = newest best
  newest_from best (k ∷ keys) = elim (consider k) [
    | skipped ↦ newest_from best keys
    | failed e ↦ refused e
    | admitted m t ↦
        let better = is_better commit_sha m t best in
        newest_from (if better then some (record { manifest = m; created_at = t }) else best) keys
  ]

-- List answers the keys, or fails.
unfoldable pub newest_preview_manifest :
    Option (List String) → (String → Read) → String → ℕ → String → Newest
newest_preview_manifest none read prefix pr commit_sha = refused list_failed
newest_preview_manifest (some keys) read prefix pr commit_sha =
    newest_from read prefix pr commit_sha none keys

pub record PreviewStatus : Type 0 where
  pub found : Bool
  pub age : ℤ
  pub succeeded : Bool
  pub has_changes : Bool
  pub error_message : String
  pub run_id : String
  pub plan : StackEntry

pub record PreviewSnapshot : Type 0 where
  pub statuses : List (String × PreviewStatus)
  pub stack_count : ℕ
  pub all_succeeded : Bool

pub data SnapshotError : Type 0 where
  lookup_error : LookupError → SnapshotError
  bad_reference : SnapshotError
  duplicate_stack bad_status : String → SnapshotError

pub data Loaded : Type 0 where
  load_failed : SnapshotError → Loaded
  loaded : PreviewSnapshot → Loaded

abbrev pub ref_of : StackEntry → String
ref_of s = append s.project (append "/" s.stack)

-- Whether the preview of a stack succeeded; none for a status that no preview has.
abbrev pub has_succeeded : StackStatus → Option Bool
has_succeeded planned = some true
has_succeeded no_op = some true
has_succeeded error = some false
has_succeeded (other s) = none

abbrev pub status_from : String → ℤ → StackEntry → Bool → PreviewStatus
status_from run_id age s ok = record {
  found = true;
  age = age;
  succeeded = ok;
  has_changes = ltb 0 s.total;
  error_message = (if ok then "" else s.error_text);
  run_id = run_id;
  plan = s;
}

abbrev pub is_indexed : String → List (String × PreviewStatus) → Bool
is_indexed ref [] = false
is_indexed ref ((r, s) ∷ statuses) = str_eq r ref || is_indexed ref statuses

-- The loop over the stacks of the best manifest.
unfoldable pub index_stacks : String → ℤ → PreviewSnapshot → List StackEntry → Loaded
index_stacks run_id age snapshot [] = loaded snapshot
index_stacks run_id age snapshot (s ∷ stacks) =
    if is_blank (trim_space s.project) || is_blank (trim_space s.stack)
    then load_failed bad_reference
    else (if is_indexed (ref_of s) snapshot.statuses
        then load_failed (duplicate_stack (ref_of s))
        else (elim (has_succeeded s.status) [
          | none ↦ load_failed (bad_status (ref_of s))
          | some ok ↦
              index_stacks run_id age
                (record snapshot {
                  statuses = (ref_of s, status_from run_id age s ok) ∷ snapshot.statuses;
                  all_succeeded = snapshot.all_succeeded && ok;
                })
                stacks
        ]))

abbrev pub no_snapshot : PreviewSnapshot
no_snapshot = record { statuses = []; stack_count = 0; all_succeeded = false }

-- With a bucket, of a pull request that is not 0.
unfoldable pub load_preview_snapshot : ℕ → Newest → Loaded
load_preview_snapshot now (refused e) = load_failed (lookup_error e)
load_preview_snapshot now (newest none) = loaded no_snapshot
load_preview_snapshot now (newest (some best)) =
    index_stacks best.manifest.run_id (sub_time now best.created_at)
      (record {
        statuses = [];
        stack_count = length best.manifest.stacks;
        all_succeeded = not (is_empty best.manifest.stacks);
      })
      best.manifest.stacks
