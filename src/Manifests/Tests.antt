-- ===== src/Manifests/Tests.antt =====
-- Runs of internal/run/preview_lookup.go on small inputs, and the theorems at them.
use reeve.Prelude.{
  sub_time, pos, not, is_empty, ℕ, ◌≡◌, refl, true, false, List, [], ◌∷◌, some, String,
  if◌then◌else◌, any, all, str_eq,
}
use reeve.Manifests.Admitted.{Admits}
use reeve.Manifests.Snapshot.{Summarizes, load_preview_snapshot-Summarizes}
use reeve.Manifests.{
  StackStatus, error, PreviewSnapshot, loaded, status_from, index_stacks, load_preview_snapshot,
  StackEntry, planned, Manifest, Read, unreadable, manifest, Best, newest, consider, check_manifest,
  newest_from, newest_preview_manifest, preview_manifest_candidate, preview_run_order,
  newer_preview_run_id,
}
use reeve.Manifests.Verdicts.{is_failed, is_reached, admits_at}
use reeve.Manifests.Latest.{
  is_refused, refuses_any, newest_preview_manifest_newest, newest_preview_manifest-Admits,
}

abbrev preview_of : String → ℕ → Manifest
preview_of run_id t = record {
  run_id = run_id;
  pr = 7;
  commit_sha = "c0ffee1234";
  op = "preview";
  created_at = some t;
  stacks = [];
}

abbrev keys : List String
keys =
    "runs/pr-7/apply-1/manifest.json" ∷ "runs/pr-7/run-9-c0ffee1234/manifest.json"
    ∷ "runs/pr-7/run-10-c0ffee1234/manifest.json" ∷ "runs/pr-7/run-8-c0ffee1/manifest.json" ∷ []

-- The run with the short commit is unreadable; it is not bound.
abbrev read_key : String → Read
read_key k =
    if str_eq k "runs/pr-7/run-9-c0ffee1234/manifest.json"
    then manifest (preview_of "run-9-c0ffee1234" 50)
    else (if str_eq k "runs/pr-7/run-10-c0ffee1234/manifest.json"
        then manifest (preview_of "run-10-c0ffee1234" 50)
        else unreadable)

abbrev tenth : Best
tenth = record { manifest = preview_of "run-10-c0ffee1234" 50; created_at = 50 }

-- Of two previews of one second the one of the later run is found, by its number and not by its text.
later_run :
    newest_preview_manifest (some keys) read_key "runs/pr-7/" 7 "c0ffee1234" ≡ newest (some tenth)
unfolding newest_preview_manifest newest_from consider check_manifest preview_manifest_candidate
    preview_run_order newer_preview_run_id
later_run = refl

newest_preview_manifest_newest_example :
    (is_refused (newest_preview_manifest (some keys) read_key "runs/pr-7/" 7 "c0ffee1234")
      ≡ refuses_any read_key "runs/pr-7/" 7 "c0ffee1234" (some keys))
    × (all
          (λ k.
            is_reached
              (admits_at read_key "runs/pr-7/" 7 "c0ffee1234" k)
              (newest_preview_manifest (some keys) read_key "runs/pr-7/" 7 "c0ffee1234"))
          keys
        ≡ true)
newest_preview_manifest_newest_example =
    newest_preview_manifest_newest read_key "runs/pr-7/" 7 "c0ffee1234" (some keys)

newest_preview_manifest-Admits_example :
    (any (λ k. is_failed (consider read_key "runs/pr-7/" 7 "c0ffee1234" k)) keys ≡ false)
    × ((k : String) × (any (str_eq k) keys ≡ true)
        × Admits read_key "runs/pr-7/" 7 "c0ffee1234" k (preview_of "run-10-c0ffee1234" 50) 50)
newest_preview_manifest-Admits_example =
    newest_preview_manifest-Admits read_key "runs/pr-7/" 7 "c0ffee1234" keys tenth later_run

abbrev entry : String → StackStatus → StackEntry
entry name status = record {
  project = "net";
  stack = name;
  status = status;
  total = 1;
  error_text = "boom";
}

abbrev two_stacks : Best
two_stacks = record {
  manifest = record (preview_of "run-9-c0ffee1234" 50) {
    stacks = entry "a" planned ∷ entry "b" error ∷ [];
  };
  created_at = 50;
}

abbrev two_statuses : PreviewSnapshot
two_statuses = record {
  statuses =
      ("net/b", status_from "run-9-c0ffee1234" (pos 10) (entry "b" error) false)
      ∷ ("net/a", status_from "run-9-c0ffee1234" (pos 10) (entry "a" planned) true)
      ∷ [];
  stack_count = 2;
  all_succeeded = false;
}

two_loaded : load_preview_snapshot 60 (newest (some two_stacks)) ≡ loaded two_statuses
unfolding load_preview_snapshot index_stacks
two_loaded = refl

load_preview_snapshot-Summarizes_example :
    Summarizes "run-9-c0ffee1234"
      (sub_time 60 50)
      two_statuses
      []
      (not (is_empty two_stacks.manifest.stacks))
      two_stacks.manifest.stacks
load_preview_snapshot-Summarizes_example =
    load_preview_snapshot-Summarizes 60 two_stacks two_statuses two_loaded
