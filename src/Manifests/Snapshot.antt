-- ===== src/Manifests/Snapshot.antt =====
-- internal/run/preview_lookup.go: what the snapshot of a manifest says.
use mathlib.Core.Bool.{false≢true}
use reeve.Prelude.{
  ℕ, ◌≡◌, refl, sym, ◌∙◌, ap, Bool, true, false, not, ◌&&◌, ◌||◌, List, [], ◌∷◌, Option, none, some,
  String, all, arith, is_blank, is_empty, trim_space, ltb, ◌==◌, append, sub_time, if◌then◌else◌,
  if_cases, ℤ,
}
use reeve.Manifests.{
  StackStatus, planned, no_op, error, other, StackEntry, PreviewStatus, Best, newest,
  PreviewSnapshot, Loaded, load_failed, loaded, bad_status, ref_of, has_succeeded, status_from,
  is_indexed, index_stacks, load_preview_snapshot,
}

-- The statuses of a preview that succeeded.
abbrev pub is_success : StackStatus → Bool
is_success planned = true
is_success no_op = true
is_success error = false
is_success (other s) = false

-- What is recorded of one stack of a manifest.
abbrev pub recorded : String → ℤ → StackEntry → String × PreviewStatus
recorded run_id age s = (
  append s.project (append "/" s.stack),
  record {
    found = true;
    age = age;
    succeeded = is_success s.status;
    has_changes = not (s.total == 0);
    error_message = (if is_success s.status then "" else s.error_text);
    run_id = run_id;
    plan = s;
  },
)

-- What is recorded of the stacks, the last one first, before what was recorded already.
abbrev pub recorded_onto :
    String → ℤ → List (String × PreviewStatus) → List StackEntry → List (String × PreviewStatus)
recorded_onto run_id age statuses [] = statuses
recorded_onto run_id age statuses (s ∷ stacks) =
    recorded_onto run_id age (recorded run_id age s ∷ statuses) stacks

-- What a snapshot says of the stacks that are left.
abbrev pub Summarizes :
    String → ℤ → PreviewSnapshot → List (String × PreviewStatus) → Bool → List StackEntry → Type 0
Summarizes run_id age s statuses ok stacks =
    (s.all_succeeded ≡ (ok && all (λ x. is_success x.status) stacks))
    × (s.statuses ≡ recorded_onto run_id age statuses stacks)

known_success : (x : StackStatus) (ok : Bool) → has_succeeded x ≡ some ok → ok ≡ is_success x
known_success planned ok e = ground (arith, e)
known_success no_op ok e = ground (arith, e)
known_success error ok e = ground (arith, e)
known_success (other s) ok e = ground (arith, e)

changed_iff : (n : ℕ) → ltb 0 n ≡ not (n == 0)
changed_iff n = ground arith

status_from-recorded :
    (run_id : String) (age : ℤ) (x : StackEntry) (ok : Bool)
    → ok ≡ is_success x.status
    → (ref_of x, status_from run_id age x ok) ≡ recorded run_id age x
status_from-recorded run_id age x ok e =
    ap (λ b. (ref_of x, status_from run_id age x b)) e
    ∙ ap
        (λ c.
          (ref_of x, record (status_from run_id age x (is_success x.status)) { has_changes = c }))
        (changed_iff x.total)

abbrev is_loaded : Loaded → Bool
is_loaded (loaded s) = true
is_loaded _ = false

abbrev snapshot_or : PreviewSnapshot → Loaded → PreviewSnapshot
snapshot_or s (loaded t) = t
snapshot_or s _ = s

and_true : (a : Bool) → a ≡ (a && true)
and_true a = ground arith

and_ok : (a ok x y : Bool) → ok ≡ x → ((a && ok) && y) ≡ (a && (x && y))
and_ok a ok x y e = ground (arith, e)

index_stacks-Summarizes :
    (run_id : String) (age : ℤ) (snapshot : PreviewSnapshot) (stacks : List StackEntry)
    (s : PreviewSnapshot)
    → index_stacks run_id age snapshot stacks ≡ loaded s
    → Summarizes run_id age s snapshot.statuses snapshot.all_succeeded stacks
unfolding index_stacks
index_stacks-Summarizes run_id age snapshot [] s e =
    let same = ap (snapshot_or s) (sym e) in
    (
      ap (λ (t : PreviewSnapshot). t.all_succeeded) same ∙ and_true snapshot.all_succeeded,
      ap (λ (t : PreviewSnapshot). t.statuses) same,
    )
index_stacks-Summarizes run_id age snapshot (x ∷ stacks) s e =
    if_cases (λ r. r ≡ loaded s → Goal)
      (is_blank (trim_space x.project) || is_blank (trim_space x.stack)) _ _
      (λ b f. absurd (false≢true (ap is_loaded f)))
      (λ b.
        if_cases (λ r. r ≡ loaded s → Goal) (is_indexed (ref_of x) snapshot.statuses) _ _
          (λ c f. absurd (false≢true (ap is_loaded f)))
          (λ c.
            go (has_succeeded x.status) refl
              (λ ok f. index_stacks-Summarizes run_id age (grown ok) stacks s f)))
      e
  where
    Goal : Type 0
    Goal = Summarizes run_id age s snapshot.statuses snapshot.all_succeeded (x ∷ stacks)

    grown : Bool → PreviewSnapshot
    grown ok = record snapshot {
      statuses = (ref_of x, status_from run_id age x ok) ∷ snapshot.statuses;
      all_succeeded = snapshot.all_succeeded && ok;
    }

    go :
        (o : Option Bool)
        → has_succeeded x.status ≡ o
        → ((ok : Bool)
            → index_stacks run_id age (grown ok) stacks ≡ loaded s
            → Summarizes run_id age s
                ((ref_of x, status_from run_id age x ok) ∷ snapshot.statuses)
                (snapshot.all_succeeded && ok)
                stacks)
        → (elim o [
          | none ↦ load_failed (bad_status (ref_of x))
          | some ok ↦ index_stacks run_id age (grown ok) stacks
        ])
          ≡ loaded s
        → Goal
    go none h again f = absurd (false≢true (ap is_loaded f))
    go (some ok) h again f =
        let rest = again ok f in
        (
          rest.0
              ∙ and_ok snapshot.all_succeeded ok (is_success x.status)
                  (all (λ y. is_success y.status) stacks) (known_success x.status ok h),
          rest.1
              ∙ ap (λ r. recorded_onto run_id age (r ∷ snapshot.statuses) stacks)
                  (status_from-recorded run_id age x ok (known_success x.status ok h)),
        )

-- A snapshot that is loaded of a manifest records its stacks and nothing else, in reverse order: under
-- each reference that the preview was found, its age and run id, whether it succeeded, that is, was planned or is a no-op,
-- whether it changes anything, the stack's error if it did not succeed, and the stack. The snapshot says that
-- the preview succeeded exactly if there is a stack and every one was planned or is a no-op.
pub load_preview_snapshot-Summarizes :
    (now : ℕ) (best : Best) (s : PreviewSnapshot)
    → load_preview_snapshot now (newest (some best)) ≡ loaded s
    → Summarizes best.manifest.run_id
        (sub_time now best.created_at)
        s
        []
        (not (is_empty best.manifest.stacks))
        best.manifest.stacks
unfolding load_preview_snapshot
load_preview_snapshot-Summarizes now best s e =
    index_stacks-Summarizes _ _ _ best.manifest.stacks s e
