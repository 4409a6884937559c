-- ===== src/Filesystem/Steps.antt =====
-- internal/blob/filesystem/filesystem.go: what its writes and removals keep, its calls keep.
use reeve.Prelude.{
  ℕ, ◌≡◌, refl, ◌⊎◌, inl, inr, List, [], ◌∷◌, Option, none, some, String, Bytes, if_cases,
  Option-cases,
}
use reeve.Filesystem.{
  KeyError, CleanedKey, cleaned, refused, Version, Disk, Fault, Reply, clean_key, inspect_key,
  write_atomic, remove_object, put, is_required, put_if_match, delete, delete_if_match,
  is_unreadable, version_eq, Step, put_step, put_if_match_step, delete_step, delete_if_match_step,
  step, run,
}

pub CleanedKey-cases :
    (c : CleanedKey) → ((e : KeyError) × (c ≡ refused e)) ⊎ ((k : String) × (c ≡ cleaned k))
CleanedKey-cases (cleaned k) = inr (k, refl)
CleanedKey-cases (refused e) = inl (e, refl)

module _ (path_clean digest : String → String) (P : Disk → Type 0)
    (written : (k : String) (content : Bytes) (now : ℕ) (fault : Fault) (d : Disk)
      → P d
      → P (write_atomic path_clean digest k content now fault d).1)
    (removed : (k : String) (fault : Fault) (d : Disk)
      → P d
      → P (remove_object path_clean digest k fault d).1) where
  abbrev Q : Reply × Disk → Type 0
  Q r = P r.1

  put_keeps :
      (key : String) (content : Bytes) (now : ℕ) (fault : Fault) (d : Disk)
      → P d
      → Q (put path_clean digest key content now fault d)
  unfolding put
  put_keeps key content now fault d h = elim (CleanedKey-cases (clean_key path_clean digest key)) [
    | inl (x, e) ↦ rw (e, put) h
    | inr (k, e) ↦ rw (e, put) (written k content now fault d h)
  ]

  put_if_match_keeps :
      (key : String) (content : Bytes) (v : Option Version) (now : ℕ) (fault : Fault) (d : Disk)
      → P d
      → Q (put_if_match path_clean digest key content v now fault d)
  unfolding put_if_match
  put_if_match_keeps key content v now fault d h =
      elim (CleanedKey-cases (clean_key path_clean digest key)) [
        | inl (x, e) ↦ rw (e, put_if_match) h
        | inr (k, e) ↦
            rw (e, put_if_match)
              (if_cases Q (is_unreadable fault) _ _ (λ u. h)
                (λ u.
                  if_cases Q (is_required path_clean digest v (inspect_key path_clean digest d k)) _
                    _ (λ w. written k content now fault d h) (λ w. h)))
      ]

  delete_keeps :
      (key : String) (fault : Fault) (d : Disk) → P d → Q (delete path_clean digest key fault d)
  unfolding delete
  delete_keeps key fault d h = elim (CleanedKey-cases (clean_key path_clean digest key)) [
    | inl (x, e) ↦ rw (e, delete) h
    | inr (k, e) ↦ rw (e, delete) (removed k fault d h)
  ]

  delete_if_match_keeps :
      (key : String) (v : Option Version) (fault : Fault) (d : Disk)
      → P d
      → Q (delete_if_match path_clean digest key v fault d)
  unfolding delete_if_match
  delete_if_match_keeps key none fault d h = h
  delete_if_match_keeps key (some v) fault d h =
      elim (CleanedKey-cases (clean_key path_clean digest key)) [
        | inl (x, e) ↦ rw (e, delete_if_match) h
        | inr (k, e) ↦ elim (Option-cases (inspect_key path_clean digest d k)) [
          | inl n ↦
              rw (e, n, delete_if_match) (if_cases Q (is_unreadable fault) _ _ (λ u. h) (λ u. h))
          | inr ((current, o), n) ↦
              rw (e, n, delete_if_match)
                (if_cases Q (is_unreadable fault) _ _ (λ u. h)
                  (λ u. if_cases Q (version_eq current v) _ _ (λ m. removed k fault d h) (λ m. h)))
        ]
      ]

  step_keeps : (t : Step) (d : Disk) → P d → Q (step path_clean digest t d)
  step_keeps (put_step key content now fault) d h = put_keeps key content now fault d h
  step_keeps (put_if_match_step key content v now fault) d h =
      put_if_match_keeps key content v now fault d h
  step_keeps (delete_step key fault) d h = delete_keeps key fault d h
  step_keeps (delete_if_match_step key v fault) d h = delete_if_match_keeps key v fault d h

  pub run_keeps : (steps : List Step) (d : Disk) → P d → P (run path_clean digest steps d)
  unfolding run
  run_keeps [] d h = h
  run_keeps (t ∷ steps) d h = run_keeps steps (step path_clean digest t d).1 (step_keeps t d h)
