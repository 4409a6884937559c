-- ===== src/Filesystem/Tests.antt =====
-- Runs of internal/blob/filesystem on small inputs, and the theorem at one.
use reeve.Prelude.{ℕ, ◌≡◌, refl, ◌⊎◌, List, [], ◌∷◌, Option, none, some, String, Bytes}
use reeve.Filesystem.{
  cleaned, refused, reserved_key, escaping_key, generation, Object, Disk, disk_of, no_fault,
  before_object, wrote, clean_key, inspect_key, write_atomic, put, put_if_match, delete_if_match,
  get, Step, put_step, put_if_match_step, run,
}
use reeve.Filesystem.Unrepeated.{put_if_match-same}

abbrev same : String → String
same s = s

abbrev no_objects : String → Option Object
no_objects k = none

reserved : clean_key same same "a/.reeve-tmp-1" ≡ refused reserved_key
unfolding clean_key
reserved = refl

escaping : clean_key same same "../a" ≡ refused escaping_key
unfolding clean_key
escaping = refl

abbrev object : Bytes → ℕ → Object
object content now = record { content = content; mod_time = now }

clean_a : clean_key same same "locks/a" ≡ cleaned "locks/a"
unfolding clean_key
clean_a = refl

-- The second write fails behind its generation.
abbrev half_written : List Step
half_written =
    put_step "locks/a" (1 ∷ []) 5 no_fault ∷ put_step "locks/a" (2 ∷ []) 6 before_object ∷ []

half_written_told :
    inspect_key same same (run same same half_written (disk_of no_objects)) "locks/a"
    ≡ some (generation 1, object (1 ∷ []) 5)
unfolding run put write_atomic clean_key
half_written_told = refl

-- A Get that opens the file before a write and tells the version after it answers the old content with the new version.
abbrev first_disk : Disk
first_disk = run same same (put_step "locks/a" (1 ∷ []) 5 no_fault ∷ []) (disk_of no_objects)

abbrev second_disk : Disk
second_disk =
    run same same (put_if_match_step "locks/a" (2 ∷ []) (some (generation 0)) 6 no_fault ∷ [])
      first_disk

torn_get : get same same "locks/a" first_disk second_disk ≡ some (1 ∷ [], generation 1)
unfolding run put put_if_match write_atomic clean_key get
torn_get = refl

-- With it a writer that has not seen the new content replaces it.
torn_write :
    (put_if_match same same "locks/a" (3 ∷ []) (some (generation 1)) 7 no_fault second_disk).0
    ≡ wrote (generation 2) 1
unfolding run put put_if_match write_atomic clean_key
torn_write = refl

put_if_match-same_example :
    (let d =
        run same same
          (put_step "locks/b" (3 ∷ []) 8 no_fault ∷ [])
          (run same same half_written (disk_of no_objects)) in
      (((put_if_match same same "locks/a" (4 ∷ []) (some (generation 1)) 9 no_fault d).1 ≡ d)
        ⊎ (d.objects "locks/a" ≡ some (object (1 ∷ []) 5)))
      × (((delete_if_match same same "locks/a" (some (generation 1)) no_fault d).1 ≡ d)
          ⊎ (d.objects "locks/a" ≡ some (object (1 ∷ []) 5))))
put_if_match-same_example =
    put_if_match-same same same no_objects half_written
      (put_step "locks/b" (3 ∷ []) 8 no_fault ∷ []) "locks/a" "locks/a" 1 (object (1 ∷ []) 5)
      (4 ∷ []) 9 no_fault clean_a half_written_told
