-- ===== src/Filesystem.antt =====
-- internal/blob/filesystem/filesystem.go: a directory as a bucket. The files are a disk that is passed on; a step is one
-- call, which flock makes one after another for each key, and a fault says where a call of the system fails.
-- The generations of crypto/rand are numbered as they are drawn, so none is drawn twice.
pub mod Steps
pub mod Unrepeated
mod Tests
use Prim.Native.Char.{Char, code}
use reeve.Prelude.{
  ℕ, suc, ◌+◌, Bool, true, false, not, ◌&&◌, ◌||◌, List, [], ◌∷◌, Option, none, some, String,
  if◌then◌else◌, ◌==◌, length, any, str_eq, is_blank, has_prefix, trim_space, append, Bytes,
}

pub data KeyError : Type 0 where
  empty_key absolute_key escaping_key reserved_key : KeyError

pub data CleanedKey : Type 0 where
  cleaned : String → CleanedKey
  refused : KeyError → CleanedKey

pub data Version : Type 0 where
  generation : ℕ → Version
  legacy : ℕ → ℕ → Version

abbrev pub version_eq : Version → Version → Bool
version_eq (generation g) (generation h) = g == h
version_eq (generation g) (legacy size time) = false
version_eq (legacy size time) (generation h) = false
version_eq (legacy size time) (legacy size' time') = size == size' && time == time'

pub record Object : Type 0 where
  pub content : Bytes
  pub mod_time : ℕ

pub record Disk : Type 0 where
  pub objects : String → Option Object
  pub generations : String → Option ℕ
  pub drawn : ℕ

-- A bucket of objects from before generations were kept.
abbrev pub disk_of : (String → Option Object) → Disk
disk_of objects = record { objects = objects; generations = λ k. none; drawn = 0 }

abbrev pub set : {A : Type 0} → String → A → (String → A) → String → A
set k v f x = if str_eq x k then v else f x

pub data Fault : Type 0 where
  no_fault unreadable before_generation before_object : Fault

pub data Reply : Type 0 where
  wrote : Version → ℕ → Reply
  deleted precondition_failed not_found io_error : Reply
  key_error : KeyError → Reply

abbrev push_char : Char → List String → List String
push_char c [] = String.◌∷◌ c String.[] ∷ []
push_char c (p ∷ ps) = String.◌∷◌ c p ∷ ps

abbrev pub is_unreadable : Fault → Bool
is_unreadable unreadable = true
is_unreadable _ = false

-- `strings.Split(key, "/")`.
abbrev split_slash : String → List String
split_slash String.[] = String.[] ∷ []
split_slash (String.◌∷◌ c s) =
    let rest = split_slash s in if code c == b'/' then String.[] ∷ rest else push_char c rest

abbrev pub temporary_prefix : String
temporary_prefix = ".reeve-tmp-"

abbrev pub is_temporary_key : String → Bool
is_temporary_key key = any (λ part. has_prefix part temporary_prefix) (split_slash key)

abbrev pub namespaces : List String
namespaces = ".reeve-locks" ∷ ".reeve-generations" ∷ []

abbrev pub is_internal_key : String → Bool
is_internal_key key =
    is_temporary_key key || any (λ n. str_eq key n || has_prefix key (append n "/")) namespaces

pub data Step : Type 0 where
  put_step : String → Bytes → ℕ → Fault → Step
  put_if_match_step : String → Bytes → Option Version → ℕ → Fault → Step
  delete_step : String → Fault → Step
  delete_if_match_step : String → Option Version → Fault → Step

-- `path.Clean` and the digest of a key's generation file are parameters.
module _ (path_clean digest : String → String) where
  -- A slash stands between the parts of a path.
  unfoldable pub clean_key : String → CleanedKey
  clean_key key =
      let k = path_clean key in
      if is_blank (trim_space key)
      then refused empty_key
      else (if has_prefix key "/"
          then refused absolute_key
          else (if str_eq k ".." || has_prefix k "../"
              then refused escaping_key
              else (if str_eq k "."
                  then refused empty_key
                  else (if is_internal_key k then refused reserved_key else cleaned k))))

  abbrev pub version_for : Disk → String → Object → Version
  version_for d k o = elim (d.generations (digest k)) [
    | some g ↦ generation g
    | none ↦ legacy (length o.content) o.mod_time
  ]

  abbrev pub inspect_key : Disk → String → Option (Version × Object)
  inspect_key d k = elim (d.objects k) [ none ↦ none | some o ↦ some (version_for d k o, o) ]

  -- `writeAtomic`: the generation is on the disk before the object is.
  unfoldable pub write_atomic : String → Bytes → ℕ → Fault → Disk → Reply × Disk
  write_atomic k content now no_fault d = (
    wrote (generation d.drawn) (length content),
    record {
      objects = set k (some (record { content = content; mod_time = now })) d.objects;
      generations = set (digest k) (some d.drawn) d.generations;
      drawn = suc d.drawn;
    },
  )
  write_atomic k content now before_object d = (
    io_error,
    record d { generations = set (digest k) (some d.drawn) d.generations; drawn = suc d.drawn },
  )
  write_atomic k content now before_generation d = (io_error, record d { drawn = suc d.drawn })
  write_atomic k content now unreadable d = (io_error, d)

  -- The removal of an object and then of its generation.
  unfoldable pub remove_object : String → Fault → Disk → Reply × Disk
  remove_object k no_fault d = (
    deleted,
    record d { objects = set k none d.objects; generations = set (digest k) none d.generations },
  )
  remove_object k before_generation d = (io_error, record d { objects = set k none d.objects })
  remove_object k before_object d = (io_error, d)
  remove_object k unreadable d = (io_error, d)

  unfoldable pub put : String → Bytes → ℕ → Fault → Disk → Reply × Disk
  put key content now fault d = elim (clean_key key) [
    | refused e ↦ (key_error e, d)
    | cleaned k ↦ write_atomic k content now fault d
  ]

  -- Whether what is there is what the caller requires; no version requires absence.
  abbrev pub is_required : Option Version → Option (Version × Object) → Bool
  is_required none none = true
  is_required none (some current) = false
  is_required (some v) none = false
  is_required (some v) (some (current, o)) = version_eq current v

  unfoldable pub put_if_match : String → Bytes → Option Version → ℕ → Fault → Disk → Reply × Disk
  put_if_match key content if_match now fault d = elim (clean_key key) [
    | refused e ↦ (key_error e, d)
    | cleaned k ↦
        if is_unreadable fault
        then (io_error, d)
        else (if is_required if_match (inspect_key d k)
            then write_atomic k content now fault d
            else (precondition_failed, d))
  ]

  unfoldable pub delete : String → Fault → Disk → Reply × Disk
  delete key fault d = elim (clean_key key) [
    | refused e ↦ (key_error e, d)
    | cleaned k ↦ remove_object k fault d
  ]

  -- The version "" is refused first.
  unfoldable pub delete_if_match : String → Option Version → Fault → Disk → Reply × Disk
  delete_if_match key none fault d = (precondition_failed, d)
  delete_if_match key (some v) fault d = elim (clean_key key) [
    | refused e ↦ (key_error e, d)
    | cleaned k ↦ if is_unreadable fault then (io_error, d) else (elim (inspect_key d k) [
      | none ↦ (not_found, d)
      | some (current, o) ↦
          if version_eq current v then remove_object k fault d else (precondition_failed, d)
    ])
  ]

  -- Get takes no lock: its file is opened on one disk, and its version told on another, that others may have written
  -- in between.
  unfoldable pub get : String → Disk → Disk → Option (Bytes × Version)
  get key opened told = elim (clean_key key) [
    | refused e ↦ none
    | cleaned k ↦ elim (opened.objects k) [
      | none ↦ none
      | some o ↦ some (o.content, version_for told k o)
    ]
  ]

  abbrev pub step : Step → Disk → Reply × Disk
  step (put_step key content now fault) d = put key content now fault d
  step (put_if_match_step key content v now fault) d = put_if_match key content v now fault d
  step (delete_step key fault) d = delete key fault d
  step (delete_if_match_step key v fault) d = delete_if_match key v fault d

  unfoldable pub run : List Step → Disk → Disk
  run [] d = d
  run (t ∷ steps) d = run steps (step t d).1
