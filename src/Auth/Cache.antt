-- ===== src/Auth/Cache.antt =====
-- internal/auth/cache.go: the credentials of one invocation, with requests that run at the same time. A
-- step is what one goroutine does while it holds the mutex; the provider's work lies between two steps.
pub mod Cleanup
use reeve.Prelude.{
  ℕ, suc, ◌+◌, ◌*◌, Bool, true, false, not, ◌&&◌, ◌||◌, List, [], ◌∷◌, ◌++◌, map, Option, none,
  some, String, if◌then◌else◌, ltb, ◌==◌, str_eq, is_zero_time, second, select,
}

abbrev pub default_credential_safety_margin : ℕ
default_credential_safety_margin = 30 * second

-- A number tells the credentials apart that providers hand out.
pub record Credential : Type 0 where
  pub number : ℕ
  pub env : List (String × String)
  pub kind : String
  pub source : String
  pub expires_at : ℕ
  pub has_cleanup : Bool

-- The attempt in an entry is known by its number.
pub record Entry : Type 0 where
  pub name : String
  pub credential : Option Credential
  pub attempt : Option ℕ

-- A goroutine that waits for its provider.
pub record Attempt : Type 0 where
  pub number : ℕ
  pub name : String
  pub start_generation : ℕ

-- The cache and the attempts on their way, with a record of the credentials that providers have handed out
-- and of the calls of Cleanup.
pub record Cache : Type 0 where
  pub entries : List Entry
  pub generation : ℕ
  pub owned : List Credential
  pub is_closed : Bool
  pub attempts : List Attempt
  pub next_number : ℕ
  pub handed : List Credential
  pub cleaned : List Credential

abbrev pub new_cache : Cache
new_cache = record {
  entries = [];
  generation = 0;
  owned = [];
  is_closed = false;
  attempts = [];
  next_number = 0;
  handed = [];
  cleaned = [];
}

abbrev pub credential_usable : Credential → ℕ → ℕ → Bool
credential_usable c now margin = is_zero_time c.expires_at || ltb (now + margin) c.expires_at

abbrev pub is_usable : Option Credential → ℕ → ℕ → Bool
is_usable none now margin = false
is_usable (some c) now margin = credential_usable c now margin

-- A clone cannot be cleaned up.
abbrev pub clone_credential : Credential → Credential
clone_credential c = record c { has_cleanup = false }

-- `c.entries[name]`, with a new entry where there is none.
abbrev pub entry_of : String → List Entry → Entry
entry_of name [] = record { name = name; credential = none; attempt = none }
entry_of name (e ∷ entries) = if str_eq e.name name then e else entry_of name entries

abbrev pub put_entry : Entry → List Entry → List Entry
put_entry new [] = new ∷ []
put_entry new (e ∷ entries) =
    if str_eq e.name new.name then new ∷ entries else e ∷ put_entry new entries

abbrev pub cleanup_credential : Credential → Cache → Cache
cleanup_credential c s = if c.has_cleanup then record s { cleaned = c ∷ s.cleaned } else s

abbrev pub cleanup_answer : Option Credential → Cache → Cache
cleanup_answer none s = s
cleanup_answer (some c) s = cleanup_credential c s

-- What a provider answers: a credential, or an error and perhaps a credential.
pub data Acquired : Type 0 where
  acquired : Credential → Acquired
  failed : Option Credential → Acquired

pub data Reply : Type 0 where
  cache_closed acquire_failed retry unknown invalidated closed_now : Reply
  hit got : Credential → Reply
  started joined : ℕ → Reply

-- The loop of acquireOne up to the call of its provider, or to its wait for another's.
abbrev pub begun : Entry → Cache → Reply × Cache
begun e s = elim e.attempt [
  | some n ↦ (joined n, record s { entries = put_entry e s.entries })
  | none ↦ (
    started s.next_number,
    record s {
      entries = put_entry (record e { attempt = some s.next_number }) s.entries;
      attempts =
          record { number = s.next_number; name = e.name; start_generation = s.generation }
          ∷ s.attempts;
      next_number = suc s.next_number;
    },
  )
]

unfoldable pub begin : ℕ → String → ℕ → Cache → Reply × Cache
begin margin name now s =
    let e = entry_of name s.entries in
    if s.is_closed then (cache_closed, s) else (elim e.credential [
      | none ↦ begun e s
      | some c ↦
          if credential_usable c now margin
          then (hit (clone_credential c), record s { entries = put_entry e s.entries })
          else begun e s
    ])

abbrev pub attempt_of : ℕ → List Attempt → Option Attempt
attempt_of n [] = none
attempt_of n (a ∷ attempts) = if a.number == n then some a else attempt_of n attempts

abbrev pub without : ℕ → List Attempt → List Attempt
without n [] = []
without n (a ∷ attempts) = if a.number == n then attempts else a ∷ without n attempts

-- `if entry.attempt == attempt { entry.attempt = nil }`.
abbrev pub released : ℕ → Entry → Entry
released n e = elim e.attempt [
  | none ↦ e
  | some m ↦ if m == n then record e { attempt = none } else e
]

abbrev pub release_attempt : Attempt → Cache → Cache
release_attempt a s = record s {
  entries = put_entry (released a.number (entry_of a.name s.entries)) s.entries;
  attempts = without a.number s.attempts;
}

-- The provider's error, with the cleanup of what it handed out.
abbrev pub finish_failed : Attempt → Option Credential → Cache → Reply × Cache
finish_failed a c s =
    (if s.is_closed then cache_closed else acquire_failed, release_attempt a (cleanup_answer c s))

abbrev pub finish_acquired : Attempt → Credential → Cache → Reply × Cache
finish_acquired a c s =
    if s.is_closed
    then (cache_closed, release_attempt a (cleanup_credential c s))
    else (if s.generation == a.start_generation
        then (
          got (clone_credential c),
          release_attempt a (record s {
            owned = s.owned ++ (c ∷ []);
            entries =
                put_entry (record (entry_of a.name s.entries) { credential = some c }) s.entries;
          }),
        )
        else (retry, release_attempt a (record s { owned = s.owned ++ (c ∷ []) })))

-- What the provider hands out is put on record.
abbrev pub hand : Option Credential → Cache → Cache
hand none s = s
hand (some c) s = record s { handed = c ∷ s.handed }

-- The rest of acquireOne, with the provider's answer.
unfoldable pub finish : ℕ → ℕ → Acquired → ℕ → Cache → Reply × Cache
finish margin n answer now s = elim (attempt_of n s.attempts) [
  | none ↦ (unknown, s)
  | some a ↦ elim answer [
    | failed c ↦ finish_failed a c (hand c s)
    | acquired c ↦
        if credential_usable c now margin
        then finish_acquired a c (hand (some c) s)
        else finish_failed a (some c) (hand (some c) s)
  ]
]

abbrev pub forget_credential : Entry → Entry
forget_credential e = record e { credential = none }

unfoldable pub invalidate_all : Cache → Reply × Cache
invalidate_all s = if s.is_closed then (cache_closed, s) else (
  invalidated,
  record s { entries = map forget_credential s.entries; generation = suc s.generation },
)

-- The loop of Close, from the last credential to the first.
abbrev pub clean_all : List Credential → Cache → Cache
clean_all [] s = s
clean_all (c ∷ owned) s = cleanup_credential c (clean_all owned s)

-- `closeOnce`: only the first call does anything.
unfoldable pub close : Cache → Reply × Cache
close s =
    if s.is_closed
    then (closed_now, s)
    else (closed_now, clean_all s.owned (record s { is_closed = true }))

pub data Step : Type 0 where
  begin_step : String → ℕ → Step
  finish_step : ℕ → Acquired → ℕ → Step
  invalidate_step close_step : Step

abbrev pub step : ℕ → Step → Cache → Reply × Cache
step margin (begin_step name now) s = begin margin name now s
step margin (finish_step n answer now) s = finish margin n answer now s
step margin invalidate_step s = invalidate_all s
step margin close_step s = close s

unfoldable pub run : ℕ → List Step → Cache → Cache
run margin [] s = s
run margin (t ∷ steps) s = run margin steps (step margin t s).1
