-- ===== src/Drift/Retry.antt =====
-- internal/drift/retry.go, and the loop of runOne in runner.go that retries a check.
use Prim.Native.Char.{code}
use reeve.Prelude.{
  ℕ, zero, suc, ◌*◌, Bool, true, false, ◌&&◌, ◌||◌, List, [], ◌∷◌, Option, none, some, String, ltb,
  ◌==◌, if◌then◌else◌, any, ℤ, pos, negsuc, second, is_blank, lower,
}

-- Thirty seconds.
abbrev pub retry_backoff_max : ℕ
retry_backoff_max = 30 * second

-- The loop that doubles the wait, with the rounds that are left.
unfoldable pub double_wait : ℕ → ℕ → ℕ
double_wait zero d = d
double_wait (suc n) d =
    let rest = double_wait n (d * 2) in if ltb d retry_backoff_max then rest else d

abbrev pub at_most : ℕ → ℕ → ℕ
at_most bound d = if ltb bound d then bound else d

-- How long `backoffSleep` waits before the retry of that number, if it waits.
unfoldable pub backoff : ℤ → ℕ → Option ℕ
backoff (negsuc b) attempt = none
backoff (pos b) zero = none
backoff (pos b) (suc n) =
    if b == 0 then none else some (at_most retry_backoff_max (double_wait n b))

pub data ErrKind : Type 0 where
  err_permanent err_transient_network err_auth_expired : ErrKind

abbrev pub network_signatures : List String
network_signatures =
    "dial tcp" ∷ "connection refused" ∷ "connection reset" ∷ "connection timed out" ∷ "broken pipe"
    ∷ "no such host" ∷ "i/o timeout" ∷ "tls handshake timeout" ∷ "network is unreachable"
    ∷ "no route to host" ∷ "temporary failure in name resolution" ∷ "server misbehaving"
    ∷ "unexpected eof" ∷ "http2: server sent goaway" ∷ "requesterror" ∷ "requesttimeout"
    ∷ "requestcanceled" ∷ "throttling" ∷ "throttled" ∷ "toomanyrequests" ∷ "rate exceeded"
    ∷ "requestlimitexceeded" ∷ "serviceunavailable" ∷ "service unavailable" ∷ "internalservererror"
    ∷ "internal server error" ∷ "bad gateway" ∷ "gateway timeout" ∷ "could not connect"
    ∷ "error connecting" ∷ "transport is closing" ∷ []

abbrev pub auth_expiry_signatures : List String
auth_expiry_signatures =
    "expiredtoken" ∷ "the security token included in the request is expired" ∷ "token has expired"
    ∷ "token is expired" ∷ "token expired" ∷ "credentials have expired" ∷ "expired credentials"
    ∷ "credential has expired" ∷ "requestexpired" ∷ "session token expired"
    ∷ "expired session token" ∷ "reauthenticate" ∷ "invalid_grant" ∷ "authenticationexpired" ∷ []

-- `strings.HasPrefix(strings.ToLower(s), p)`, for ASCII.
abbrev pub starts_low : String → String → Bool
starts_low s String.[] = true
starts_low String.[] (String.◌∷◌ d p) = false
starts_low (String.◌∷◌ c s) (String.◌∷◌ d p) = lower (code c) == code d && starts_low s p

-- `strings.Contains(strings.ToLower(s), p)`, for ASCII.
abbrev pub contains_low : String → String → Bool
contains_low String.[] p = is_blank p
contains_low (String.◌∷◌ c s) p = starts_low (String.◌∷◌ c s) p || contains_low s p

unfoldable pub classify_drift_error : String → ErrKind
classify_drift_error msg =
    if is_blank msg
    then err_permanent
    else (if any (contains_low msg) network_signatures
        then err_transient_network
        else (if any (contains_low msg) auth_expiry_signatures
            then err_auth_expired
            else err_permanent))

-- What one attempt gives: the text of its failure, empty with a verdict; whether the deadline of the stack
-- ended it; whether the run is cancelled by then.
pub record Attempt : Type 0 where
  pub failure : String
  pub timed_out : Bool
  pub cancelled : Bool

-- The last attempt of a check with its number, from 0, the retries that were counted and whether
-- credentials were bound anew.
pub record Checked : Type 0 where
  pub last : Attempt
  pub number : ℕ
  pub retries : ℕ
  pub rebound : Bool

-- What follows a failure: no retry, none because the wait before it was cancelled, or one, with
-- credentials that were bound anew or not.
pub data Retry : Type 0 where
  given_up cut_off : Retry
  again : Bool → Retry

-- Whether an attempt is never retried: a verdict, a deadline, or a cancelled run.
abbrev pub stops : Attempt → Bool
stops a = is_blank a.failure || a.timed_out || a.cancelled

-- The attempts are a parameter, by their number and whether credentials were bound anew, as is whether a
-- wait before a retry ends with the run still going.
module _ (attempt : ℕ → Bool → Attempt) (waits : ℕ → Bool) where
  unfoldable pub retried : ErrKind → ℕ → Bool → Retry
  retried err_permanent used rebound = given_up
  retried err_transient_network used rebound = if waits (suc used) then again rebound else cut_off
  retried err_auth_expired used rebound = if rebound then given_up else again true

  -- The loop, with the retries that are left, those that are used, and whether credentials were bound
  -- anew. A retry is counted before the wait for it.
  unfoldable pub check_from : ℕ → ℕ → Bool → Checked
  check_from zero used rebound = record {
    last = attempt used rebound;
    number = used;
    retries = used;
    rebound = rebound;
  }
  check_from (suc n) used rebound =
      let a = attempt used rebound in
      if stops a
      then record { last = a; number = used; retries = used; rebound = rebound }
      else elim (retried (classify_drift_error a.failure) used rebound) [
        | given_up ↦ record { last = a; number = used; retries = used; rebound = rebound }
        | cut_off ↦ record { last = a; number = used; retries = suc used; rebound = rebound }
        | again anew ↦ check_from n (suc used) anew
      ]

  unfoldable pub check_retried : ℕ → Checked
  check_retried retry_on_transient_error = check_from retry_on_transient_error 0 false
