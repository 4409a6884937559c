-- ===== src/Cas.antt =====
-- internal/blob/cas.go: the probe that a bucket enforces conditional writes. The bucket, with the source
-- of random names, is a parameter.
pub mod Lax
pub mod Fair
pub mod Cached
mod Tests
use reeve.Prelude.{
  ℕ, Bool, true, false, not, Option, none, some, String, if◌then◌else◌, str_eq, is_blank, append,
}

-- What a conditional write answers: the ETag of its metadata if it gives metadata, a precondition that
-- failed, or another error.
pub data Wrote : Type 0 where
  wrote : Option String → Wrote
  precondition_failed : Wrote
  write_error : String → Wrote

pub data Got : Type 0 where
  got : Option String → Got
  read_error : String → Got

-- blob.Store, as far as the probe uses it. A state is the bucket with all that others are going to do.
pub record Store (World : Type 0) : Type 0 where
  pub put_if_match : String → String → String → World → Wrote × World
  pub get : String → World → Got × World
  pub delete : String → World → World
  pub random_suffix : World → Option String × World

-- nil, ErrConditionalWritesUnsupported, and the other errors with the step that met them.
pub data Verdict : Type 0 where
  enforced unsupported : Verdict
  random_failed : Verdict
  create_failed second_create_failed read_back_failed update_failed stale_update_failed :
      String → Verdict

abbrev pub cas_probe_prefix : String
cas_probe_prefix = ".cas-probe/"

-- `md.ETag`, with "" for a nil.
abbrev pub etag_of : Option String → String
etag_of none = ""
etag_of (some etag) = etag

module _ {World : Type 0} (store : Store World) where
  -- The write with the ETag that is stale by now.
  unfoldable pub probe_stale : String → String → World → Verdict × World
  probe_stale key etag w =
      let fourth = store.put_if_match key "probe4" etag w in
      elim (fourth.0) [
        | wrote md ↦ (unsupported, fourth.1)
        | precondition_failed ↦ (enforced, fourth.1)
        | write_error e ↦ (stale_update_failed e, fourth.1)
      ]

  -- The update with the current ETag.
  unfoldable pub probe_update : String → String → World → Verdict × World
  probe_update key etag w =
      let third = store.put_if_match key "probe3" etag w in
      elim (third.0) [
        | precondition_failed ↦ (update_failed "precondition", third.1)
        | write_error e ↦ (update_failed e, third.1)
        | wrote md ↦
            if str_eq (etag_of md) etag
            then (unsupported, third.1)
            else probe_stale key etag third.1
      ]

  abbrev pub probe_etag : String → String → World → Verdict × World
  probe_etag key etag w = if is_blank etag then (unsupported, w) else probe_update key etag w

  -- The ETag of the create, or of a read.
  unfoldable pub probe_match : String → Option String → World → Verdict × World
  probe_match key first w =
      let read = store.get key w in
      if not (is_blank (etag_of first)) then probe_update key (etag_of first) w else elim (read.0) [
        | read_error e ↦ (read_back_failed e, read.1)
        | got md ↦ probe_etag key (etag_of md) read.1
      ]

  unfoldable pub probe_create : String → Option String → World → Verdict × World
  probe_create key first w =
      let second = store.put_if_match key "probe2" "" w in
      elim (second.0) [
        | wrote md ↦ (unsupported, second.1)
        | precondition_failed ↦ probe_match key first second.1
        | write_error e ↦ (second_create_failed e, second.1)
      ]

  unfoldable pub probe_key : String → World → Verdict × World
  probe_key key w =
      let first = store.put_if_match key "probe" "" w in
      elim (first.0) [
        | wrote md ↦ probe_create key md first.1
        | precondition_failed ↦ (create_failed "precondition", first.1)
        | write_error e ↦ (create_failed e, first.1)
      ]

  -- The probe, with the deferred removal of its object.
  unfoldable pub probe_conditional_writes : World → Verdict × World
  probe_conditional_writes w =
      let suffix = store.random_suffix w in
      elim (suffix.0) [
        | none ↦ (random_failed, suffix.1)
        | some s ↦
            let answer = probe_key (append cas_probe_prefix s) suffix.1 in
            (answer.0, store.delete (append cas_probe_prefix s) answer.1)
      ]

-- `CASProbe`: the verdict that it has cached, if it has probed.
abbrev pub CasProbe : Type 0
CasProbe = Option Verdict

abbrev pub is_definitive : Verdict → Bool
is_definitive enforced = true
is_definitive unsupported = true
is_definitive v = false

module _ {World : Type 0} (store : Store World) where
  unfoldable pub ensure : CasProbe → World → Verdict × CasProbe × World
  ensure (some v) w = (v, some v, w)
  ensure none w =
      let answer = probe_conditional_writes store w in
      if is_definitive answer.0
      then (answer.0, some answer.0, answer.1)
      else (answer.0, none, answer.1)
