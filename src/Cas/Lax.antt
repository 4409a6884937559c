-- ===== src/Cas/Lax.antt =====
-- internal/blob/cas.go: a bucket that does not enforce conditional writes does not pass.
use reeve.Prelude.{
  ◌≡◌, refl, ◌⊎◌, inl, inr, Bool, true, false, Option, String, is_blank, append, arith,
  Option-cases,
}
use reeve.Cas.{
  Store, Wrote, wrote, precondition_failed, write_error, Got, got, read_error, Verdict, enforced,
  etag_of, probe_stale, probe_update, probe_match, probe_create, probe_key,
  probe_conditional_writes, cas_probe_prefix,
}

abbrev pub passes : Verdict → Bool
passes enforced = true
passes v = false

abbrev pub refuses : Wrote → Bool
refuses precondition_failed = true
refuses r = false

abbrev pub writes : Wrote → Bool
writes (wrote md) = true
writes r = false

pub Wrote-cases : (r : Wrote) → ((md : Option String) × (r ≡ wrote md)) ⊎ (writes r ≡ false)
Wrote-cases (wrote md) = inl (md, refl)
Wrote-cases precondition_failed = inr refl
Wrote-cases (write_error e) = inr refl

pub Got-cases :
    (r : Got) → ((md : Option String) × (r ≡ got md)) ⊎ ((e : String) × (r ≡ read_error e))
Got-cases (got md) = inl (md, refl)
Got-cases (read_error e) = inr (e, refl)

module _ {World : Type 0} (store : Store World) where
  -- Writes under If-None-Match are not refused; nor are those with an ETag.
  abbrev pub IgnoresCreate : Type 0
  IgnoresCreate =
      (key body : String) (w : World) → refuses (store.put_if_match key body "" w).0 ≡ false

  abbrev pub IgnoresMatch : Type 0
  IgnoresMatch =
      (key body etag : String) (w : World)
      → is_blank etag ≡ false
      → refuses (store.put_if_match key body etag w).0 ≡ false

  probe_stale-passes :
      IgnoresMatch
      → (key etag : String) (w : World) → is_blank etag ≡ false
      → passes (probe_stale store key etag w).0 ≡ false
  unfolding probe_stale
  probe_stale-passes lax key etag w e = ground (arith, lax key "probe4" etag w e)

  probe_update-passes :
      IgnoresMatch
      → (key etag : String) (w : World) → is_blank etag ≡ false
      → passes (probe_update store key etag w).0 ≡ false
  unfolding probe_update
  probe_update-passes lax key etag w e =
      ground (arith, probe_stale-passes lax key etag (store.put_if_match key "probe3" etag w).1 e)

  probe_match-passes :
      IgnoresMatch
      → (key : String) (first : Option String) (w : World)
      → passes (probe_match store key first w).0 ≡ false
  unfolding probe_match
  probe_match-passes lax key first w = elim (Got-cases (store.get key w).0) [
    | inl (md, e) ↦ ground (
      arith,
      e,
      probe_update-passes lax key (etag_of first) w,
      probe_update-passes lax key (etag_of md) (store.get key w).1,
    )
    | inr (m, e) ↦ ground (arith, e, probe_update-passes lax key (etag_of first) w)
  ]

  probe_create-passes :
      IgnoresCreate ⊎ IgnoresMatch
      → (key : String) (first : Option String) (w : World)
      → passes (probe_create store key first w).0 ≡ false
  unfolding probe_create
  probe_create-passes (inl lax) key first w = ground (arith, lax key "probe2" w)
  probe_create-passes (inr lax) key first w =
      ground (arith, probe_match-passes lax key first (store.put_if_match key "probe2" "" w).1)

  probe_key-passes :
      IgnoresCreate ⊎ IgnoresMatch
      → (key : String) (w : World) → passes (probe_key store key w).0 ≡ false
  unfolding probe_key
  probe_key-passes lax key w = elim (Wrote-cases (store.put_if_match key "probe" "" w).0) [
    | inl (md, e) ↦
        ground (arith, e, probe_create-passes lax key md (store.put_if_match key "probe" "" w).1)
    | inr e ↦ ground (arith, e)
  ]

  -- A bucket that never refuses a create of what exists, or never refuses a write for its ETag, does not
  -- pass the probe, whatever else it does.
  pub probe_conditional_writes-passes :
      IgnoresCreate ⊎ IgnoresMatch
      → (w : World) → passes (probe_conditional_writes store w).0 ≡ false
  unfolding probe_conditional_writes
  probe_conditional_writes-passes lax w = elim (Option-cases (store.random_suffix w).0) [
    | inl e ↦ ground (arith, e)
    | inr (s, e) ↦
        ground
          (arith, e, probe_key-passes lax (append cas_probe_prefix s) (store.random_suffix w).1)
  ]
