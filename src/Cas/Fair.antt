-- ===== src/Cas/Fair.antt =====
-- internal/blob/cas.go: a bucket that enforces conditional writes is not turned away.
use reeve.Prelude.{
  ◌≡◌, sym, ◌∙◌, ap, ◌⊎◌, inl, inr, Bool, true, false, Option, none, some, String, str_eq,
  str_eq_iff, is_blank, append, arith, Bool-cases, Option-cases,
}
use reeve.Cas.{
  Store, wrote, got, Verdict, unsupported, etag_of, probe_stale, probe_update, probe_match,
  probe_create, probe_key, probe_conditional_writes, cas_probe_prefix,
}
use reeve.Cas.Lax.{writes, Wrote-cases, Got-cases}

abbrev pub is_unsupported : Verdict → Bool
is_unsupported unsupported = true
is_unsupported v = false

-- What the documentation of blob.Store promises of conditional writes: `etag` is the ETag of the object at
-- a key. A write of metadata may leave the ETag out.
pub record IsConditional {World : Type 0} (store : Store World)
    (etag : String → World → Option String) : Type 0 where
  pub create_absent :
      (key body : String) (w : World)
      → writes (store.put_if_match key body "" w).0 ≡ true
      → etag key w ≡ none
  pub update_current :
      (key body e : String) (w : World)
      → is_blank e ≡ false
      → writes (store.put_if_match key body e w).0 ≡ true
      → etag key w ≡ some e
  pub written :
      (key body e : String) (md : Option String) (w : World)
      → (store.put_if_match key body e w).0 ≡ wrote md
      → (new : String) × (etag key (store.put_if_match key body e w).1 ≡ some new)
        × (is_blank new ≡ false)
        × (str_eq new e ≡ false)
        × ((is_blank (etag_of md) ≡ true) ⊎ (etag_of md ≡ new))
  pub refused_keeps :
      (key body e : String) (w : World)
      → writes (store.put_if_match key body e w).0 ≡ false
      → etag key (store.put_if_match key body e w).1 ≡ etag key w
  pub read_current :
      (key new : String) (md : Option String) (w : World)
      → (store.get key w).0 ≡ got md
      → etag key w ≡ some new
      → etag_of md ≡ new
  pub read_keeps : (key : String) (w : World) → etag key (store.get key w).1 ≡ etag key w

-- An answered ETag that is left out or new is not the old one.
etag_differs :
    (m new e : String)
    → (is_blank m ≡ true) ⊎ (m ≡ new)
    → str_eq new e ≡ false
    → is_blank e ≡ false
    → str_eq m e ≡ false
etag_differs m new e (inl b) differ filled = elim (Bool-cases (str_eq m e)) [
  | inl h ↦ ground (arith, b, filled, ap is_blank ((str_eq_iff m e).0 h))
  | inr h ↦ h
]
etag_differs m new e (inr n) differ filled = ap (λ x. str_eq x e) n ∙ differ

module _ {World : Type 0} (store : Store World) (etag : String → World → Option String)
    (conditional : IsConditional store etag) where
  probe_stale-supported :
      (key e new : String) (w : World)
      → etag key w ≡ some new
      → str_eq new e ≡ false
      → is_blank e ≡ false
      → is_unsupported (probe_stale store key e w).0 ≡ false
  unfolding probe_stale
  probe_stale-supported key e new w here differ filled =
      elim (Wrote-cases (store.put_if_match key "probe4" e w).0) [
        | inl (md, r) ↦ ground (
          arith,
          differ,
          (str_eq_iff new e).1 (
              ap etag_of
                (sym here ∙ conditional.update_current key "probe4" e w filled (ap writes r))),
        )
        | inr r ↦ ground (arith, r)
      ]

  probe_update-supported :
      (key e : String) (w : World)
      → etag key w ≡ some e
      → is_blank e ≡ false
      → is_unsupported (probe_update store key e w).0 ≡ false
  unfolding probe_update
  probe_update-supported key e w here filled =
      elim (Wrote-cases (store.put_if_match key "probe3" e w).0) [
        | inl (md, r) ↦
            let after = conditional.written key "probe3" e md w r in
            ground (
              arith,
              r,
              etag_differs (etag_of md) after.0 e after.4 after.3 filled,
              probe_stale-supported key e after.0 (store.put_if_match key "probe3" e w).1 after.1
                  after.3 filled,
            )
        | inr r ↦ ground (arith, r)
      ]

  -- With the metadata of the write that made the object.
  probe_match-supported :
      (key new : String) (first : Option String) (w : World)
      → etag key w ≡ some new
      → is_blank new ≡ false
      → (is_blank (etag_of first) ≡ true) ⊎ (etag_of first ≡ new)
      → is_unsupported (probe_match store key first w).0 ≡ false
  unfolding probe_match
  probe_match-supported key new first w here filled (inr n) = ground (
    arith,
    n,
    filled,
    ap is_blank n,
    probe_update-supported key (etag_of first) w (here ∙ ap some (sym n)) (ap is_blank n ∙ filled),
  )
  probe_match-supported key new first w here filled (inl b) = elim (Got-cases (store.get key w).0) [
    | inl (md, r) ↦
        let same = conditional.read_current key new md w r here in
        ground (
          arith,
          b,
          r,
          ap is_blank same,
          filled,
          probe_update-supported key (etag_of md) (store.get key w).1
              (conditional.read_keeps key w ∙ (here ∙ ap some (sym same)))
              (ap is_blank same ∙ filled),
        )
    | inr (m, r) ↦ ground (arith, b, r)
  ]

  probe_create-supported :
      (key new : String) (first : Option String) (w : World)
      → etag key w ≡ some new
      → is_blank new ≡ false
      → (is_blank (etag_of first) ≡ true) ⊎ (etag_of first ≡ new)
      → is_unsupported (probe_create store key first w).0 ≡ false
  unfolding probe_create
  probe_create-supported key new first w here filled f =
      elim (Wrote-cases (store.put_if_match key "probe2" "" w).0) [
        | inl (md, r) ↦ ground (arith, here, conditional.create_absent key "probe2" w (ap writes r))
        | inr r ↦ ground (
          arith,
          r,
          probe_match-supported key new first (store.put_if_match key "probe2" "" w).1
              (conditional.refused_keeps key "probe2" "" w r ∙ here) filled f,
        )
      ]

  probe_key-supported :
      (key : String) (w : World) → is_unsupported (probe_key store key w).0 ≡ false
  unfolding probe_key
  probe_key-supported key w = elim (Wrote-cases (store.put_if_match key "probe" "" w).0) [
    | inl (md, r) ↦
        let after = conditional.written key "probe" "" md w r in
        ground (
          arith,
          r,
          probe_create-supported key after.0 md (store.put_if_match key "probe" "" w).1 after.1
              after.2 after.4,
        )
    | inr r ↦ ground (arith, r)
  ]

  -- A bucket that enforces conditional writes, as the documentation of blob.Store has it, is never said to
  -- have none, also where it leaves ETags out of what a write answers.
  pub probe_conditional_writes-supported :
      (w : World) → is_unsupported (probe_conditional_writes store w).0 ≡ false
  unfolding probe_conditional_writes
  probe_conditional_writes-supported w = elim (Option-cases (store.random_suffix w).0) [
    | inl e ↦ ground (arith, e)
    | inr (s, e) ↦
        ground (arith, e, probe_key-supported (append cas_probe_prefix s) (store.random_suffix w).1)
  ]
