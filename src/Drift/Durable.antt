-- ===== src/Drift/Durable.antt =====
-- internal/drift/pending.go: no notification of drift is lost.
use mathlib.Core.List.{append-nil}
use reeve.Prelude.{
  ◌≡◌, refl, ◌∙◌, ap, ◌⊎◌, inl, inr, Bool, true, false, not, List, [], ◌∷◌, ◌++◌, map, some, String,
  if◌then◌else◌, any, select, str_eq_iff, arith, Bool-cases, Option-cases,
}
use reeve.Notify.{Payload, Channel, dispatch}
use reeve.Notify.Clean.{due, dispatch_clean}
use reeve.Drift.Pending.{
  marker, has_marker, is_superseded, merge_pending, Markers, save, save_all, dispatch_durable,
}

module _ {ℓ} {A : Type ℓ} where
  select-append : (p : A → Bool) (xs ys : List A) → select p (xs ++ ys) ≡ select p xs ++ select p ys
  select-append p [] ys = refl
  select-append p (x ∷ xs) ys = ground (arith, select-append p xs ys)

has_marker-some : (k : String) (p : Payload) → has_marker k p ≡ true → marker p ≡ some k
has_marker-some k p h = elim (Option-cases (marker p)) [
  | inl e ↦ ground (arith, e, h)
  | inr (j, e) ↦ e ∙ ap some ((str_eq_iff j k).0 (ground (arith, e, h)))
]

-- What is documented of Put: a write that succeeds is there, and a write removes nothing else.
pub record IsKept {World : Type 0} (markers : Markers World) : Type 0 where
  pub put_holds :
      (k : String) (p : Payload) (w : World)
      → (markers.put k p w).0 ≡ true
      → markers.holds k (markers.put k p w).1 ≡ true
  pub put_keeps :
      (j k : String) (p : Payload) (w : World)
      → markers.holds j w ≡ true
      → markers.holds j (markers.put k p w).1 ≡ true

module _ {World : Type 0} (markers : Markers World) (kept : IsKept markers) where
  save_keeps :
      (j : String) (p : Payload) (w : World)
      → markers.holds j w ≡ true
      → markers.holds j (save markers p w).1 ≡ true
  unfolding save
  save_keeps j p w h = elim (Option-cases (marker p)) [
    | inl e ↦ ground (arith, e, h)
    | inr (k, e) ↦ ground (arith, e, kept.put_keeps j k p w h)
  ]

  save_all_keeps :
      (j : String) (payloads : List Payload) (w : World)
      → markers.holds j w ≡ true
      → markers.holds j (save_all markers payloads w).1 ≡ true
  unfolding save_all
  save_all_keeps j [] w h = h
  save_all_keeps j (p ∷ payloads) w h =
      save_all_keeps j payloads (save markers p w).1 (save_keeps j p w h)

  save_holds :
      (k : String) (p : Payload) (w : World)
      → has_marker k p ≡ true
      → (save markers p w).0 ≡ true
      → markers.holds k (save markers p w).1 ≡ true
  unfolding save
  save_holds k p w h s = let e = has_marker-some k p h in ground (arith, e, s, kept.put_holds k p w)

  save_all_holds :
      (k : String) (payloads : List Payload) (w : World)
      → any (has_marker k) payloads ≡ true
      → (any (has_marker k) (save_all markers payloads w).0 ≡ true)
        ⊎ (markers.holds k (save_all markers payloads w).1 ≡ true)
  unfolding save_all
  save_all_holds k [] w h = ground (arith, h)
  save_all_holds k (p ∷ payloads) w h = ground (
    arith,
    h,
    save_holds k p w,
    save_all_keeps k payloads (save markers p w).1,
    save_all_holds k payloads (save markers p w).1,
  )

  -- Let a write of a marker that succeeds be there, and remove no other. Of every drift payload that
  -- DispatchDurable is given, one with its marker is reported as not saved, or the marker is there in the
  -- state in which the channels deliver all payloads; and then it stays there unless every channel has
  -- delivered what it is due.
  pub dispatch_durable_keeps :
      (channels : World → List Channel) (payloads : List Payload) (w : World) (k : String)
      → any (has_marker k) payloads ≡ true
      → (any (has_marker k) (dispatch_durable markers channels payloads w).unsaved ≡ true)
        ⊎ ((u : World) × (markers.holds k u ≡ true)
            × ((dispatch_durable markers channels payloads w).sent
                ≡ (dispatch (channels u) payloads).0)
            × (((dispatch_durable markers channels payloads w).sent
                  ≡ map (due payloads) (channels u))
                ⊎ (markers.holds k (dispatch_durable markers channels payloads w).world ≡ true)))
  unfolding dispatch_durable
  dispatch_durable_keeps channels payloads w k h =
      let u = (save_all markers payloads w).1 in
      elim (save_all_holds k payloads w h) [
        | inl e ↦ inl (ground (arith, e))
        | inr e ↦ inr (u, e, ground arith, ground (arith, e, dispatch_clean (channels u) payloads))
      ]

select_none :
    (k : String) (c : List Payload) → any (has_marker k) c ≡ false → select (has_marker k) c ≡ []
select_none k [] e = refl
select_none k (p ∷ c) e = ground (arith, e, select_none k c)

superseded_same :
    (k : String) (c : List Payload) (q : Payload)
    → has_marker k q ≡ true
    → is_superseded c q ≡ any (has_marker k) c
superseded_same k c q h = let e = has_marker-some k q h in ground (arith, e)

select_kept :
    (k : String) (c pending : List Payload)
    → select (has_marker k) (select (λ q. not (is_superseded c q)) pending)
      ≡ (if any (has_marker k) c then [] else select (has_marker k) pending)
select_kept k c [] = ground arith
select_kept k c (q ∷ pending) = elim (Bool-cases (has_marker k q)) [
  | inl h ↦ ground (arith, h, select_kept k c pending, superseded_same k c q h)
  | inr h ↦ ground (arith, h, select_kept k c pending)
]

-- A run delivers for each marker its own payloads, and those that were left over from before only where it
-- has none.
pub merge_pending-select :
    (k : String) (pending current : List Payload)
    → select (has_marker k) (merge_pending pending current) ≡ (
        if any (has_marker k) current
        then select (has_marker k) current
        else select (has_marker k) pending)
unfolding merge_pending
merge_pending-select k [] current = ground (arith, select_none k current)
merge_pending-select k (p ∷ pending) current =
    select-append (has_marker k) (select (λ q. not (is_superseded current q)) (p ∷ pending)) current
    ∙ ground (
      arith,
      select_kept k current (p ∷ pending),
      select_none k current,
      append-nil (select (has_marker k) (p ∷ pending)),
    )
