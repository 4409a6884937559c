-- ===== src/Notify/Clean.antt =====
-- internal/notify/dispatch.go: a dispatch without errors has delivered everything.
use reeve.Prelude.{
  ℕ, ◌+◌, ◌≡◌, refl, true, List, [], ◌∷◌, map, select, is_empty, is_empty-append, arith,
}
use reeve.Notify.{Payload, Channel, subscribed, for_channel, deliver_from, dispatch}

-- What a channel is to get of a run.
abbrev pub due : List Payload → Channel → List Payload
due payloads c = select (λ p. subscribed c.subscribes p.event) (for_channel c payloads)

deliver_from_clean :
    (c : Channel) (n : ℕ) (payloads : List Payload)
    → is_empty (deliver_from c n payloads).1 ≡ true
    → (deliver_from c n payloads).0 ≡ select (λ p. subscribed c.subscribes p.event) payloads
unfolding deliver_from
deliver_from_clean c n [] e = refl
deliver_from_clean c n (p ∷ payloads) e =
    ground (arith, e, deliver_from_clean c n payloads, deliver_from_clean c (n + 1) payloads)

-- Dispatch that reports no error has delivered to every channel, in order, each payload, grouped as the
-- channel asks, of an event that the channel subscribes to.
pub dispatch_clean :
    (channels : List Channel) (payloads : List Payload)
    → is_empty (dispatch channels payloads).1 ≡ true
    → (dispatch channels payloads).0 ≡ map (due payloads) channels
unfolding dispatch
dispatch_clean [] payloads e = refl
dispatch_clean (c ∷ channels) payloads e = ground (
  arith,
  e,
  is_empty-append (deliver_from c 0 (for_channel c payloads)).1 (dispatch channels payloads).1,
  deliver_from_clean c 0 (for_channel c payloads),
  dispatch_clean channels payloads,
)
