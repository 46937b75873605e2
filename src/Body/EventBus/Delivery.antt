-- ===== src/Body/EventBus/Delivery.antt =====
-- internal/body/eventbus.go: who gets an event.
use hydra_db.Base.{
  ◌<◌, String, ◌≡◌, refl, true, false, none, some, if◌then◌else◌, ltb, arith, eq_iff, if-true,
}
use hydra_db.Body.EventBus.{
  Event, ChanId, Bus, bus_closed, subs_of, publish, subscribe, unsubscribe,
}
use hydra_db.Body.EventBus.Safety.{subscribed, pushed, delivered, publish_lem}
use hydra_db.Body.EventBus.Calls.{unsubscribe_lem}
use hydra_db.Body.EventBus.Reachable.{Reach, Reach-Inv}

-- On an open bus that any calls have reached a publish returns nil. Each channel that is
-- subscribed to the event's type has the event behind what it held, or drops it if it holds 64
-- events; every other channel is as it was, and so are the subscriptions.
pub publish_delivers :
    {b : Bus}
    → Reach b
    → b.closed ≡ false
    → (event : Event)
    → (b' : Bus) × (publish event b ≡ some (b', none))
      × ((ch : ChanId)
          → (b'.chans ch) ≡ (
              if ltb 0 (subscribed event.type ch b) then pushed event (b.chans ch) else b.chans ch))
      × ((k : String) (ch : ChanId) → subscribed k ch b' ≡ subscribed k ch b)
unfolding subscribed
publish_delivers {b} reach running event = (
  record b { chans = delivered event (subs_of b.subscribers event.type) b.chans },
  rw (publish_lem event b (Reach-Inv reach)) (rw running),
  λ ch. refl,
  λ k ch. refl,
)

-- On a bus that any calls have reached, `Unsubscribe` of a subscribed channel returns, closes the
-- channel, and leaves it subscribed to no type of event.
pub unsubscribe_stops :
    {b : Bus}
    → Reach b
    → (k : String) (ch : ChanId) → 0 < subscribed k ch b
    → (b' : Bus) × (unsubscribe k ch b ≡ some b')
      × ((b'.chans ch).closed ≡ true)
      × ((j : String) → subscribed j ch b' ≡ 0)
unfolding subscribed
unsubscribe_stops {b} reach k ch h =
    let inv = Reach-Inv reach in
    let (b', e, u) = unsubscribe_lem k ch b inv in
    (
      b',
      e,
      ground (arith, u.chans ch),
      λ j. ground (arith, u.counts j ch, inv.one_type j k ch, eq_iff k j),
    )

-- A subscription on a closed bus is accepted: its channel is open, but a publish on that bus fails
-- and changes nothing.
pub subscribe_after_close :
    (b : Bus)
    → b.closed ≡ true
    → (k : String) (event : Event)
    → let (b', ch) = subscribe k b in
      ((b'.chans ch).closed ≡ false) × (publish event b' ≡ some (b', some bus_closed))
unfolding subscribe publish
subscribe_after_close b shut_down k event = (ground arith, if-true b.closed _ _ shut_down)
