-- ===== src/Body/EventBus/Reachable.antt =====
-- internal/body/eventbus.go: the buses that any calls reach.
use hydra_db.Base.{
  some_inj, String, ◌≡◌, ◌≢◌, Option, none, some, ap, sym, Ranges, inl, inr, if_either, subst, ◌∙◌,
}
use hydra_db.Body.EventBus.{
  Event, ChanId, Bus, BusError, new_bus, publish, subscribe, unsubscribe, close, receive,
}
use hydra_db.Body.EventBus.Safety.{Inv, publish_lem, new_bus-Inv, subscribe-Inv}
use hydra_db.Body.EventBus.Calls.{publish-Inv, receive-Inv, unsubscribe_lem, Unsubscribed-Inv}
use hydra_db.Body.EventBus.Closing.{Entries, close_lem}

-- The buses that any calls reach. A call that panics reaches none.
pub data Reach : Bus → Type 0 where
  starts : Reach new_bus
  publishes :
      {b b' : Bus} {r : Option BusError} (event : Event)
      → Reach b
      → publish event b ≡ some (b', r)
      → Reach b'
  subscribes : {b : Bus} (k : String) → Reach b → Reach (subscribe k b).0
  unsubscribes :
      {b b' : Bus} (k : String) (ch : ChanId) → Reach b → unsubscribe k ch b ≡ some b' → Reach b'
  closes :
      {b b' : Bus} (order : Entries)
      → Ranges b.subscribers order
      → Reach b
      → close order b ≡ some b'
      → Reach b'
  receives : {b : Bus} (ch : ChanId) → Reach b → Reach (receive ch b).0

published :
    (event : Event) (b b' : Bus) (r : Option BusError)
    → Inv b
    → publish event b ≡ some (b', r)
    → Inv b'
published event b b' r inv e =
    elim (if_either b.closed _ _ (some_inj (sym (publish_lem event b inv) ∙ e))) [
      | inl same ↦ subst Inv (ap (λ p. p.0) same) inv
      | inr sent ↦ subst Inv (ap (λ p. p.0) sent) (publish-Inv event b inv)
    ]

pub Reach-Inv : {b : Bus} → Reach b → Inv b
Reach-Inv starts = new_bus-Inv
Reach-Inv (publishes {b} {b'} {r} event reach e) = published event b b' r (Reach-Inv reach) e
Reach-Inv (subscribes {b} k reach) = subscribe-Inv k b (Reach-Inv reach)
Reach-Inv (unsubscribes {b} {b'} k ch reach e) =
    let inv = Reach-Inv reach in
    let (b1, e1, u) = unsubscribe_lem k ch b inv in
    subst Inv (some_inj (sym e1 ∙ e)) (Unsubscribed-Inv k ch b b1 inv u)
Reach-Inv (closes {b} {b'} order ranges reach e) =
    let (b1, e1, _, _, _, inv') = close_lem order b (Reach-Inv reach) ranges in
    subst Inv (some_inj (sym e1 ∙ e)) inv'
Reach-Inv (receives {b} ch reach) = receive-Inv ch b (Reach-Inv reach)

-- On a bus that any calls have reached `Publish`, `Unsubscribe` and `Close` do not panic, whatever
-- their arguments, and whatever the order in which `Close` visits the map.
pub no_panic :
    {b : Bus} (event : Event) (k : String) (ch : ChanId) (order : Entries)
    → Reach b
    → Ranges b.subscribers order
    → (publish event b ≢ none) × (unsubscribe k ch b ≢ none) × (close order b ≢ none)
no_panic {b} event k ch order reach ranges =
    let inv = Reach-Inv reach in
    let (b1, e1, _) = unsubscribe_lem k ch b inv in
    let (b2, e2, _, _, _, _) = close_lem order b inv ranges in
    (λ e. cc (publish_lem event b inv), λ e. cc, λ e. cc)
