-- ===== src/Body/Examples.antt =====
-- internal/body: the theorems at concrete inputs.
use hydra_db.Base.{
  put, empty, Memᴰ, ℕ, ◌+◌, ◌<◌, ◌≡◌, ◌≢◌, ◌⊎◌, refl, sym, eq_iff, some_inj, String, true, false,
  none, some, List, [], ◌∷◌, arith, str_eq, if◌then◌else◌, ltb, Ranges, empty-Ranges, put-Ranges,
}
use hydra_db.Body.Health.{healthy, unhealthy}
use hydra_db.Body.Registry.{Head, Registry, start_all}
use hydra_db.Body.Registry.Laws.{Started, Aborted, start_all_cases}
use hydra_db.Body.EventBus.{Event, ChanId, Bus, new_bus, publish, subscribe, unsubscribe, close}
use hydra_db.Body.EventBus.Safety.{subscribed, pushed}
use hydra_db.Body.EventBus.Reachable.{Reach, starts, subscribes, no_panic}
use hydra_db.Body.EventBus.Delivery.{publish_delivers, unsubscribe_stops}
use hydra_db.Body.Envelope.{Envelope, Identity, Json, new_envelope, event}
use hydra_db.Body.Trace.{Span, new_span}

-- A head that counts its starts and stops, and one that fails.
abbrev counter : Head ℕ String
counter = record {
  name = "counter";
  start = λ w. (w + 1, none);
  stop = λ w. (w + 10, none);
  health = λ w. record { head = "counter"; status = healthy; detail = "" };
}

abbrev broken : Head ℕ String
broken = record {
  name = "broken";
  start = λ w. (w, some "no port");
  stop = λ w. (w + 100, some "not running");
  health = λ w. record { head = "broken"; status = unhealthy; detail = "not running" };
}

abbrev heads : List (String × Head ℕ String)
heads = ("broken", broken) ∷ ("counter", counter) ∷ []

abbrev registry : Registry ℕ String
registry = put "broken" broken (put "counter" counter empty)

visited : Ranges registry heads
visited = put-Ranges "broken" broken (put-Ranges "counter" counter empty-Ranges tt) (refl, tt)

start_all_cases_example :
    let (w', error) = start_all heads 0 in
    let run = broken ∷ counter ∷ [] in
    Memᴰ counter run
    × (((error ≡ none) × Started run 0 w') ⊎ ((e : String) × (error ≡ some e) × Aborted run 0 w' e))
start_all_cases_example =
    start_all_cases registry heads 0 {name = "counter"} {h = counter} visited refl

-- A bus with one subscriber, whose channel is 0.
abbrev bus1 : Bus
bus1 = (subscribe "task.done" new_bus).0

reach1 : Reach bus1
reach1 = subscribes "task.done" starts

abbrev done : Event
done = record { type = "task.done"; payload = "{}"; trace_id = "t1"; timestamp = 3 }

ranges1 : Ranges bus1.subscribers (("task.done", 0 ∷ []) ∷ [])
unfolding subscribe new_bus
ranges1 = put-Ranges "task.done" (0 ∷ []) empty-Ranges tt

open1 : bus1.closed ≡ false
unfolding subscribe new_bus
open1 = refl

subscribed1 : 0 < subscribed "task.done" 0 bus1
unfolding subscribe new_bus subscribed
subscribed1 = omega arith

no_panic_example :
    (publish done bus1 ≢ none)
    × (unsubscribe "task.done" 0 bus1 ≢ none)
    × (close (("task.done", 0 ∷ []) ∷ []) bus1 ≢ none)
no_panic_example = no_panic done "task.done" 0 (("task.done", 0 ∷ []) ∷ []) reach1 ranges1

publish_delivers_example :
    (b' : Bus) × (publish done bus1 ≡ some (b', none))
    × ((ch : ChanId)
        → (b'.chans ch) ≡ (
            if ltb 0 (subscribed "task.done" ch bus1)
            then pushed done (bus1.chans ch)
            else bus1.chans ch))
    × ((k : String) (ch : ChanId) → subscribed k ch b' ≡ subscribed k ch bus1)
publish_delivers_example = publish_delivers reach1 open1 done

unsubscribe_stops_example :
    (b' : Bus) × (unsubscribe "task.done" 0 bus1 ≡ some b')
    × ((b'.chans 0).closed ≡ true)
    × ((j : String) → subscribed j 0 b' ≡ 0)
unsubscribe_stops_example = unsubscribe_stops reach1 "task.done" 0 subscribed1

abbrev shut_bus : Bus
shut_bus = record new_bus { closed = true }

braces_not_empty : {s : String} → some "{}" ≡ some s → s ≢ ""
braces_not_empty e h = cc

braces_read :
    {s : String} → some "{}" ≡ some s → (if str_eq s "{}" then some tt else none) ≡ some (tt {0})
braces_read {s} e = rw ((eq_iff s "{}").1 (sym (some_inj e)))

-- A type with one value, printed as an empty object.
abbrev unit_json : Json (Unit {0})
unit_json = record {
  marshal = λ a. some "{}";
  unmarshal = λ s. if str_eq s "{}" then some tt else none;
  not_empty = λ a. braces_not_empty;
  reads_back = λ a. braces_read;
}

abbrev ana : Identity
ana = record { id = "ana"; kind = "human"; roles = []; tenant_id = "t" }

abbrev envelope : Envelope
unfolding new_envelope
envelope = new_envelope "e1" "t1" 3 event "task.done" ana (record { id = "t"; name = "T" })

abbrev span : Span
span = new_span "s1" 1 "t1" "agent" "spawn"
