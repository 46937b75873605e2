-- ===== src/Body/EventBus.antt =====
-- internal/body/eventbus.go: an in-process event bus over buffered channels. A channel is a number,
-- and the bus's record says what each channel holds; a receive by its consumer is the last function.
-- A send on a closed channel and a second close panic: `none` stands for the panic.
pub mod Safety
pub mod Calls
pub mod Closing
pub mod Reachable
pub mod Delivery
use hydra_db.Base.{
  ℕ, suc, ◌+◌, String, Bool, true, false, Option, none, some, List, [], ◌∷◌, ◌++◌, if◌then◌else◌,
  ◌==◌, ltb, length, GoMap, empty, put, delete, Time,
}

pub record Event : Type 0 where
  pub type : String
  pub payload : String
  pub trace_id : String
  pub timestamp : Time

abbrev pub ChanId : Type 0
ChanId = ℕ

pub record Chan : Type 0 where
  pub buffer : List Event
  pub closed : Bool

abbrev pub Chans : Type 0
Chans = ChanId → Chan

-- make(chan Event, 64)
abbrev pub buffer_size : ℕ
buffer_size = 64

-- `next` is the first channel that has not been made yet.
pub record Bus : Type 0 where
  pub subscribers : GoMap (List ChanId)
  pub closed : Bool
  pub chans : Chans
  pub next : ChanId

pub data BusError : Type 0 where
  bus_closed : BusError

abbrev pub set_chan : ChanId → Chan → Chans → Chans
set_chan ch c chans ch' = if ch == ch' then c else chans ch'

unfoldable pub new_bus : Bus
new_bus = record {
  subscribers = empty;
  closed = false;
  chans = λ ch. record { buffer = []; closed = false };
  next = 0;
}

-- b.subscribers[eventType], which is nil for a type that has none
abbrev pub subs_of : GoMap (List ChanId) → String → List ChanId
subs_of m event_type = elim (m event_type) [ none ↦ [] | some subs ↦ subs ]

-- select { case ch <- event: default: }
unfoldable pub send : Event → ChanId → Chans → Option Chans
send event ch chans =
    if (chans ch).closed
    then none
    else if ltb (length (chans ch).buffer) buffer_size
    then some (set_chan ch (record (chans ch) { buffer = (chans ch).buffer ++ event ∷ [] }) chans)
    else some chans

pub send_all : Event → List ChanId → Chans → Option Chans
send_all event [] chans = some chans
send_all event (ch ∷ chs) chans = elim (send event ch chans) [
  | none ↦ none
  | some chans' ↦ send_all event chs chans'
]

unfoldable pub publish : Event → Bus → Option (Bus × Option BusError)
unfolding send_all
publish event b =
    if b.closed
    then some (b, some bus_closed)
    else elim (send_all event (subs_of b.subscribers event.type) b.chans) [
      | none ↦ none
      | some chans ↦ some (record b { chans = chans }, none)
    ]

-- The error that `Subscribe` and `Unsubscribe` return is always nil.
unfoldable pub subscribe : String → Bus → Bus × ChanId
subscribe event_type b = (
  record b {
    subscribers = put event_type (subs_of b.subscribers event_type ++ b.next ∷ []) b.subscribers;
    chans = set_chan b.next (record { buffer = []; closed = false }) b.chans;
    next = suc b.next;
  },
  b.next,
)

-- close(ch)
unfoldable pub close_chan : ChanId → Chans → Option Chans
close_chan ch chans =
    if (chans ch).closed
    then none
    else some (set_chan ch (record (chans ch) { closed = true }) chans)

-- The search of `Unsubscribe`: the list without the first `ch`, if `ch` stands in it.
unfoldable pub take_out : ChanId → List ChanId → Option (List ChanId)
take_out ch [] = none
take_out ch (sub ∷ subs) =
    let rest = take_out ch subs in
    if sub == ch then some subs else (elim rest [ none ↦ none | some others ↦ some (sub ∷ others) ])

-- delete(b.subscribers, eventType) if no subscriber is left
pub prune : String → GoMap (List ChanId) → GoMap (List ChanId)
prune event_type m = elim (subs_of m event_type) [ [] ↦ delete event_type m | x ∷ xs ↦ m ]

unfoldable pub unsubscribe : String → ChanId → Bus → Option Bus
unfolding prune
unsubscribe event_type ch b = elim (take_out ch (subs_of b.subscribers event_type)) [
  | none ↦ some (record b { subscribers = prune event_type b.subscribers })
  | some others ↦ elim (close_chan ch b.chans) [
    | none ↦ none
    | some chans ↦ some (record b {
      subscribers = prune event_type (put event_type others b.subscribers);
      chans = chans;
    })
  ]
]

pub close_all : List ChanId → Chans → Option Chans
close_all [] chans = some chans
close_all (ch ∷ chs) chans = elim (close_chan ch chans) [
  | none ↦ none
  | some chans' ↦ close_all chs chans'
]

-- The loop of `Close` over the entries of the map, which deletes each entry that it visits.
pub close_entries :
    List (String × List ChanId) → GoMap (List ChanId) → Chans → Option (GoMap (List ChanId) × Chans)
close_entries [] m chans = some (m, chans)
close_entries ((event_type, subs) ∷ rest) m chans = elim (close_all subs chans) [
  | none ↦ none
  | some chans' ↦ close_entries rest (delete event_type m) chans'
]

unfoldable pub close : List (String × List ChanId) → Bus → Option Bus
unfolding close_entries close_all
close order b = elim (close_entries order b.subscribers b.chans) [
  | none ↦ none
  | some (m, chans) ↦ some (record b { subscribers = m; chans = chans; closed = true })
]

-- A receive that does not wait: the consumer's side of a channel.
unfoldable pub receive : ChanId → Bus → Bus × Option Event
receive ch b = elim (b.chans ch).buffer [
  | [] ↦ (b, none)
  | event ∷ rest ↦
      (record b { chans = set_chan ch (record (b.chans ch) { buffer = rest }) b.chans }, some event)
]
