-- ===== src/Body/EventBus/Safety.antt =====
-- internal/body/eventbus.go: the invariant of the bus, and sending, closing and subscribing under it.
use hydra_db.Base.{
  ℕ, suc, ◌+◌, ◌≤◌, ◌<◌, String, ◌≡◌, refl, Bool, true, false, Option, none, some, List, [], ◌∷◌,
  ◌++◌, if◌then◌else◌, ◌==◌, ltb, length, count, count-append, arith, eq_iff, str_eq, ap, inl, inr,
  Bool-cases, fun_ext, ◌∙◌, ◌&&◌, GoMap, put, delete,
}
use hydra_db.Body.EventBus.{
  Event, Chan, ChanId, Chans, Bus, bus_closed, buffer_size, new_bus, subs_of, send, send_all,
  publish, subscribe, close_chan, close_all, set_chan,
}

-- How often a channel is subscribed to a type of event.
unfoldable pub subscribed : String → ChanId → Bus → ℕ
subscribed k ch b = count ch (subs_of b.subscribers k)

-- Every subscribed channel has been made and is open, is subscribed once, and to one type of event;
-- and no channel holds more than its buffer.
pub record Inv (b : Bus) : Type 0 where
  pub made : (k : String) (ch : ChanId) → 0 < subscribed k ch b → ch < b.next
  pub is_open : (k : String) (ch : ChanId) → 0 < subscribed k ch b → (b.chans ch).closed ≡ false
  pub once : (k : String) (ch : ChanId) → subscribed k ch b ≤ 1
  pub one_type :
      (j k : String) (ch : ChanId) → 0 < subscribed j ch b → 0 < subscribed k ch b → j ≡ k
  pub bounded : (ch : ChanId) → length (b.chans ch).buffer ≤ buffer_size

abbrev pub member : ChanId → List ChanId → Bool
member c chs = ltb 0 (count c chs)

-- A channel behind an event that was sent to it: the event is dropped if the buffer is full.
abbrev pub pushed : Event → Chan → Chan
pushed event c =
    if ltb (length c.buffer) buffer_size then record c { buffer = c.buffer ++ event ∷ [] } else c

-- The channels behind an event that was sent to each of `chs`.
abbrev pub delivered : Event → List ChanId → Chans → Chans
delivered event chs chans c = if member c chs then pushed event (chans c) else chans c

-- The channels of which each of `chs` has been closed.
abbrev pub shut : List ChanId → Chans → Chans
shut chs chans c = if member c chs then record (chans c) { closed = true } else chans c

-- All of the channels are open, and no channel stands twice among them.
abbrev pub AllOpen : List ChanId → Chans → Type 0
AllOpen [] chans = Unit
AllOpen (ch ∷ chs) chans = ((chans ch).closed ≡ false) × (count ch chs ≡ 0) × AllOpen chs chans

send_lem :
    (event : Event) (ch : ChanId) (chans : Chans)
    → (chans ch).closed ≡ false
    → send event ch chans ≡ some (set_chan ch (pushed event (chans ch)) chans)
unfolding send
send_lem event ch chans h = elim (Bool-cases (ltb (length (chans ch).buffer) buffer_size)) [
  | inl room ↦ rw (h, room)
  | inr full ↦ rw (h, full) (ap some (fun_ext λ c. ground arith))
]

AllOpen-set :
    (ch : ChanId) (c : Chan) (chs : List ChanId) (chans : Chans)
    → count ch chs ≡ 0
    → AllOpen chs chans
    → AllOpen chs (set_chan ch c chans)
AllOpen-set ch c [] chans h o = tt
AllOpen-set ch c (x ∷ xs) chans h o =
    (ground arith, o.1, AllOpen-set ch c xs chans (omega arith) o.2)

pub send_all_lem :
    (event : Event) (chs : List ChanId) (chans : Chans)
    → AllOpen chs chans
    → send_all event chs chans ≡ some (delivered event chs chans)
unfolding send_all
send_all_lem event [] chans h = refl
send_all_lem event (ch ∷ chs) chans h =
    rw (send_lem event ch chans h.0, send_all)
      (send_all_lem event chs (set_chan ch (pushed event (chans ch)) chans)
          (AllOpen-set ch _ chs chans h.1 h.2)
        ∙ ap some (fun_ext λ c. ground arith))

pub close_chan_lem :
    (ch : ChanId) (chans : Chans)
    → (chans ch).closed ≡ false
    → close_chan ch chans ≡ some (set_chan ch (record (chans ch) { closed = true }) chans)
unfolding close_chan
close_chan_lem ch chans h = rw h

pub close_all_lem :
    (chs : List ChanId) (chans : Chans)
    → AllOpen chs chans
    → close_all chs chans ≡ some (shut chs chans)
unfolding close_all
close_all_lem [] chans h = refl
close_all_lem (ch ∷ chs) chans h =
    rw (close_chan_lem ch chans h.0, close_all)
      (close_all_lem chs (set_chan ch (record (chans ch) { closed = true }) chans)
          (AllOpen-set ch _ chs chans h.1 h.2)
        ∙ ap some (fun_ext λ c. ground arith))

-- The facts of the invariant about one type of event give what a loop over its subscribers needs.
pub AllOpen-of :
    (chs : List ChanId) (chans : Chans)
    → ((ch : ChanId) → 0 < count ch chs → (chans ch).closed ≡ false)
    → ((ch : ChanId) → count ch chs ≤ 1)
    → AllOpen chs chans
AllOpen-of [] chans is_open once = tt
AllOpen-of (x ∷ xs) chans is_open once = (
  is_open x (ground arith),
  ground (arith, once x),
  AllOpen-of xs chans (λ ch h. is_open ch (omega arith)) (λ ch. omega (arith, once ch)),
)

pub publish_lem :
    (event : Event) (b : Bus)
    → Inv b
    → publish event b
      ≡ some (
          if b.closed then (b, some bus_closed) else (
            record b { chans = delivered event (subs_of b.subscribers event.type) b.chans },
            none,
          ))
unfolding publish subscribed
publish_lem event b inv =
    rw
      (
        send_all_lem event (subs_of b.subscribers event.type) b.chans
            (AllOpen-of _ b.chans (inv.is_open event.type) (inv.once event.type)),
        publish,
      )
      (ground arith)

pub new_bus-Inv : Inv new_bus
unfolding new_bus subscribed
new_bus-Inv = record {
  made = λ k ch h. omega arith;
  is_open = λ k ch h. refl;
  once = λ k ch. omega arith;
  one_type = λ j k ch h h'. absurd (omega arith);
  bounded = λ ch. omega arith;
}

or_nil : Option (List ChanId) → List ChanId
or_nil none = []
or_nil (some subs) = subs

count-if :
    (ch : ChanId) (b : Bool) (o o' : Option (List ChanId))
    → count ch (or_nil (if b then o else o'))
      ≡ (if b then count ch (or_nil o) else count ch (or_nil o'))
count-if ch true o o' = refl
count-if ch false o o' = refl

pub count-put :
    (k j : String) (ch : ChanId) (subs : List ChanId) (m : GoMap (List ChanId))
    → count ch (subs_of (put k subs m) j)
      ≡ (if str_eq k j then count ch subs else count ch (subs_of m j))
unfolding or_nil
count-put k j ch subs m = count-if ch (str_eq k j) (some subs) (m j)

pub count-delete :
    (k j : String) (ch : ChanId) (m : GoMap (List ChanId))
    → count ch (subs_of (delete k m) j) ≡ (if str_eq k j then 0 else count ch (subs_of m j))
unfolding or_nil
count-delete k j ch m = count-if ch (str_eq k j) none (m j)

subscribed-subscribe :
    (k j : String) (ch : ChanId) (b : Bus)
    → subscribed j ch (subscribe k b).0
      ≡ subscribed j ch b + (if str_eq k j && (b.next == ch) then 1 else 0)
unfolding subscribe subscribed
subscribed-subscribe k j ch b =
    count-put k j ch (subs_of b.subscribers k ++ b.next ∷ []) b.subscribers
    ∙ ground (arith, count-append ch (subs_of b.subscribers k) (b.next ∷ []), eq_iff k j)

chans-subscribe :
    (k : String) (ch : ChanId) (b : Bus)
    → (subscribe k b).0.chans ch
      ≡ (if b.next == ch then record { buffer = []; closed = false } else b.chans ch)
unfolding subscribe
chans-subscribe k ch b = refl

next-subscribe : (k : String) (b : Bus) → (subscribe k b).0.next ≡ suc b.next
unfolding subscribe
next-subscribe k b = refl

pub subscribe-Inv : (k : String) (b : Bus) → Inv b → Inv (subscribe k b).0
subscribe-Inv k b inv = record {
  made = λ j ch h. ground (arith, inv.made j ch, subscribed-subscribe k j ch b, next-subscribe k b);
  is_open = λ j ch h.
      ground (arith, inv.is_open j ch, subscribed-subscribe k j ch b, chans-subscribe k ch b);
  once = λ j ch. ground (arith, inv.once j ch, inv.made j ch, subscribed-subscribe k j ch b);
  one_type = λ i j ch h h'. ground (
    arith,
    inv.one_type i j ch,
    inv.made i ch,
    inv.made j ch,
    subscribed-subscribe k i ch b,
    subscribed-subscribe k j ch b,
    eq_iff k i,
    eq_iff k j,
  );
  bounded = λ ch. ground (arith, inv.bounded ch, chans-subscribe k ch b);
}
