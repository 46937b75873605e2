-- ===== src/Body/EventBus/Calls.antt =====
-- internal/body/eventbus.go: the invariant of the bus under `Publish`, receives and `Unsubscribe`.
use hydra_db.Base.{
  suc, ◌+◌, ◌<◌, String, ◌≡◌, refl, true, false, none, some, List, [], ◌∷◌, if◌then◌else◌, ◌==◌,
  length, count, length-append, arith, eq_iff, str_eq, ap, sym, List-cases, inl, inr, ◌⊎◌,
  Bool-cases, ltb→lt, ◌∙◌, ◌&&◌, GoMap, put,
}
use hydra_db.Body.EventBus.{
  Event, Chan, ChanId, Bus, subs_of, take_out, prune, unsubscribe, receive, set_chan,
}
use hydra_db.Body.EventBus.Safety.{
  subscribed, Inv, member, delivered, close_chan_lem, count-put, count-delete,
}

pub publish-Inv :
    (event : Event) (b : Bus)
    → Inv b
    → Inv (record b { chans = delivered event (subs_of b.subscribers event.type) b.chans })
unfolding subscribed
publish-Inv event b inv = record {
  made = inv.made;
  is_open = λ k ch h. ground (arith, inv.is_open k ch);
  once = inv.once;
  one_type = inv.one_type;
  bounded = λ ch. ground (arith, inv.bounded ch, length-append (b.chans ch).buffer (event ∷ []));
}

receive_buffer :
    (ch : ChanId) (c : Chan) (rest : List Event) (event : Event)
    → c.buffer ≡ event ∷ rest
    → suc (length rest) ≡ length c.buffer
receive_buffer ch c rest event e = ap length (sym e)

pub receive-Inv : (ch : ChanId) (b : Bus) → Inv b → Inv (receive ch b).0
unfolding receive subscribed
receive-Inv ch b inv = record {
  made = λ k c h. ground (arith, inv.made k c);
  is_open = λ k c h. ground (arith, inv.is_open k c);
  once = λ k c. ground (arith, inv.once k c);
  one_type = λ j k c h h'. ground (arith, inv.one_type j k c);
  bounded = λ c. ground (arith, inv.bounded c);
}

-- The search either misses the channel or takes out one of its places.
take_out_lem :
    (ch : ChanId) (subs : List ChanId)
    → ((take_out ch subs ≡ none) × (count ch subs ≡ 0))
      ⊎ ((others : List ChanId) × (take_out ch subs ≡ some others)
          × ((c : ChanId) → count c others + (if ch == c then 1 else 0) ≡ count c subs))
unfolding take_out
take_out_lem ch [] = inl (refl, refl)
take_out_lem ch (x ∷ xs) = elim (Bool-cases (x == ch)) [
  | inl same ↦ inr (xs, rw same, λ c. ground arith)
  | inr other ↦ elim (take_out_lem ch xs) [
    | inl (missed, absent) ↦ inl (rw (other, missed), ground arith)
    | inr (others, found, counts) ↦
        inr (x ∷ others, rw (other, found), λ c. omega (arith, counts c))
  ]
]

count-prune :
    (k j : String) (c : ChanId) (m : GoMap (List ChanId))
    → count c (subs_of (prune k m) j) ≡ count c (subs_of m j)
unfolding prune
count-prune k j c m = elim (List-cases (subs_of m k)) [
  | inl gone ↦
      rw (gone, prune)
        (count-delete k j c m
          ∙ ground (arith, gone, eq_iff k j, ap (λ i. count c (subs_of m i)) {x = k} {y = j}))
  | inr (x, xs, left) ↦ rw (left, prune) refl
]

key_count :
    (k j : String) (c : ChanId) (m : GoMap (List ChanId))
    → (str_eq k j ≡ false) ⊎ (count c (subs_of m k) ≡ count c (subs_of m j))
key_count k j c m = elim (Bool-cases (str_eq k j)) [
  | inl same ↦ inr (ap (λ i. count c (subs_of m i)) ((eq_iff k j).0 same))
  | inr other ↦ inl other
]

-- What a call of `Unsubscribe` leaves of the bus.
pub record Unsubscribed (k : String) (ch : ChanId) (b b' : Bus) : Type 0 where
  pub counts :
      (j : String) (c : ChanId)
      → subscribed j c b' ≡ (if str_eq k j && (ch == c) then 0 else subscribed j c b)
  pub chans :
      (c : ChanId)
      → b'.chans c ≡ (
          if member ch (subs_of b.subscribers k) && (ch == c)
          then record (b.chans c) { closed = true }
          else b.chans c)
  pub next : b'.next ≡ b.next
  pub closed : b'.closed ≡ b.closed

pub unsubscribe_lem :
    (k : String) (ch : ChanId) (b : Bus)
    → Inv b
    → (b' : Bus) × (unsubscribe k ch b ≡ some b') × Unsubscribed k ch b b'
unfolding unsubscribe subscribed
unsubscribe_lem k ch b inv = elim (take_out_lem ch (subs_of b.subscribers k)) [
  | inl (missed, absent) ↦ (
    record b { subscribers = prune k b.subscribers },
    rw (missed, unsubscribe),
    record {
      counts = λ j c.
          count-prune k j c b.subscribers ∙ ground (arith, absent, key_count k j ch b.subscribers);
      chans = λ c. ground arith;
      next = refl;
      closed = refl;
    },
  )
  | inr (others, found, counts) ↦ (
    record b {
      subscribers = prune k (put k others b.subscribers);
      chans = set_chan ch (record (b.chans ch) { closed = true }) b.chans;
    },
    rw (
      found,
      unsubscribe,
      close_chan_lem ch b.chans (inv.is_open k ch (ground (arith, counts ch))),
    ),
    record {
      counts = λ j c.
          count-prune k j c (put k others b.subscribers)
          ∙ count-put k j c others b.subscribers
          ∙ ground (arith, counts c, inv.once k c, key_count k j c b.subscribers);
      chans = λ c. ground (arith, counts ch);
      next = refl;
      closed = refl;
    },
  )
]

pub Unsubscribed-Inv :
    (k : String) (ch : ChanId) (b b' : Bus) → Inv b → Unsubscribed k ch b b' → Inv b'
unfolding subscribed
Unsubscribed-Inv k ch b b' inv u = record {
  made = λ j c h. ground (arith, inv.made j c, u.counts j c, u.next);
  is_open = λ j c h.
      ground (
        arith,
        inv.is_open j c,
        inv.one_type j k c,
        u.counts j c,
        u.chans c,
        eq_iff k j,
        in_list c,
      );
  once = λ j c. ground (arith, inv.once j c, u.counts j c);
  one_type = λ i j c h h'. ground (arith, inv.one_type i j c, u.counts i c, u.counts j c);
  bounded = λ c. ground (arith, inv.bounded c, u.chans c);
}
  where
    in_list : (c : ChanId) → member c (subs_of b.subscribers k) ≡ true → 0 < subscribed k c b
    in_list c h = ltb→lt _ _ h
