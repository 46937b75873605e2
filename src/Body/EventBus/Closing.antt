-- ===== src/Body/EventBus/Closing.antt =====
-- internal/body/eventbus.go: `Close`.
use hydra_db.Base.{
  ℕ, ◌+◌, ◌≤◌, ◌<◌, String, ◌≡◌, refl, Bool, true, false, none, some, List, [], ◌∷◌, if◌then◌else◌,
  ltb, count, arith, eq_iff, str_eq, ap, sym, Ranges, OnceEach, All, Memᴰ, inl, inr, ◌⊎◌,
  Bool-cases, Option-cases, fun_ext, ◌∙◌, ◌||◌, GoMap, delete,
}
use hydra_db.Body.EventBus.{ChanId, Chans, Bus, close_entries, close}
use hydra_db.Body.EventBus.Safety.{subscribed, Inv, shut, AllOpen-of, close_all_lem}

abbrev pub Entries : Type 0
Entries = List (String × List ChanId)

-- How often a channel stands in the entries of the map.
abbrev listed : ChanId → Entries → ℕ
listed c [] = 0
listed c ((k, subs) ∷ rest) = count c subs + listed c rest

abbrev keyed : String → Entries → Bool
keyed j [] = false
keyed j ((k, subs) ∷ rest) = str_eq k j || keyed j rest

-- The channels of which all that the entries list have been closed.
abbrev shut_entries : Entries → Chans → Chans
shut_entries order chans c =
    if ltb 0 (listed c order) then record (chans c) { closed = true } else chans c

close_entries_lem :
    (order : Entries) (m : GoMap (List ChanId)) (chans : Chans)
    → ((c : ChanId) → listed c order ≤ 1)
    → ((c : ChanId) → 0 < listed c order → (chans c).closed ≡ false)
    → (m' : GoMap (List ChanId)) × (close_entries order m chans
        ≡ some (m', shut_entries order chans))
      × ((j : String) → m' j ≡ (if keyed j order then none else m j))
unfolding close_entries
close_entries_lem [] m chans once is_open = (m, refl, λ j. refl)
close_entries_lem ((k, subs) ∷ rest) m chans once is_open =
    let closed_these =
      close_all_lem subs chans
        (AllOpen-of subs chans (λ c h. is_open c (omega arith)) (λ c. omega (arith, once c))) in
    let (m', closed, keys) =
      close_entries_lem rest (delete k m) (shut subs chans) (λ c. omega (arith, once c))
        (λ c h. ground (arith, once c, is_open c)) in
    (
      m',
      rw (closed_these, close_entries)
          (closed ∙ ap (λ (x : Chans). some (m', x)) (fun_ext λ c. ground (arith, once c))),
      λ j. keys j ∙ ground arith,
    )

All-sound :
    (m : GoMap (List ChanId)) (order : Entries)
    → ((k : String) (subs : List ChanId) → Memᴰ (k, subs) order → m k ≡ some subs)
    → All (λ e. m e.0 ≡ some e.1) order
All-sound m [] h = tt
All-sound m ((k, subs) ∷ rest) h =
    (h k subs (Memᴰ.head refl), All-sound m rest (λ j s mem. h j s (Memᴰ.tail mem)))

listed-mem :
    {k : String} {subs : List ChanId} {order : Entries} (c : ChanId)
    → Memᴰ (k, subs) order
    → count c subs ≤ listed c order
listed-mem c (Memᴰ.head e) = omega (arith, ap (λ (p : String × List ChanId). count c p.1) e)
listed-mem c (Memᴰ.tail m) = omega (arith, listed-mem c m)

keyed-mem :
    {k : String} {subs : List ChanId} {order : Entries}
    → Memᴰ (k, subs) order
    → keyed k order ≡ true
keyed-mem {k} (Memᴰ.head {x = x} e) =
    rw ((eq_iff x.0 k).1 (sym (ap (λ (p : String × List ChanId). p.0) e)))
keyed-mem (Memᴰ.tail m) = ground (arith, keyed-mem m)

unkeyed :
    (k j : String) (order : Entries)
    → All (λ e. str_eq k e.0 ≡ false) order
    → k ≡ j
    → keyed j order ≡ false
unkeyed k j [] h same = refl
unkeyed k j ((i, subs) ∷ rest) h same =
    ground (arith, h.0, unkeyed k j rest h.1 same, eq_iff k i, eq_iff i j)

abbrev Listed : Bus → ChanId → Entries → Type 0
Listed b c order =
    (k : String) × (0 < subscribed k c b) × (listed c order ≡ 1) × (keyed k order ≡ true)

-- A channel stands at most once in the entries of the map, and only if it is subscribed.
listed_cases :
    (b : Bus) (order : Entries) (c : ChanId)
    → Inv b
    → OnceEach order
    → All (λ e. b.subscribers e.0 ≡ some e.1) order
    → (listed c order ≡ 0) ⊎ Listed b c order
unfolding subscribed
listed_cases b [] c inv once sound = inl refl
listed_cases b ((k, subs) ∷ rest) c inv once sound =
    elim (listed_cases b rest c inv once.1 sound.1) [
      | inl unlisted ↦ elim (Bool-cases (ltb 0 (count c subs))) [
        | inl here ↦ inr (k, ground arith, ground (arith, inv.once k c), rw ((eq_iff k k).1 refl))
        | inr absent ↦ inl (ground arith)
      ]
      | inr (j, sub, one, key) ↦ elim (Bool-cases (ltb 0 (count c subs))) [
        | inl here ↦
            let same : k ≡ j = inv.one_type k j c (ground arith) sub in
            absurd (ground (arith, unkeyed k j rest once.0 same))
        | inr absent ↦ inr (j, sub, ground arith, rw key (ground arith))
      ]
    ]

module _ (order : Entries) (b : Bus) (inv : Inv b) (ranges : Ranges b.subscribers order) where
  cases : (c : ChanId) → (listed c order ≡ 0) ⊎ Listed b c order
  cases c = listed_cases b order c inv ranges.once (All-sound b.subscribers order ranges.sound)

  listed_once : (c : ChanId) → listed c order ≤ 1
  listed_once c = ground (arith, cases c)

  listed_open : (c : ChanId) → 0 < listed c order → (b.chans c).closed ≡ false
  listed_open c h = elim (cases c) [
    | inl unlisted ↦ absurd (omega arith)
    | inr (k, sub, _, _) ↦ inv.is_open k c sub
  ]

  subscribed-listed : (k : String) (c : ChanId) → 0 < subscribed k c b → 0 < listed c order
  unfolding subscribed
  subscribed-listed k c h = elim (Option-cases (b.subscribers k)) [
    | inl gone ↦ absurd (ground arith)
    | inr (subs, found) ↦ ground (arith, listed-mem c (ranges.complete k subs found))
  ]

  nothing_left : (j : String) → (if keyed j order then none else b.subscribers j) ≡ none
  nothing_left j = elim (Option-cases (b.subscribers j)) [
    | inl gone ↦ ground arith
    | inr (subs, found) ↦ rw (keyed-mem (ranges.complete j subs found))
  ]

  after-Inv :
      (m : GoMap (List ChanId))
      → ((j : String) → m j ≡ none)
      → Inv (record b { subscribers = m; chans = shut_entries order b.chans; closed = true })
  unfolding subscribed
  after-Inv m none_left = record {
    made = λ k c h. absurd (ground (arith, none_left k));
    is_open = λ k c h. absurd (ground (arith, none_left k));
    once = λ k c. ground (arith, none_left k);
    one_type = λ i j c h h'. absurd (ground (arith, none_left i));
    bounded = λ c. ground (arith, inv.bounded c);
  }

  -- `Close` returns, leaves no subscriber, and has closed every channel that was subscribed.
  pub close_lem :
      (b' : Bus) × (close order b ≡ some b')
      × (b'.closed ≡ true)
      × ((j : String) → b'.subscribers j ≡ none)
      × ((k : String) (c : ChanId) → 0 < subscribed k c b → (b'.chans c).closed ≡ true)
      × Inv b'
  unfolding close
  close_lem =
      let (m', closed, keys) =
        close_entries_lem order b.subscribers b.chans listed_once listed_open in
      let none_left : (j : String) → m' j ≡ none = λ j. keys j ∙ nothing_left j in
      (
        record b { subscribers = m'; chans = shut_entries order b.chans; closed = true },
        rw (closed, close),
        refl,
        none_left,
        λ k c h. ground (arith, subscribed-listed k c h),
        after-Inv m' none_left,
      )
