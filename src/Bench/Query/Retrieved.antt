-- ===== src/Bench/Query/Retrieved.antt =====
-- bench/locomo/query.go: the identifiers that a search of an ingested sample yields.
use mathlib.Core.List.Memᴰ
use hydra_db.Base.{
  String, ◌≡◌, ◌⊎◌, ◌↔◌, refl, sym, ap, ◌∙◌, inl, inr, subst, Option, some, List, [], ◌∷◌, GoMap,
  str_eq, All-mem, Memᴰ, Bool-cases, Option-cases, some_inj,
}
use hydra_db.Memory.Types.{Floats}
use hydra_db.Memory.InMemory.{Mem}
use hydra_db.Bench.Types.{Turn, Library, Stamps}
use hydra_db.Bench.Ingest.{Ingested}
use hydra_db.Bench.Ingest.Stored.{Pairs, Holds, IsNumbered, onto}
use hydra_db.Bench.Query.{dia_id_of, non_empty, or_else, extract_dia_ids}

-- A turn with the identifier.
abbrev pub IsDiaId : List Turn → String → Type 0
IsDiaId turns k = (t : Turn) × Memᴰ t turns × (t.dia_id ≡ k)

onto-mem : {t : Turn} (xs done : List Turn) → Memᴰ t (onto xs done) → Memᴰ t xs ⊎ Memᴰ t done
onto-mem [] done m = inr m
onto-mem (x ∷ xs) done m = elim (onto-mem xs (x ∷ done) m) [
  | inl early ↦ inl (Memᴰ.tail early)
  | inr (Memᴰ.head e) ↦ inl (Memᴰ.head e)
  | inr (Memᴰ.tail late) ↦ inr late
]

mem-onto : {t : Turn} (xs done : List Turn) → Memᴰ t xs ⊎ Memᴰ t done → Memᴰ t (onto xs done)
mem-onto [] done (inl m) = elim m [ ]
mem-onto [] done (inr m) = m
mem-onto (x ∷ xs) done (inl (Memᴰ.head e)) = mem-onto xs (x ∷ done) (inr (Memᴰ.head e))
mem-onto (x ∷ xs) done (inl (Memᴰ.tail m)) = mem-onto xs (x ∷ done) (inl m)
mem-onto (x ∷ xs) done (inr m) = mem-onto xs (x ∷ done) (inr (Memᴰ.tail m))

pub IsDiaId-onto : (turns : List Turn) (id : String) → IsDiaId (onto turns []) id ↔ IsDiaId turns id
IsDiaId-onto turns id = (
  λ h.
      let (t, turn, same) = h in
      (t, elim (onto-mem turns [] turn) [ inl m ↦ m | inr none_left ↦ elim none_left [ ] ], same),
  λ h. let (t, turn, same) = h in (t, mem-onto turns [] (inl turn), same),
)

module _ (fl : Floats) (lib : Library) where
  -- An identifier that is extracted is that of a memory.
  extract_sound :
      (index : GoMap String) (mems : List (Mem fl)) {k : String}
      → Memᴰ k (extract_dia_ids fl lib mems index)
      → (m : Mem fl) × Memᴰ m mems × (dia_id_of fl lib index m ≡ some k)
  unfolding extract_dia_ids
  extract_sound index [] h = elim h [ ]
  extract_sound index (mem ∷ mems) {k} h = elim (Option-cases (dia_id_of fl lib index mem)) [
    | inl skipped ↦
        let (m, listed, e) = extract_sound index mems (rw skipped at h) in (m, Memᴰ.tail listed, e)
    | inr (id, found) ↦ elim (Memᴰ.cases_cons (rw found at h)) [
      | inl e ↦ (mem, Memᴰ.head refl, found ∙ ap some (sym e))
      | inr later ↦ let (m, listed, e) = extract_sound index mems later in (m, Memᴰ.tail listed, e)
    ]
  ]

  extract_complete :
      (index : GoMap String) (mems : List (Mem fl)) (m : Mem fl) (k : String)
      → Memᴰ m mems
      → dia_id_of fl lib index m ≡ some k
      → Memᴰ k (extract_dia_ids fl lib mems index)
  unfolding extract_dia_ids
  extract_complete index [] m k listed e = elim listed [ ]
  extract_complete index (mem ∷ mems) m k (Memᴰ.head same) e =
      rw (ap (dia_id_of fl lib index) (sym same) ∙ e) (Memᴰ.head refl)
  extract_complete index (mem ∷ mems) m k (Memᴰ.tail listed) e =
      let later : Memᴰ k (extract_dia_ids fl lib mems index) =
        extract_complete index mems m k listed e in
      elim (Option-cases (dia_id_of fl lib index mem)) [
        | inl skipped ↦ rw skipped later
        | inr (id, found) ↦ rw found (Memᴰ.tail later)
      ]

  -- A record for a turn, in the pairing.
  pair_of :
      (P : Turn → Mem fl → Type 0) (turns : List Turn) (order : List (String × Mem fl)) {t : Turn}
      → Pairs fl P turns order
      → Memᴰ t turns
      → (e : String × Mem fl) × Memᴰ e order × P t e.1
  pair_of P [] order pairs m = elim m [ ]
  pair_of P (t ∷ ts) [] pairs m = elim pairs [ ]
  pair_of P (t ∷ ts) (e ∷ es) pairs (Memᴰ.head same) =
      (e, Memᴰ.head refl, subst (λ u. P u e.1) (sym same) pairs.0)
  pair_of P (t ∷ ts) (e ∷ es) pairs (Memᴰ.tail m) =
      let (x, listed, shows) = pair_of P ts es pairs.1 m in (x, Memᴰ.tail listed, shows)

  -- The turn that a record is for.
  turn_of :
      (P : Turn → Mem fl → Type 0) (turns : List Turn) (order : List (String × Mem fl))
      {e : String × Mem fl}
      → Pairs fl P turns order
      → Memᴰ e order
      → (t : Turn) × Memᴰ t turns × P t e.1
  turn_of P turns [] pairs m = elim m [ ]
  turn_of P [] (e ∷ es) pairs m = elim pairs [ ]
  turn_of P (t ∷ ts) (e ∷ es) pairs (Memᴰ.head same) =
      (t, Memᴰ.head refl, subst (λ u. P t u.1) (sym same) pairs.0)
  turn_of P (t ∷ ts) (e ∷ es) pairs (Memᴰ.tail m) =
      let (u, listed, shows) = turn_of P ts es pairs.1 m in (u, Memᴰ.tail listed, shows)

  -- Metadata or index: both have the identifier of the turn.
  either_id :
      (o o' : Option String) (id : String)
      → o ≡ some id
      → o' ≡ some id
      → (rest : Option String) → or_else (non_empty o) (or_else o' rest) ≡ some id
  either_id o o' id e e' rest = elim (Bool-cases (str_eq id "")) [
    | inl blank ↦ rw (e, e', blank) refl
    | inr given ↦ rw (e, given) refl
  ]

  module _ (P : Turn → Mem fl → Type 0) (stamps : Stamps) (l : Ingested fl) (turns : List Turn)
      (order : List (String × Mem fl)) (holds : Holds fl P stamps l turns order)
      (has_dia_id : (t : Turn) (m : Mem fl) → P t m → m.metadata "dia_id" ≡ some t.dia_id) where
    stored_id :
        (k : String) (m : Mem fl) (t : Turn)
        → l.records k ≡ some m
        → P t m
        → dia_id_of fl lib l.mem_to_dia_id m ≡ some t.dia_id
    unfolding dia_id_of
    stored_id k m t stored shows =
        let at_id : k ≡ m.id =
          (All-mem (IsNumbered fl stamps l.turn_count) order holds.numbered
            (holds.ranges.complete k m stored)).0 in
        let indexed : l.mem_to_dia_id m.id ≡ some t.dia_id =
          rw (← at_id) (holds.index k ∙ (rw stored (has_dia_id t m shows))) in
        either_id (m.metadata "dia_id") (l.mem_to_dia_id m.id) t.dia_id (has_dia_id t m shows)
          indexed _

    -- Whatever records of the sample are found, their identifiers are those of turns.
    pub retrieved_sound :
        (mems : List (Mem fl))
        → ((m : Mem fl) → Memᴰ m mems → (k : String) × (l.records k ≡ some m))
        → (id : String) → Memᴰ id (extract_dia_ids fl lib mems l.mem_to_dia_id)
        → IsDiaId turns id
    retrieved_sound mems known id listed =
        let (m, found, e) = extract_sound l.mem_to_dia_id mems listed in
        let (k, stored) = known m found in
        let (t, turn, shows) =
          turn_of P turns order holds.pairs (holds.ranges.complete k m stored) in
        (t, turn, some_inj (sym (stored_id k m t stored shows) ∙ e))

    -- Where all records of the sample are found, the identifier of every turn is among theirs.
    pub retrieved_complete :
        (mems : List (Mem fl))
        → ((k : String) (m : Mem fl) (t : Turn) → l.records k ≡ some m → P t m → Memᴰ m mems)
        → (id : String) → IsDiaId turns id
        → Memᴰ id (extract_dia_ids fl lib mems l.mem_to_dia_id)
    retrieved_complete mems all id (t, turn, same) =
        let ((k, m), listed, shows) = pair_of P turns order holds.pairs turn in
        let stored : l.records k ≡ some m = holds.ranges.sound k m listed in
        extract_complete l.mem_to_dia_id mems m id (all k m t stored shows)
          (stored_id k m t stored shows ∙ ap some same)
