-- ===== src/Memory/InMemory/Matches.antt =====
-- internal/memory/inmemory/provider.go: which records the loop of a search collects.
use hydra_db.Base.{
  ◌≤◌, String, ◌≡◌, ◌⊎◌, ◌↔◌, inl, inr, refl, subst, sym, ap, true, false, some, List, [], ◌∷◌,
  arith, str_eq, eq_iff, Bool-cases, Memᴰ, length,
}
use hydra_db.Memory.Types.{Floats, SearchQuery}
use hydra_db.Memory.InMemory.{
  Mem, is_empty, tag_set, all_in, contains_all_tags, matches_query, collect,
}

tag_set→Memᴰ : (t : String) (ts : List String) → tag_set ts t ≡ some tt → Memᴰ t ts
unfolding tag_set
tag_set→Memᴰ t [] h = cc
tag_set→Memᴰ t (x ∷ xs) h = elim (Bool-cases (str_eq x t)) [
  | inl e ↦ Memᴰ.head (sym ((eq_iff x t).0 e))
  | inr e ↦ Memᴰ.tail (tag_set→Memᴰ t xs (rw e at h))
]

tag_set-mem : {t : String} {ts : List String} → Memᴰ t ts → tag_set ts t ≡ some tt
unfolding tag_set
tag_set-mem {t} (Memᴰ.head {x = x} e) = rw ((eq_iff x t).1 (sym e))
tag_set-mem (Memᴰ.tail m) = ground (arith, tag_set-mem m)

all_in_sound :
    (ts qs : List String) → all_in (tag_set ts) qs ≡ true → (t : String) → Memᴰ t qs → Memᴰ t ts
unfolding all_in
all_in_sound ts [] h t m = elim m [ ]
all_in_sound ts (q ∷ qs) h t (Memᴰ.head e) = tag_set→Memᴰ t ts (rw e (ground arith))
all_in_sound ts (q ∷ qs) h t (Memᴰ.tail m) = all_in_sound ts qs (ground arith) t m

all_in_complete :
    (ts qs : List String) → ((t : String) → Memᴰ t qs → Memᴰ t ts) → all_in (tag_set ts) qs ≡ true
unfolding all_in
all_in_complete ts [] h = refl
all_in_complete ts (q ∷ qs) h =
    ground
      (arith, tag_set-mem (h q (Memᴰ.head refl)), all_in_complete ts qs (λ t m. h t (Memᴰ.tail m)))

-- The tags of a memory contain all that a query asks for, exactly when each stands among them.
pub contains_all_tags_iff :
    (ts qs : List String)
    → (contains_all_tags ts qs ≡ true) ↔ ((t : String) → Memᴰ t qs → Memᴰ t ts)
unfolding contains_all_tags
contains_all_tags_iff ts qs = (all_in_sound ts qs, all_in_complete ts qs)

nothing : (qs : List String) {t : String} → is_empty qs ≡ true → ¬ Memᴰ t qs
nothing [] h m = elim m [ ]
nothing (q ∷ qs) h m = cc

module _ (fl : Floats) where
  -- What a query asks of a record: an empty field of the query asks nothing.
  pub record Meets (q : SearchQuery fl.Float) (m : Mem fl) : Type 0 where
    pub type : (q.type ≡ "") ⊎ (m.type ≡ q.type)
    pub tags : (t : String) → Memᴰ t q.tags → Memᴰ t m.tags
    pub actor : (q.actor_id ≡ "") ⊎ (m.actor_id ≡ q.actor_id)
    pub tenant : (q.tenant_id ≡ "") ⊎ (m.tenant_id ≡ q.tenant_id)
    pub recent : q.since ≤ m.created_at
    pub confident :
        (fl.less fl.zero q.min_confidence ≡ false) ⊎ (fl.less m.confidence q.min_confidence ≡ false)

  tags_asked :
      (m : Mem fl) (q : SearchQuery fl.Float)
      → (is_empty q.tags ≡ true) ⊎ (contains_all_tags m.tags q.tags ≡ true)
      → (t : String) → Memᴰ t q.tags
      → Memᴰ t m.tags
  tags_asked m q (inl none_asked) t asked = absurd (nothing q.tags none_asked asked)
  tags_asked m q (inr all) t asked = (contains_all_tags_iff m.tags q.tags).0 all t asked

  -- The test of the search accepts exactly the records that meet the query.
  pub matches_query_iff :
      (m : Mem fl) (q : SearchQuery fl.Float) → (matches_query fl m q ≡ true) ↔ Meets q m
  unfolding matches_query
  matches_query_iff m q = (
    λ h. record {
      type = ground (arith, eq_iff q.type "", eq_iff m.type q.type);
      tags = tags_asked m q (ground arith);
      actor = ground (arith, eq_iff q.actor_id "", eq_iff m.actor_id q.actor_id);
      tenant = ground (arith, eq_iff q.tenant_id "", eq_iff m.tenant_id q.tenant_id);
      recent = ground arith;
      confident = ground arith;
    },
    λ h.
        let all : contains_all_tags m.tags q.tags ≡ true =
          (contains_all_tags_iff m.tags q.tags).1 h.tags in
        ground (
          arith,
          all,
          eq_iff q.type "",
          eq_iff m.type q.type,
          eq_iff q.actor_id "",
          eq_iff m.actor_id q.actor_id,
          eq_iff q.tenant_id "",
          eq_iff m.tenant_id q.tenant_id,
        ),
  )

  abbrev pub Found : SearchQuery fl.Float → List (String × Mem fl) → Mem fl → Type 0
  Found q order a = (k : String) × Memᴰ (k, a) order × Meets q a

  Found-cons :
      (q : SearchQuery fl.Float) (k : String) (x : Mem fl) (rest : List (String × Mem fl))
      → matches_query fl x q ≡ true
      → {a : Mem fl} → (Memᴰ a (collect fl q rest) → Found q rest a)
      → Memᴰ a (x ∷ collect fl q rest)
      → Found q ((k, x) ∷ rest) a
  Found-cons q k x rest hit later (Memᴰ.head e) = (
    k,
    Memᴰ.head (ap (λ (y : Mem fl). (k, y)) e),
    subst (Meets q) (sym e) ((matches_query_iff x q).0 hit),
  )
  Found-cons q k x rest hit later (Memᴰ.tail m) =
      let (j, listed, meets) = later m in (j, Memᴰ.tail listed, meets)

  pub collect_sound :
      (q : SearchQuery fl.Float) (order : List (String × Mem fl)) {m : Mem fl}
      → Memᴰ m (collect fl q order)
      → Found q order m
  unfolding collect
  collect_sound q [] m = elim m [ ]
  collect_sound q ((k, x) ∷ rest) m = elim (Bool-cases (matches_query fl x q)) [
    | inl hit ↦ Found-cons q k x rest hit (collect_sound q rest) (rw hit at m)
    | inr miss ↦
        let (j, listed, meets) = collect_sound q rest (rw miss at m) in (j, Memᴰ.tail listed, meets)
  ]

  pub collect_complete :
      (q : SearchQuery fl.Float) (order : List (String × Mem fl)) (k : String) (m : Mem fl)
      → Memᴰ (k, m) order
      → Meets q m
      → Memᴰ m (collect fl q order)
  unfolding collect
  collect_complete q [] k m listed meets = elim listed [ ]
  collect_complete q ((j, x) ∷ rest) k m (Memᴰ.head e) meets =
      let same : m ≡ x = ap (λ (p : String × Mem fl). p.1) e in
      rw ((matches_query_iff x q).1 (subst (Meets q) same meets)) (Memᴰ.head same)
  collect_complete q ((j, x) ∷ rest) k m (Memᴰ.tail listed) meets =
      let found : Memᴰ m (collect fl q rest) = collect_complete q rest k m listed meets in
      elim (Bool-cases (matches_query fl x q)) [
        | inl hit ↦ rw hit (Memᴰ.tail found)
        | inr miss ↦ rw miss found
      ]

  pub length-collect :
      (q : SearchQuery fl.Float) (order : List (String × Mem fl))
      → length (collect fl q order) ≤ length order
  unfolding collect
  length-collect q [] = omega arith
  length-collect q ((k, x) ∷ rest) = elim (Bool-cases (matches_query fl x q)) [
    | inl hit ↦ rw hit (omega (arith, length-collect q rest))
    | inr miss ↦ rw miss (omega (arith, length-collect q rest))
  ]
