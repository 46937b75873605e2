-- ===== src/Base/Maps.antt =====
-- Go's `map[string]V` as the function that it stands for. The order in which `range` visits a map is
-- the runtime's choice: code that ranges over a map takes the visited entries as an argument, and
-- `Ranges` says what Go promises of them.
use Prim.Native.Nat.{ℕ, ◌+◌}
use Prim.Native.String.{String}
use native.Mathlib.Omega.{arith}
use mathlib.Core.Path.{◌≡◌, refl, sym, ap, ◌∙◌}
use mathlib.Core.Logic.{inl, inr}
use mathlib.Core.Bool.{Bool, true, false, ◌&&◌}
use mathlib.Core.Option.{Option, none, some}
use mathlib.Core.List.{List, [], ◌∷◌, Memᴰ}
use text.Mathlib.Text.{◌==◌ as str_eq}
use text.Mathlib.TextEquality.{eq_iff}
use hydra_db.Base.Tests.{if◌then◌else◌, Bool-cases, Option-cases}
use hydra_db.Base.Lists.{All}

pub some_inj {ℓ} : {A : Type ℓ} {a a' : A} → some a ≡ some a' → a ≡ a'
some_inj e = cc

pub true_ne_false : {b : Bool} → b ≡ true → b ≡ false → ⊥
true_ne_false h h' = cc (h, h')

pub some_ne_none {ℓ} : {A : Type ℓ} {a : A} → some a ≡ none → ⊥
some_ne_none h = cc h

module _ {ℓ} where
  abbrev pub GoMap : Type ℓ → Type ℓ
  GoMap V = String → Option V

  module _ {V : Type ℓ} where
    -- make(map[string]V)
    abbrev pub empty : GoMap V
    empty k = none

    -- m[k] = v
    abbrev pub put : String → V → GoMap V → GoMap V
    put k v m j = if str_eq k j then some v else m j

    -- delete(m, k)
    abbrev pub delete : String → GoMap V → GoMap V
    delete k m j = if str_eq k j then none else m j

    -- No key stands twice.
    abbrev pub OnceEach : List (String × V) → Type 0
    OnceEach [] = Unit
    OnceEach ((k, v) ∷ rest) = All (λ e. str_eq k e.0 ≡ false) rest × OnceEach rest

    -- `for k, v := range m` visits each entry of the map once, and nothing else.
    pub record Ranges (m : GoMap V) (order : List (String × V)) : Type ℓ where
      pub sound : (k : String) (v : V) → Memᴰ (k, v) order → m k ≡ some v
      pub complete : (k : String) (v : V) → m k ≡ some v → Memᴰ (k, v) order
      pub once : OnceEach order

    pub empty-Ranges : Ranges empty []
    empty-Ranges = record { sound = λ k v m. elim m [ ]; complete = λ k v e. cc; once = tt }

    pub fresh_ne :
        (k : String) {j : String} {v : V} (order : List (String × V))
        → All (λ e. str_eq k e.0 ≡ false) order
        → Memᴰ (j, v) order
        → str_eq k j ≡ false
    fresh_ne k [] fresh m = elim m [ ]
    fresh_ne k (x ∷ xs) fresh (Memᴰ.head e) = rw (ap (λ (p : String × V). p.0) e) fresh.0
    fresh_ne k (x ∷ xs) fresh (Memᴰ.tail m) = fresh_ne k xs fresh.1 m

    put_sound :
        (k : String) (v : V) {m : GoMap V} {order : List (String × V)}
        → Ranges m order
        → All (λ e. str_eq k e.0 ≡ false) order
        → (j : String) (u : V) → Memᴰ (j, u) ((k, v) ∷ order)
        → put k v m j ≡ some u
    put_sound k v {order = order} ranges fresh j u (Memᴰ.head e) =
        rw ((eq_iff k j).1 (sym (ap (λ (p : String × V). p.0) e)))
          (ap some (sym (ap (λ (p : String × V). p.1) e)))
    put_sound k v {order = order} ranges fresh j u (Memᴰ.tail mem) =
        rw (fresh_ne k order fresh mem) (ranges.sound j u mem)

    put_complete :
        (k : String) (v : V) {m : GoMap V} {order : List (String × V)}
        → Ranges m order
        → (j : String) (u : V) → put k v m j ≡ some u
        → Memᴰ (j, u) ((k, v) ∷ order)
    put_complete k v {order = order} ranges j u h = elim (Bool-cases (str_eq k j)) [
      | inl same ↦ Memᴰ.head (λ i. (sym ((eq_iff k j).0 same) i, sym (some_inj (rw same at h)) i))
      | inr other ↦ Memᴰ.tail (ranges.complete j u (rw other at h))
    ]

    -- A map with one more entry can be visited with that entry first.
    pub put-Ranges :
        (k : String) (v : V) {m : GoMap V} {order : List (String × V)}
        → Ranges m order
        → All (λ e. str_eq k e.0 ≡ false) order
        → Ranges (put k v m) ((k, v) ∷ order)
    put-Ranges k v ranges fresh = record {
      sound = put_sound k v ranges fresh;
      complete = put_complete k v ranges;
      once = (fresh, ranges.once);
    }

    -- _, ok := m[k]
    abbrev pub has_key : GoMap V → String → Bool
    has_key m k = elim (m k) [ none ↦ false | some _ ↦ true ]

    abbrev pub keys : List (String × V) → List String
    keys [] = []
    keys ((k, v) ∷ rest) = k ∷ keys rest

    -- How many entries have the key and pass the test.
    abbrev pub tally : (V → Bool) → String → List (String × V) → ℕ
    tally p k [] = 0
    tally p k ((j, v) ∷ rest) = (if str_eq j k && p v then 1 else 0) + tally p k rest

    tally_absent :
        (p : V → Bool) (k : String) (order : List (String × V))
        → ((v : V) → ¬ Memᴰ (k, v) order)
        → tally p k order ≡ 0
    tally_absent p k [] absent = refl
    tally_absent p k ((j, v) ∷ rest) absent = elim (Bool-cases (str_eq j k)) [
      | inl same ↦ absurd (absent v (Memᴰ.head (λ i. (sym ((eq_iff j k).0 same) i, v))))
      | inr other ↦ ground (arith, tally_absent p k rest (λ u m. absent u (Memᴰ.tail m)))
    ]

    tally_fresh :
        (p : V → Bool) (j k : String) (order : List (String × V))
        → k ≡ j
        → All (λ e. str_eq j e.0 ≡ false) order
        → tally p k order ≡ 0
    tally_fresh p j k order e fresh =
        tally_absent p k order
          (λ v m. true_ne_false ((eq_iff j k).1 (sym e)) (fresh_ne j order fresh m))

    tally-mem :
        (p : V → Bool) (k : String) (v : V) (order : List (String × V))
        → OnceEach order
        → Memᴰ (k, v) order
        → tally p k order ≡ (if p v then 1 else 0)
    tally-mem p k v [] once m = elim m [ ]
    tally-mem p k v ((j, x) ∷ rest) (fresh, once) (Memᴰ.head e) =
        let at_key : k ≡ j = ap (λ (q : String × V). q.0) e in
        let rest_none : tally p k rest ≡ 0 = tally_fresh p j k rest at_key fresh in
        let same_value : p v ≡ p x = ap (λ (q : String × V). p q.1) e in
        ground (arith, rest_none, same_value, (eq_iff j k).1 (sym at_key))
    tally-mem p k v ((j, x) ∷ rest) (fresh, once) (Memᴰ.tail m) =
        ground (arith, tally-mem p k v rest once m, fresh_ne j rest fresh m)

    -- A visit of the whole map counts each of its keys once.
    pub tally-Ranges :
        (p : V → Bool) (k : String) {m : GoMap V} {order : List (String × V)}
        → Ranges m order
        → tally p k order ≡ (elim (m k) [ none ↦ 0 | some v ↦ if p v then 1 else 0 ])
    tally-Ranges p k {m} {order} ranges = elim (Option-cases (m k)) [
      | inl missing ↦
          rw missing
            (tally_absent p k order (λ v e. some_ne_none (sym (ranges.sound k v e) ∙ missing)))
      | inr (v, e) ↦ rw e (tally-mem p k v order ranges.once (ranges.complete k v e))
    ]

    -- Maps with the same entries are visited in the same orders.
    pub same-Ranges :
        {m m' : GoMap V} {order : List (String × V)}
        → ((k : String) → m' k ≡ m k)
        → Ranges m order
        → Ranges m' order
    same-Ranges same ranges = record {
      sound = λ k v mem. same k ∙ ranges.sound k v mem;
      complete = λ k v e. ranges.complete k v (sym (same k) ∙ e);
      once = ranges.once;
    }
