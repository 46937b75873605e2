-- ===== src/Base/Keys.antt =====
-- The keys that a visit of a Go map yields, and what any two visits of one map agree on.
use Prim.Native.Nat.{suc}
use Prim.Native.String.{String}
use native.Mathlib.Omega.{arith}
use mathlib.Core.Path.{◌≡◌, refl, ap, sym, ◌∙◌}
use mathlib.Core.Logic.{◌≢◌, inl, inr}
use mathlib.Core.Bool.{true}
use mathlib.Core.Option.{none}
use mathlib.Core.List.{List, [], ◌∷◌}
use hydra_db.Base.Tests.{if◌then◌else◌, Option-cases}
use hydra_db.Base.Lists.{length, occurs, length-le_of_occurs}
use hydra_db.Base.Maps.{GoMap, Ranges, has_key, keys, tally, tally-Ranges}

-- Lists in which everything occurs equally often are equally long.
pub length-eq_of_occurs :
    (xs ys : List String) → ((k : String) → occurs k xs ≡ occurs k ys) → length xs ≡ length ys
length-eq_of_occurs xs ys same = omega (
  arith,
  length-le_of_occurs xs ys (λ k. omega (arith, same k)),
  length-le_of_occurs ys xs (λ k. omega (arith, same k)),
)

module _ {V : Type 0} where
  pub has_key-true : (m : GoMap V) (k : String) → m k ≢ none → has_key m k ≡ true
  has_key-true m k h = elim (Option-cases (m k)) [
    | inl missing ↦ absurd (h missing)
    | inr (v, e) ↦ rw (e, has_key) refl
  ]

  pub occurs-keys :
      (order : List (String × V)) (v : String) → occurs v (keys order) ≡ tally (λ j. true) v order
  occurs-keys [] v = refl
  occurs-keys ((id, job) ∷ rest) v = ground (arith, occurs-keys rest v)

  -- A visit yields each key of the map once.
  pub occurs-key :
      {m : GoMap V} {order : List (String × V)} (k : String)
      → Ranges m order
      → occurs k (keys order) ≡ (if has_key m k then 1 else 0)
  occurs-key {m} {order} k ranges =
      occurs-keys order k ∙ tally-Ranges (λ j. true) k ranges ∙ elim (Option-cases (m k)) [
        | inl missing ↦ rw (missing, has_key) refl
        | inr (v, e) ↦ rw (e, has_key) refl
      ]

  pub length-keys : (order : List (String × V)) → length (keys order) ≡ length order
  length-keys [] = refl
  length-keys (e ∷ rest) = ap suc (length-keys rest)

  -- Any two visits of a map are equally long.
  pub length-Ranges :
      {m : GoMap V} (order order' : List (String × V))
      → Ranges m order
      → Ranges m order'
      → length order ≡ length order'
  length-Ranges order order' r r' =
      sym (length-keys order)
      ∙ length-eq_of_occurs (keys order) (keys order') (λ k. occurs-key k r ∙ sym (occurs-key k r'))
      ∙ length-keys order'
