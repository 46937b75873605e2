-- ===== src/Base/Lists.antt =====
-- Lists measured by native numbers and searched by Boolean tests, under the library's names.
use Prim.Native.Nat.{ℕ, zero, suc, ◌+◌, ◌≤◌, ◌<◌}
use mathlib.Core.Path.{subst, sym, ◌≡◌, refl, ap}
use mathlib.Core.Bool.{Bool, true, false, ◌&&◌, ◌||◌}
use mathlib.Core.List.{Memᴰ, List, [], ◌∷◌, ◌++◌}
use Prim.Native.String.{String}
use text.Mathlib.Text.{◌==◌ as str_eq}
use native.Mathlib.Omega.{arith}
use text.Mathlib.TextEquality.{eq_iff}
use mathlib.Core.Logic.{inl, inr}
use hydra_db.Base.Tests.{Bool-cases, ◌==◌, if◌then◌else◌}

module _ {ℓ} {A : Type ℓ} where
  abbrev pub length : List A → ℕ
  length [] = 0
  length (x ∷ xs) = suc (length xs)

  abbrev pub take : ℕ → List A → List A
  take zero xs = []
  take (suc n) [] = []
  take (suc n) (x ∷ xs) = x ∷ take n xs

  abbrev pub filter : (A → Bool) → List A → List A
  filter p [] = []
  filter p (x ∷ xs) = let rest = filter p xs in if p x then x ∷ rest else rest

  abbrev pub any : (A → Bool) → List A → Bool
  any p [] = false
  any p (x ∷ xs) = p x || any p xs

  abbrev pub all : (A → Bool) → List A → Bool
  all p [] = true
  all p (x ∷ xs) = p x && all p xs

  -- A predicate on each element, as a tuple that the tactics read.
  abbrev pub All {κ} : (A → Type κ) → List A → Type κ
  All P [] = Unit
  All P (x ∷ xs) = P x × All P xs

module _ {ℓ} {A : Type ℓ} where
  pub length-append : (xs ys : List A) → length (xs ++ ys) ≡ length xs + length ys
  length-append [] ys = omega arith
  length-append (x ∷ xs) ys = omega (arith, length-append xs ys)

  pub length-take-le : (n : ℕ) (xs : List A) → length (take n xs) ≤ n
  length-take-le zero xs = omega arith
  length-take-le (suc n) [] = omega arith
  length-take-le (suc n) (x ∷ xs) = omega (arith, length-take-le n xs)

  pub take_all : (n : ℕ) (xs : List A) → length xs ≤ n → take n xs ≡ xs
  take_all zero [] h = refl
  take_all zero (x ∷ xs) h = absurd (omega arith)
  take_all (suc n) [] h = refl
  take_all (suc n) (x ∷ xs) h = ap (λ ys. x ∷ ys) (take_all n xs (omega arith))

-- How often a number stands in a list.
abbrev pub count : ℕ → List ℕ → ℕ
count r [] = 0
count r (job ∷ rest) = (if job == r then 1 else 0) + count r rest

pub count-append :
    (r : ℕ) (front back : List ℕ) → count r (front ++ back) ≡ count r front + count r back
count-append r [] back = omega arith
count-append r (job ∷ front) back = omega (arith, count-append r front back)

-- The loop `for _, x := range xs { if x == s { return true } }; return false`.
abbrev pub str_mem : String → List String → Bool
str_mem s [] = false
str_mem s (x ∷ xs) = str_eq x s || str_mem s xs

pub All-mem {ℓ κ} : {A : Type ℓ} (P : A → Type κ) {a : A} (xs : List A) → All P xs → Memᴰ a xs → P a
All-mem P [] h m = elim m [ ]
All-mem P (x ∷ xs) h (Memᴰ.head e) = subst P (sym e) h.0
All-mem P (x ∷ xs) h (Memᴰ.tail m) = All-mem P xs h.1 m

-- How often a text stands in a list.
abbrev pub occurs : String → List String → ℕ
occurs k [] = 0
occurs k (x ∷ xs) = (if str_eq x k then 1 else 0) + occurs k xs

pub occurs-append :
    (k : String) (xs ys : List String) → occurs k (xs ++ ys) ≡ occurs k xs + occurs k ys
occurs-append k [] ys = omega arith
occurs-append k (x ∷ xs) ys = omega (arith, occurs-append k xs ys)

pub occurs-mem : {k : String} {xs : List String} → Memᴰ k xs → 0 < occurs k xs
occurs-mem {k} (Memᴰ.head {x = x} e) = ground (arith, (eq_iff x k).1 (sym e))
occurs-mem (Memᴰ.tail m) = omega (arith, occurs-mem m)

pub mem_of_occurs : (k : String) (xs : List String) → 0 < occurs k xs → Memᴰ k xs
mem_of_occurs k [] h = absurd (omega arith)
mem_of_occurs k (x ∷ xs) h = elim (Bool-cases (str_eq x k)) [
  | inl same ↦ Memᴰ.head (sym ((eq_iff x k).0 same))
  | inr other ↦ Memᴰ.tail (mem_of_occurs k xs (ground arith))
]

-- A list with one occurrence of `x` taken out.
remove_one :
    (x : String) (ys : List String)
    → 0 < occurs x ys
    → (rest : List String) × (length ys ≡ suc (length rest))
      × ((k : String) → occurs k ys ≡ occurs k rest + (if str_eq x k then 1 else 0))
remove_one x [] h = absurd (omega arith)
remove_one x (y ∷ ys) h = elim (Bool-cases (str_eq y x)) [
  | inl same ↦ (ys, refl, λ k. ground (arith, ap (λ z. str_eq z k) ((eq_iff y x).0 same)))
  | inr other ↦
      let (rest, shorter, counts) = remove_one x ys (ground arith) in
      (y ∷ rest, ap suc shorter, λ k. omega (arith, counts k))
]

-- A list that holds nothing more often than another is no longer.
pub length-le_of_occurs :
    (xs ys : List String) → ((k : String) → occurs k xs ≤ occurs k ys) → length xs ≤ length ys
length-le_of_occurs [] ys h = omega arith
length-le_of_occurs (x ∷ xs) ys h =
    let (rest, shorter, counts) = remove_one x ys (ground (arith, h x, eq_iff x x)) in
    omega (arith, length-le_of_occurs xs rest (λ k. omega (arith, h k, counts k)))
