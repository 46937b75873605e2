-- ===== src/Memory/Tdb/Keys.antt =====
-- internal/memory/tdb/provider.go: what `deriveKey` keeps of a content.
use hydra_db.Base.{
  ℕ, zero, suc, ◌+◌, ◌*◌, ◌/◌, ◌%◌, ◌^◌, ◌≤◌, ◌<◌, ◌≡◌, ◌↔◌, sym, ap, ◌∙◌, ◌⊎◌, inl, inr, List, [],
  ◌∷◌, ◌++◌, arith,
}
use native.Mathlib.Nat.{pow-suc}
use hydra_db.Memory.Tdb.{
  fnv_from, fnv_of, bytes_from, spread, hash_bytes, byte_at, key_bits, key_from, key_of,
}

fnv_from-lt : (bytes : List ℕ) (fnv : ℕ) → fnv < 2 ^ 64 → fnv_from fnv bytes < 2 ^ 64
unfolding fnv_from
fnv_from-lt [] fnv h = h
fnv_from-lt (v ∷ bytes) fnv h = fnv_from-lt bytes _ (omega arith)

fnv_of-lt : (bytes : List ℕ) → fnv_of bytes < 2 ^ 64
unfolding fnv_of
fnv_of-lt bytes = fnv_from-lt bytes 2166136261 (omega arith)

-- An entry below the eighth keeps a whole byte.
entry : (fnv i : ℕ) → ℕ
entry fnv i = fnv / 2 ^ (i * 8) % 256 * 2 ^ i % 2 ^ 64 % 2 ^ 16

words_same : (f g : ℕ) → f < 2 ^ 64 → g < 2 ^ 64 → ((i : ℕ) → i < 8 → entry f i ≡ entry g i) → f ≡ g
unfolding entry
words_same f g hf hg e =
    let e7 : f / 2 ^ 56 ≡ g / 2 ^ 56 = omega (arith, e 7 (omega arith)) in
    let e6 : f / 2 ^ 48 ≡ g / 2 ^ 48 = omega (arith, e 6 (omega arith)) in
    let e5 : f / 2 ^ 40 ≡ g / 2 ^ 40 = omega (arith, e 5 (omega arith)) in
    let e4 : f / 2 ^ 32 ≡ g / 2 ^ 32 = omega (arith, e 4 (omega arith)) in
    let e3 : f / 2 ^ 24 ≡ g / 2 ^ 24 = omega (arith, e 3 (omega arith)) in
    let e2 : f / 2 ^ 16 ≡ g / 2 ^ 16 = omega (arith, e 2 (omega arith)) in
    let e1 : f / 2 ^ 8 ≡ g / 2 ^ 8 = omega (arith, e 1 (omega arith)) in
    omega (arith, e 0 (omega arith))

byte_at-key_from :
    (h : List ℕ) (i n k : ℕ) → k < n → byte_at (key_from h i n) k ≡ key_bits h (i + k)
unfolding key_from
byte_at-key_from h i zero k lt = absurd (omega arith)
byte_at-key_from h i (suc n) zero lt = ap (key_bits h) (omega arith)
byte_at-key_from h i (suc n) (suc k) lt =
    byte_at-key_from h (suc i) n k (omega arith) ∙ ap (key_bits h) (omega arith)

pub byte_at-bytes_from :
    (fnv i n k : ℕ) (rest : List ℕ)
    → k < n
    → byte_at (bytes_from fnv i n ++ rest) k ≡ fnv / 2 ^ ((i + k) * 8) % 256
unfolding bytes_from
byte_at-bytes_from fnv i zero k rest lt = absurd (omega arith)
byte_at-bytes_from fnv i (suc n) zero rest lt = ap (λ j. fnv / 2 ^ (j * 8) % 256) (omega arith)
byte_at-bytes_from fnv i (suc n) (suc k) rest lt =
    byte_at-bytes_from fnv (suc i) n k rest (omega arith)
    ∙ ap (λ j. fnv / 2 ^ (j * 8) % 256) (omega arith)

byte_at-hash_bytes :
    (bytes : List ℕ) (i : ℕ)
    → i < 8
    → byte_at (hash_bytes bytes) i ≡ fnv_of bytes / 2 ^ (i * 8) % 256
unfolding hash_bytes spread
byte_at-hash_bytes bytes i lt =
    byte_at-bytes_from (fnv_of bytes) 0 8 i
      (bytes_from (fnv_of bytes) 8 8
        ++ bytes_from (fnv_of bytes) 16 8
        ++ 0 ∷ 0 ∷ 0 ∷ 0 ∷ 0 ∷ 0 ∷ 0 ∷ 0 ∷ [])
      lt
    ∙ ap (λ j. fnv_of bytes / 2 ^ (j * 8) % 256) (omega arith)

key_bits-hash_bytes :
    (bytes : List ℕ) (i : ℕ) → i < 8 → key_bits (hash_bytes bytes) i ≡ entry (fnv_of bytes) i
unfolding key_bits entry
key_bits-hash_bytes bytes i lt =
    let in_word : i % 8 ≡ i = omega arith in
    let in_shift : i % 56 ≡ i = omega arith in
    ap (λ j. byte_at (hash_bytes bytes) j * 2 ^ (i % 56) % 2 ^ 64 % 2 ^ 16) in_word
    ∙ ap (λ j. byte_at (hash_bytes bytes) i * 2 ^ j % 2 ^ 64 % 2 ^ 16) in_shift
    ∙ ap (λ b. b * 2 ^ i % 2 ^ 64 % 2 ^ 16) (byte_at-hash_bytes bytes i lt)

byte_at-key_of :
    (bytes : List ℕ) (i : ℕ) → i < 768 → byte_at (key_of bytes) i ≡ key_bits (hash_bytes bytes) i
unfolding key_of
byte_at-key_of bytes i lt =
    let at : 0 + i ≡ i = omega arith in
    byte_at-key_from (hash_bytes bytes) 0 768 i lt ∙ ap (key_bits (hash_bytes bytes)) at

same_keys : (a b : List ℕ) → key_of a ≡ key_of b → fnv_of a ≡ fnv_of b
same_keys a b e = words_same (fnv_of a) (fnv_of b) (fnv_of-lt a) (fnv_of-lt b) (λ i lt.
    sym (byte_at-key_of a i (omega arith) ∙ key_bits-hash_bytes a i lt)
    ∙ ap (λ k. byte_at k i) e
    ∙ byte_at-key_of b i (omega arith)
    ∙ key_bits-hash_bytes b i lt)

same_hash : (a b : List ℕ) → fnv_of a ≡ fnv_of b → key_of a ≡ key_of b
unfolding key_of hash_bytes
same_hash a b e = ap (λ fnv. key_from (spread fnv) 0 768) e

times_swap : (b m : ℕ) → b * (65536 * m) ≡ 65536 * (b * m)
times_swap b m = omega arith

from_sixteen : (n : ℕ) → 16 ≤ suc n → (16 ≤ n) ⊎ (15 ≡ n)
from_sixteen n h = ground arith

high_power : (s : ℕ) → 16 ≤ s → (m : ℕ) × (2 ^ s ≡ 65536 * m)
high_power zero h = absurd (omega arith)
high_power (suc n) h = elim (from_sixteen n h) [
  | inl more ↦ let (m, e) = high_power n more in (m * 2, pow-suc 2 n ∙ omega (arith, e))
  | inr e ↦ (1, pow-suc 2 n ∙ ap (λ k. 2 ^ k * 2) (sym e))
]

shifted_out : (x : ℕ) → 65536 * x % 2 ^ 64 % 2 ^ 16 ≡ 0
shifted_out x = omega arith

dropped_bits : (b s : ℕ) → 16 ≤ s → b * 2 ^ s % 2 ^ 64 % 2 ^ 16 ≡ 0
dropped_bits b s h =
    let (m, e) = high_power s h in
    let product : b * 2 ^ s ≡ 65536 * (b * m) = ap (λ p. b * p) e ∙ times_swap b m in
    ap (λ x. x % 2 ^ 64 % 2 ^ 16) product ∙ shifted_out (b * m)

-- Two contents have the same entries exactly when the 64-bit hashes of their bytes are the same; and
-- of each 56 entries in a row at most 16 are not zero, whatever the content.
pub key_of_lem :
    (a b : List ℕ)
    → ((key_of a ≡ key_of b) ↔ (fnv_of a ≡ fnv_of b))
      × ((i : ℕ) → i < 768 → 16 ≤ i % 56 → byte_at (key_of a) i ≡ 0)
unfolding key_bits
key_of_lem a b = (
  (same_keys a b, same_hash a b),
  λ i lt high. byte_at-key_of a i lt ∙ dropped_bits (byte_at (hash_bytes a) (i % 8)) (i % 56) high,
)
