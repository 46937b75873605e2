-- ===== src/Base/Int.antt =====
-- Signed integers over the native numbers, and Go's 64-bit `int` and `int64` as their wrap-around.
use Prim.Native.Nat.{ℕ, suc, ◌+◌, ◌-◌, ◌*◌, ◌%◌, ◌^◌, ◌≤◌, ◌<◌}
use mathlib.Core.Path.{◌≡◌}
use mathlib.Core.Bool.{Bool, ◌&&◌}
use native.Mathlib.Omega.{arith}
use hydra_db.Base.Tests.{ltb, leb, if◌then◌else◌}

-- `negsuc n` is -(n + 1).
pub data ℤ : Type 0 where
  pos : ℕ → ℤ
  negsuc : ℕ → ℤ

abbrev pub pos_part : ℤ → ℕ
pos_part (pos n) = n
pos_part (negsuc n) = 0

abbrev pub neg_part : ℤ → ℕ
neg_part (pos n) = 0
neg_part (negsuc n) = suc n

-- a - b, as an integer.
abbrev pub sub_ℕ : ℕ → ℕ → ℤ
sub_ℕ a b = if leb b a then pos (a - b) else negsuc (b - a - 1)

infixl 65 ◌+ℤ◌ ◌-ℤ◌
infixl 70 ◌*ℤ◌
infix 50 ◌≤ℤ◌
abbrev pub ◌+ℤ◌ : ℤ → ℤ → ℤ
a +ℤ b = sub_ℕ (pos_part a + pos_part b) (neg_part a + neg_part b)

abbrev pub ◌-ℤ◌ : ℤ → ℤ → ℤ
a -ℤ b = sub_ℕ (pos_part a + neg_part b) (neg_part a + pos_part b)

abbrev pub ◌*ℤ◌ : ℤ → ℤ → ℤ
a *ℤ b =
    sub_ℕ (pos_part a * pos_part b + neg_part a * neg_part b)
      (pos_part a * neg_part b + neg_part a * pos_part b)

abbrev pub ◌≤ℤ◌ : ℤ → ℤ → Type 0
a ≤ℤ b = pos_part a + neg_part b ≤ pos_part b + neg_part a

abbrev pub ltb_ℤ : ℤ → ℤ → Bool
ltb_ℤ a b = ltb (pos_part a + neg_part b) (pos_part b + neg_part a)

abbrev pub leb_ℤ : ℤ → ℤ → Bool
leb_ℤ a b = leb (pos_part a + neg_part b) (pos_part b + neg_part a)

-- The value that a 64-bit signed word holds after a write of `z`.
unfoldable pub int64 : ℤ → ℤ
int64 (pos n) = let r = n % 2 ^ 64 in if ltb r (2 ^ 63) then pos r else negsuc (2 ^ 64 - 1 - r)
int64 (negsuc n) = let r = n % 2 ^ 64 in if ltb r (2 ^ 63) then negsuc r else pos (2 ^ 64 - 1 - r)

-- The values of a 64-bit signed word.
abbrev pub IsInt64 : ℤ → Type 0
IsInt64 z = (pos_part z < 2 ^ 63) × (neg_part z ≤ 2 ^ 63)

-- A write loses nothing of a value in range.
pub int64_of_IsInt64 : (z : ℤ) → IsInt64 z → int64 z ≡ z
unfolding int64
int64_of_IsInt64 (pos n) h = ground arith
int64_of_IsInt64 (negsuc n) h = ground arith

-- What a word holds is in range.
pub int64-IsInt64 : (z : ℤ) → IsInt64 (int64 z)
unfolding int64
int64-IsInt64 (pos n) = ground arith
int64-IsInt64 (negsuc n) = ground arith

-- a + b, a - b and a * b on Go's `int`.
abbrev pub add_int : ℤ → ℤ → ℤ
add_int a b = int64 (a +ℤ b)

abbrev pub sub_int : ℤ → ℤ → ℤ
sub_int a b = int64 (a -ℤ b)

abbrev pub mul_int : ℤ → ℤ → ℤ
mul_int a b = int64 (a *ℤ b)

-- a == b
abbrev pub eq_ℤ : ℤ → ℤ → Bool
eq_ℤ a b = leb_ℤ a b && leb_ℤ b a
