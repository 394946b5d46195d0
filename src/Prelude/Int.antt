-- ===== src/Prelude/Int.antt =====
-- Go's `int`: a signed 64-bit number, with its conversions and its wrapping addition.
use Prim.Native.Nat.{ℕ, suc, ◌+◌, ◌-◌, ◌%◌, ◌^◌, ◌≤◌}
use mathlib.Core.Path.{◌≡◌}
use mathlib.Core.Bool.{Bool}
use native.Mathlib.Omega.{arith}
use zput_net_golang.Prelude.Tests.{ltb, leb, if◌then◌else◌}

-- `negsuc n` is -(n + 1).
pub data ℤ : Type 0 where
  pos : ℕ → ℤ
  negsuc : ℕ → ℤ

abbrev pub pos_part : ℤ → ℕ
pos_part (pos n) = n
pos_part (negsuc n) = 0

abbrev pub neg_part : ℤ → ℕ
neg_part (pos n) = 0
neg_part (negsuc n) = suc n

-- a - b, as an integer.
abbrev pub sub_ℕ : ℕ → ℕ → ℤ
sub_ℕ a b = if leb b a then pos (a - b) else negsuc (b - a - 1)

infixl 65 ◌+ℤ◌
infix 50 ◌≤ℤ◌
unfoldable pub ◌+ℤ◌ : ℤ → ℤ → ℤ
a +ℤ b = sub_ℕ (pos_part a + pos_part b) (neg_part a + neg_part b)

abbrev pub ◌≤ℤ◌ : ℤ → ℤ → Type 0
a ≤ℤ b = pos_part a + neg_part b ≤ pos_part b + neg_part a

abbrev pub ltb_ℤ : ℤ → ℤ → Bool
ltb_ℤ a b = ltb (pos_part a + neg_part b) (pos_part b + neg_part a)

-- `int(v)` of a `uint64` v: the bit pattern read as a signed number.
unfoldable pub int_of_u64 : ℕ → ℤ
int_of_u64 v = if ltb v (2 ^ 63) then pos v else negsuc (2 ^ 64 - v - 1)

-- The bit pattern of an integer in 64 bits, `uint64(z)`.
unfoldable pub u64_of_int : ℤ → ℕ
u64_of_int (pos n) = n % 2 ^ 64
u64_of_int (negsuc n) = 2 ^ 64 - 1 - n % 2 ^ 64

-- `a + b` on `int`, which wraps.
infixl 65 ◌+int◌
unfoldable pub ◌+int◌ : ℤ → ℤ → ℤ
unfolding int_of_u64 u64_of_int ◌+ℤ◌
a +int b = int_of_u64 (u64_of_int (a +ℤ b))

-- Where the sum lies in the range of an `int`, nothing wraps.
pub +int-eq_+ℤ :
    (a b : ℤ) → negsuc (2 ^ 63 - 1) ≤ℤ (a +ℤ b) → (a +ℤ b) ≤ℤ pos (2 ^ 63 - 1) → a +int b ≡ a +ℤ b
unfolding ◌+int◌
+int-eq_+ℤ a b lo hi = ground arith
