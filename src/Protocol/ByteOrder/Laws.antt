-- ===== src/Protocol/ByteOrder/Laws.antt =====
-- Numbers written in a byte order are read back, and the two 24-bit helpers of
-- net/protocol/codec.go agree with the byte orders.
use mathlib.Core.List.{reverse, reverse-cons, reverse-reverse}
use zput_net_golang.Prelude.{
  ℕ, zero, suc, ◌/◌, ◌^◌, ◌<◌, ◌≡◌, refl, ap, ◌∙◌, arith, List, [], ◌∷◌, length, length-append,
}
use native.Mathlib.Nat.{pow-suc}
use zput_net_golang.Protocol.ByteOrder.{
  ByteOrder, big_endian, little_endian, low_bytes, value, put_uint, uint,
}

length-low_bytes : (w v : ℕ) → length (low_bytes w v) ≡ w
unfolding low_bytes
length-low_bytes zero v = refl
length-low_bytes (suc w) v = ap suc (length-low_bytes w (v / 256))

length-reverse : (xs : List ℕ) → length (reverse xs) ≡ length xs
length-reverse [] = refl
length-reverse (x ∷ xs) =
    rw reverse-cons (omega (arith, length-append (reverse xs) (x ∷ []), length-reverse xs))

pub length-put_uint : (o : ByteOrder) (w v : ℕ) → length (put_uint o w v) ≡ w
unfolding put_uint
length-put_uint little_endian w v = length-low_bytes w v
length-put_uint big_endian w v = length-reverse (low_bytes w v) ∙ length-low_bytes w v

value-low_bytes : (w v : ℕ) → v < 256 ^ w → value (low_bytes w v) ≡ v
unfolding low_bytes value
value-low_bytes zero v h = omega arith
value-low_bytes (suc w) v h =
    omega (arith, value-low_bytes w (v / 256) (omega (arith, pow-suc 256 w)))

-- A number that fits `w` bytes is read back from them, in either order.
pub uint-put_uint : (o : ByteOrder) (w v : ℕ) → v < 256 ^ w → uint o (put_uint o w v) ≡ v
unfolding put_uint uint
uint-put_uint little_endian w v h = value-low_bytes w v h
uint-put_uint big_endian w v h = rw reverse-reverse (value-low_bytes w v h)
