-- ===== src/Protocol/Framing/Fields.antt =====
-- The length field of net/protocol/codec.go: a number that is written into it is read back from it.
use zput_net_golang.Prelude.{
  ℕ, suc, ◌+◌, ◌*◌, ◌/◌, ◌%◌, ◌^◌, ◌<◌, ◌≡◌, refl, ap, ◌∙◌, ◌⊎◌, inl, inr, arith, bit_or,
  bit_or_disjoint, List, [], ◌∷◌, ◌++◌, length, length-append, pos,
}
use zput_net_golang.Protocol.Errors.{Outcome, returned}
use zput_net_golang.Protocol.ByteOrder.{ByteOrder, big_endian, little_endian, put_uint, uint}
use zput_net_golang.Protocol.ByteOrder.Laws.{length-put_uint, uint-put_uint}
use zput_net_golang.Protocol.LengthField.{
  DecoderConfig, write_uint24, read_uint24, length_field, inner_read_n, first_byte, length_case,
  unadjusted_frame_length,
}
use zput_net_golang.Protocol.Framing.RoundTrip.{take-length, drop-length}

-- The widths that the codec supports.
abbrev pub IsWidth : ℕ → Type 0
IsWidth w = (w ≡ 1) ⊎ (w ≡ 2) ⊎ (w ≡ 3) ⊎ (w ≡ 4) ⊎ (w ≡ 8)

pub inner_read_n-front :
    (xs ys : List ℕ) (n : ℕ)
    → length xs ≡ suc n
    → inner_read_n (xs ++ ys) (pos (suc n)) ≡ returned (xs, ys)
unfolding inner_read_n
inner_read_n-front xs ys n h =
    rw (← h) (ground (arith, length-append xs ys, take-length xs ys, drop-length xs ys))

split24 :
    (v : ℕ)
    → v < 2 ^ 24
    → bit_or (bit_or (v % 256) (v / 2 ^ 8 % 256 * 2 ^ 8)) (v / 2 ^ 16 % 256 * 2 ^ 16) ≡ v
split24 v h = rw (bit_or_disjoint 8 (v % 256) (v / 2 ^ 8 % 256) (omega arith)) (
    rw (bit_or_disjoint 16 (v % 256 + v / 2 ^ 8 % 256 * 2 ^ 8) (v / 2 ^ 16 % 256) (omega arith))
      (omega arith))

-- `readUint24` undoes `writeUint24`, for the 24 bits that the field holds.
pub read_uint24-write_uint24 :
    (o : ByteOrder) (v : ℕ) → v < 2 ^ 24 → read_uint24 o (write_uint24 o v) ≡ returned v
unfolding read_uint24 write_uint24
read_uint24-write_uint24 little_endian v h = ap returned (split24 v h)
read_uint24-write_uint24 big_endian v h = ap returned (split24 v h)

length-write_uint24 : (o : ByteOrder) (v : ℕ) → length (write_uint24 o v) ≡ 3
unfolding write_uint24
length-write_uint24 little_endian v = refl
length-write_uint24 big_endian v = refl

length_case-front :
    (k n : ℕ) (f : List ℕ → Outcome ℕ) (bytes ys : List ℕ)
    → length bytes ≡ suc k
    → f bytes ≡ returned n
    → length_case (suc k) f (bytes ++ ys) ≡ returned (bytes, n, ys)
unfolding length_case
length_case-front k n f bytes ys h e = rw (inner_read_n-front bytes ys k h, e)

-- A field that a number was written into.
abbrev Carries : DecoderConfig → ℕ → ℕ → List ℕ → List ℕ → Type 0
Carries dc w n ys bytes =
    (length_field dc.byte_order dc.length_field_length n ≡ returned bytes)
    × (unadjusted_frame_length dc (bytes ++ ys) ≡ returned (bytes, n, ys))
    × (length bytes ≡ w)

-- At the widths 2, 4 and 8 the field is written by the byte order.
put_uint-Carries :
    (dc : DecoderConfig) (k n : ℕ) (ys : List ℕ)
    → (k ≡ 1) ⊎ (k ≡ 3) ⊎ (k ≡ 7)
    → dc.length_field_length ≡ pos (suc k)
    → n < 256 ^ suc k
    → Carries dc (suc k) n ys (put_uint dc.byte_order (suc k) n)
unfolding length_field unadjusted_frame_length
put_uint-Carries dc k n ys c q h =
    (ground arith, ground (arith, front), length-put_uint o (suc k) n)
  where
    o : ByteOrder
    o = dc.byte_order

    front :
        length_case (suc k) (λ b. returned (uint o b)) (put_uint o (suc k) n ++ ys)
        ≡ returned (put_uint o (suc k) n, n, ys)
    front =
        length_case-front k n (λ b. returned (uint o b)) (put_uint o (suc k) n) ys
          (length-put_uint o (suc k) n) (ap returned (uint-put_uint o (suc k) n h))

byte-Carries :
    (dc : DecoderConfig) (n : ℕ) (ys : List ℕ)
    → dc.length_field_length ≡ pos 1
    → n < 256
    → Carries dc 1 n ys (n % 256 ∷ [])
unfolding length_field unadjusted_frame_length
byte-Carries dc n ys q h = (ground arith, ground (arith, front), refl)
  where
    front : length_case 1 first_byte (n % 256 ∷ [] ++ ys) ≡ returned (n % 256 ∷ [], n, ys)
    front =
        length_case-front 0 n first_byte (n % 256 ∷ []) ys refl
          (unfold first_byte in ap returned (omega arith))

uint24-Carries :
    (dc : DecoderConfig) (n : ℕ) (ys : List ℕ)
    → dc.length_field_length ≡ pos 3
    → n < 2 ^ 24
    → Carries dc 3 n ys (write_uint24 dc.byte_order n)
unfolding length_field unadjusted_frame_length
uint24-Carries dc n ys q h = (ground arith, ground (arith, front), length-write_uint24 o n)
  where
    o : ByteOrder
    o = dc.byte_order

    front :
        length_case 3 (read_uint24 o) (write_uint24 o n ++ ys) ≡ returned (write_uint24 o n, n, ys)
    front =
        length_case-front 2 n (read_uint24 o) (write_uint24 o n) ys (length-write_uint24 o n)
          (read_uint24-write_uint24 o n h)

-- What is written into the field is read back from it, and the bytes behind it are left.
pub field_roundtrip :
    (dc : DecoderConfig) (w n : ℕ) (ys : List ℕ)
    → IsWidth w
    → dc.length_field_length ≡ pos w
    → n < 256 ^ w
    → (bytes : List ℕ) × (Carries dc w n ys bytes)
field_roundtrip dc w n ys (inl e) q h =
    rw e (n % 256 ∷ [], byte-Carries dc n ys (q ∙ ap pos e) (rw e at h))
field_roundtrip dc w n ys (inr (inl e)) q h =
    rw e
      (put_uint dc.byte_order 2 n, put_uint-Carries dc 1 n ys (inl refl) (q ∙ ap pos e) (rw e at h))
field_roundtrip dc w n ys (inr (inr (inl e))) q h =
    rw e (write_uint24 dc.byte_order n, uint24-Carries dc n ys (q ∙ ap pos e) (rw e at h))
field_roundtrip dc w n ys (inr (inr (inr (inl e)))) q h = rw e (
  put_uint dc.byte_order 4 n,
  put_uint-Carries dc 3 n ys (inr (inl refl)) (q ∙ ap pos e) (rw e at h),
)
field_roundtrip dc w n ys (inr (inr (inr (inr e)))) q h = rw e (
  put_uint dc.byte_order 8 n,
  put_uint-Carries dc 7 n ys (inr (inr refl)) (q ∙ ap pos e) (rw e at h),
)
