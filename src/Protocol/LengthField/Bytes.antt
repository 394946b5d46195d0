-- ===== src/Protocol/LengthField/Bytes.antt =====
-- net/protocol/codec.go: what `Encode` of the length-field codec puts in front of the data.
use mathlib.Core.List.{reverse, reverse-cons}
use zput_net_golang.Prelude.{
  ℕ, zero, suc, ◌%◌, ◌/◌, ◌^◌, ◌≤◌, ◌<◌, ◌≡◌, ◌≢◌, refl, sym, ap, ◌∙◌, arith, List, [], ◌∷◌, ◌++◌,
  length, All, inl, inr, ◌⊎◌, ℤ, pos, negsuc,
}
use zput_net_golang.Protocol.Errors.{Outcome, returned, failed, panicked}
use zput_net_golang.Protocol.ByteOrder.{
  ByteOrder, big_endian, little_endian, low_bytes, put_uint, uint,
}
use zput_net_golang.Protocol.ByteOrder.Laws.{length-put_uint, uint-put_uint}
use zput_net_golang.Protocol.LengthField.{
  EncoderConfig, write_uint24, length_field, encoded_length, length_field_encode,
}

-- A list of bytes.
abbrev pub AreBytes : List ℕ → Type 0
AreBytes xs = All (λ b. b < 256) xs

append-AreBytes : (xs ys : List ℕ) → AreBytes xs → AreBytes ys → AreBytes (xs ++ ys)
append-AreBytes [] ys h k = k
append-AreBytes (x ∷ xs) ys h k = (h.0, append-AreBytes xs ys h.1 k)

reverse-AreBytes : (xs : List ℕ) → AreBytes xs → AreBytes (reverse xs)
reverse-AreBytes [] h = tt
reverse-AreBytes (x ∷ xs) h =
    rw reverse-cons (append-AreBytes (reverse xs) (x ∷ []) (reverse-AreBytes xs h.1) (h.0, tt))

low_bytes-AreBytes : (w v : ℕ) → AreBytes (low_bytes w v)
unfolding low_bytes
low_bytes-AreBytes zero v = tt
low_bytes-AreBytes (suc w) v = (omega arith, low_bytes-AreBytes w (v / 256))

put_uint-AreBytes : (o : ByteOrder) (w v : ℕ) → AreBytes (put_uint o w v)
unfolding put_uint
put_uint-AreBytes little_endian w v = low_bytes-AreBytes w v
put_uint-AreBytes big_endian w v = reverse-AreBytes (low_bytes w v) (low_bytes-AreBytes w v)

-- A length field has the width that was asked for, and is made of bytes.
abbrev IsField : ℤ → List ℕ → Type 0
IsField w xs = AreBytes xs × (pos (length xs) ≡ w)

write_uint24-IsField : (o : ByteOrder) (v : ℕ) → IsField (pos 3) (write_uint24 o v)
unfolding write_uint24
write_uint24-IsField little_endian v = ((omega arith, (omega arith, (omega arith, tt))), refl)
write_uint24-IsField big_endian v = ((omega arith, (omega arith, (omega arith, tt))), refl)

put_uint-IsField : (o : ByteOrder) (w v : ℕ) → IsField (pos w) (put_uint o w v)
put_uint-IsField o w v = (put_uint-AreBytes o w v, ap pos (length-put_uint o w v))

-- What `length_field` can write, and at which numbers. The widths below 4 bytes are guarded.
abbrev Written : ByteOrder → ℤ → ℕ → List ℕ → Type 0
Written o w n xs =
    ((w ≡ pos 1) × (n < 2 ^ 8) × (xs ≡ n % 256 ∷ []))
    ⊎ ((w ≡ pos 2) × (n < 2 ^ 16) × (xs ≡ put_uint o 2 (n % 2 ^ 16)))
    ⊎ ((w ≡ pos 3) × (n < 2 ^ 24) × (xs ≡ write_uint24 o n))
    ⊎ ((w ≡ pos 4) × (xs ≡ put_uint o 4 (n % 2 ^ 32)))
    ⊎ ((w ≡ pos 8) × (xs ≡ put_uint o 8 (n % 2 ^ 64)))

length_field-Written :
    (o : ByteOrder) (w : ℤ) (n : ℕ) (xs : List ℕ)
    → length_field o w n ≡ returned xs
    → Written o w n xs
unfolding length_field
length_field-Written o (pos w) n xs h = ground arith
length_field-Written o (negsuc w) n xs h = ground arith

length_field-IsField :
    (o : ByteOrder) (w : ℤ) (n : ℕ) (xs : List ℕ) → length_field o w n ≡ returned xs → IsField w xs
length_field-IsField o w n xs h = elim (length_field-Written o w n xs h) [
  | inl (e, b, q) ↦ rw (e, q) ((omega arith, tt), refl)
  | inr (inl (e, b, q)) ↦ rw (e, q) (put_uint-IsField o 2 (n % 2 ^ 16))
  | inr (inr (inl (e, b, q))) ↦ rw (e, q) (write_uint24-IsField o n)
  | inr (inr (inr (inl (e, q)))) ↦ rw (e, q) (put_uint-IsField o 4 (n % 2 ^ 32))
  | inr (inr (inr (inr (e, q)))) ↦ rw (e, q) (put_uint-IsField o 8 (n % 2 ^ 64))
]

encode_header :
    (ec : EncoderConfig) (f out : List ℕ)
    → length_field_encode ec f ≡ returned out
    → (n : ℕ) × (field : List ℕ) × (encoded_length ec (length f) ≡ pos n)
      × (length_field ec.byte_order ec.length_field_length n ≡ returned field)
      × (out ≡ field ++ f)
unfolding length_field_encode
encode_header ec f out h = go (encoded_length ec (length f)) refl
  where
    go :
        (z : ℤ)
        → encoded_length ec (length f) ≡ z
        → (n : ℕ) × (field : List ℕ) × (encoded_length ec (length f) ≡ pos n)
          × (length_field ec.byte_order ec.length_field_length n ≡ returned field)
          × (out ≡ field ++ f)
    go (negsuc n) e = cc
    go (pos n) e = field_of n e (length_field ec.byte_order ec.length_field_length n) refl
      where
        field_of :
            (n : ℕ)
            → encoded_length ec (length f) ≡ pos n
            → (r : Outcome (List ℕ)) → length_field ec.byte_order ec.length_field_length n ≡ r
            → (n : ℕ) × (field : List ℕ) × (encoded_length ec (length f) ≡ pos n)
              × (length_field ec.byte_order ec.length_field_length n ≡ returned field)
              × (out ≡ field ++ f)
        field_of n e (returned field) q = (n, field, e, q, ground (arith, e, q))
        field_of n e (failed d) q = ground (arith, e, q)
        field_of n e panicked q = ground (arith, e, q)

-- Whatever `Encode` of the length-field codec returns for data made of bytes is made of bytes: a field
-- of the configured width, then the data.
pub length_field_encode-AreBytes :
    (ec : EncoderConfig) (f out : List ℕ)
    → AreBytes f
    → length_field_encode ec f ≡ returned out
    → (field : List ℕ) × (out ≡ field ++ f)
      × AreBytes out
      × (pos (length field) ≡ ec.length_field_length)
length_field_encode-AreBytes ec f out b h =
    let (n, field, counted, written, whole) = encode_header ec f out h in
    let (bytes, width) =
      length_field-IsField ec.byte_order ec.length_field_length n field written in
    (field, whole, rw whole (append-AreBytes field f bytes b), width)

-- With a field of 4 bytes there is no guard: a number that does not fit is written without an error,
-- and a peer reads its remainder by 2^32, another number.
pub wide_truncated :
    (ec : EncoderConfig) (f : List ℕ) (n : ℕ)
    → ec.length_field_length ≡ pos 4
    → encoded_length ec (length f) ≡ pos n
    → 2 ^ 32 ≤ n
    → (field : List ℕ) × (length_field_encode ec f ≡ returned (field ++ f))
      × (uint ec.byte_order field ≡ n % 2 ^ 32)
      × (uint ec.byte_order field ≢ n)
unfolding length_field_encode length_field
wide_truncated ec f n w c h = (
  put_uint ec.byte_order 4 (n % 2 ^ 32),
  ground (arith, w, c),
  read,
  λ e. omega (arith, sym read ∙ e),
)
  where
    read : uint ec.byte_order (put_uint ec.byte_order 4 (n % 2 ^ 32)) ≡ n % 2 ^ 32
    read = uint-put_uint ec.byte_order 4 (n % 2 ^ 32) (omega arith)
