-- ===== src/Protocol/LengthField.antt =====
-- net/protocol/codec.go: the codec with a length field. An `int` is an integer whose sums wrap at
-- 64 bits; a length of a slice is a natural number.
pub mod Prefix
pub mod Safe
pub mod Bytes
use zput_net_golang.Prelude.{
  ℕ, zero, suc, ◌*◌, ◌/◌, ◌%◌, ◌^◌, bit_or, Bool, false, List, [], ◌∷◌, ◌++◌, length, take, drop,
  ltb, leb, ◌==◌, if◌then◌else◌, Option, some, ℤ, pos, negsuc, ◌+int◌, int_of_u64,
}
use zput_net_golang.Protocol.Errors.{
  Outcome, returned, failed, panicked, ◌>>=◌, or_fail, unexpected_eof, unsupported_length,
  too_less_length, does_not_fit, invalid_length, exceeding_length,
}
use zput_net_golang.Protocol.Conn.{Conn}
use zput_net_golang.Protocol.Codec.{ICodec}
use zput_net_golang.Protocol.ByteOrder.{ByteOrder, big_endian, little_endian, put_uint, uint}

pub record EncoderConfig : Type 0 where
  pub byte_order : ByteOrder
  pub length_field_length : ℤ
  pub length_adjustment : ℤ
  pub length_includes_length_field_length : Bool

pub record DecoderConfig : Type 0 where
  pub byte_order : ByteOrder
  pub length_field_offset : ℤ
  pub length_field_length : ℤ
  pub length_adjustment : ℤ
  pub initial_bytes_to_strip : ℤ

-- A `case` of a `switch` on an `int`.
abbrev pub is_int : ℤ → ℕ → Bool
is_int (pos n) k = n == k
is_int (negsuc n) k = false

-- `v` is not negative where the codec calls it; `byte(v)` keeps the low eight bits.
unfoldable pub write_uint24 : ByteOrder → ℕ → List ℕ
write_uint24 little_endian v = v % 256 ∷ v / 2 ^ 8 % 256 ∷ v / 2 ^ 16 % 256 ∷ []
write_uint24 big_endian v = v / 2 ^ 16 % 256 ∷ v / 2 ^ 8 % 256 ∷ v % 256 ∷ []

-- `_ = b[2]` panics on a shorter slice.
unfoldable pub read_uint24 : ByteOrder → List ℕ → Outcome ℕ
read_uint24 little_endian (b0 ∷ b1 ∷ b2 ∷ bs) =
    returned (bit_or (bit_or b0 (b1 * 2 ^ 8)) (b2 * 2 ^ 16))
read_uint24 big_endian (b0 ∷ b1 ∷ b2 ∷ bs) =
    returned (bit_or (bit_or b2 (b1 * 2 ^ 8)) (b0 * 2 ^ 16))
read_uint24 _ _ = panicked

-- The `switch` of `Encode`, at a length that is not negative.
unfoldable pub length_field : ByteOrder → ℤ → ℕ → Outcome (List ℕ)
length_field order width len =
    if is_int width 1
    then (if leb 256 len then failed (does_not_fit 1) else returned (len % 256 ∷ []))
    else if is_int width 2
    then (if leb 65536 len
        then failed (does_not_fit 2)
        else returned (put_uint order 2 (len % 2 ^ 16)))
    else if is_int width 3
    then (if leb 16777216 len then failed (does_not_fit 3) else returned (write_uint24 order len))
    else if is_int width 4
    then returned (put_uint order 4 (len % 2 ^ 32))
    else if is_int width 8
    then returned (put_uint order 8 (len % 2 ^ 64))
    else failed unsupported_length

-- The number that `Encode` writes.
unfoldable pub encoded_length : EncoderConfig → ℕ → ℤ
encoded_length ec len =
    let adjusted = pos len +int ec.length_adjustment in
    if ec.length_includes_length_field_length
    then adjusted +int ec.length_field_length
    else adjusted

unfoldable pub length_field_encode : EncoderConfig → List ℕ → Outcome (List ℕ)
length_field_encode ec buf = elim (encoded_length ec (length buf)) [
  | negsuc n ↦ failed too_less_length
  | pos n ↦ length_field ec.byte_order ec.length_field_length n >>= λ out. returned (out ++ buf)
]

-- `innerBuffer.readN`: the bytes read, and the buffer behind them.
unfoldable pub inner_read_n : List ℕ → ℤ → Outcome (List ℕ × List ℕ)
inner_read_n buf (pos zero) = failed invalid_length
inner_read_n buf (pos (suc n)) =
    if ltb (length buf) (suc n)
    then failed exceeding_length
    else returned (take (suc n) buf, drop (suc n) buf)
inner_read_n buf (negsuc n) = failed invalid_length

-- `b[0]`
unfoldable pub first_byte : List ℕ → Outcome ℕ
first_byte [] = panicked
first_byte (b ∷ bs) = returned b

-- A `case` of `getUnadjustedFrameLength`: the bytes of the length field, its value, and the buffer
-- behind it.
unfoldable pub length_case : ℕ → (List ℕ → Outcome ℕ) → List ℕ → Outcome (List ℕ × ℕ × List ℕ)
length_case width decode_length buf = or_fail unexpected_eof (inner_read_n buf (pos width)) >>= λ r.
    decode_length r.0 >>= λ v. returned (r.0, v, r.1)

unfoldable pub unadjusted_frame_length : DecoderConfig → List ℕ → Outcome (List ℕ × ℕ × List ℕ)
unadjusted_frame_length dc buf =
    if is_int dc.length_field_length 1
    then length_case 1 first_byte buf
    else if is_int dc.length_field_length 2
    then length_case 2 (λ b. returned (uint dc.byte_order b)) buf
    else if is_int dc.length_field_length 3
    then length_case 3 (read_uint24 dc.byte_order) buf
    else if is_int dc.length_field_length 4
    then length_case 4 (λ b. returned (uint dc.byte_order b)) buf
    else if is_int dc.length_field_length 8
    then length_case 8 (λ b. returned (uint dc.byte_order b)) buf
    else failed unsupported_length

-- The bytes before the length field, and the buffer behind them.
unfoldable pub discard_header : ℤ → List ℕ → Outcome (List ℕ × List ℕ)
discard_header (pos zero) buf = returned ([], buf)
discard_header (pos (suc n)) buf = or_fail unexpected_eof (inner_read_n buf (pos (suc n)))
discard_header (negsuc n) buf = returned ([], buf)

-- `Decode` up to `ShiftN`: the whole message, with its header and its length field.
unfoldable pub full_message : DecoderConfig → List ℕ → Outcome (List ℕ)
full_message dc buf = discard_header dc.length_field_offset buf >>= λ h.
    unadjusted_frame_length dc h.1 >>= λ l.
    or_fail unexpected_eof (inner_read_n l.2 (int_of_u64 l.1 +int dc.length_adjustment)) >>= λ m.
    returned (h.0 ++ (l.0 ++ m.0))

-- `fullMessage[n:]`, which panics out of range.
unfoldable pub slice_from : ℤ → List ℕ → Outcome (Option (List ℕ))
slice_from (pos n) xs = if ltb (length xs) n then panicked else returned (some (drop n xs))
slice_from (negsuc n) xs = panicked

module _ {S : Type 0} (conn : Conn S) where
  unfoldable pub length_field_decode : DecoderConfig → S → Outcome (Option (List ℕ)) × S
  length_field_decode dc c =
      let (buf, c1) = conn.read c in
      elim (full_message dc buf) [
        | returned full ↦
            (slice_from dc.initial_bytes_to_strip full, (conn.shift_n c1 (pos (length full))).1)
        | failed e ↦ (failed e, c1)
        | panicked ↦ (panicked, c1)
      ]

  unfoldable pub length_field_codec : EncoderConfig → DecoderConfig → ICodec S
  unfolding length_field_encode length_field_decode
  length_field_codec ec dc = record {
    encode = length_field_encode ec;
    decode = length_field_decode dc;
  }
