-- ===== src/Protocol/Framing/Framers.antt =====
-- The framers of net/protocol/codec.go: each takes bytes for a frame, and those that look for a
-- delimiter or a length find the same frame when more bytes follow.
use zput_net_golang.Prelude.{
  ℕ, ◌≡◌, arith, List, [], ◌∷◌, ◌++◌, length, take-append_le, Option-cases, some, inl, inr, ℤ, pos,
  negsuc,
}
use zput_net_golang.Protocol.Errors.{Error}
use zput_net_golang.Protocol.Codec.{index_byte}
use zput_net_golang.Protocol.LengthField.{DecoderConfig, full_message, slice_from}
use zput_net_golang.Protocol.LengthField.Prefix.{full_message-append}
use zput_net_golang.Protocol.Framing.{
  deliver, IsProductive, IsStable, stripped, builtin_framer, delimited_framer, fixed_framer,
  length_field_framer,
}
use zput_net_golang.Protocol.Framing.Refine.{
  index_byte-lt, covered-le, full_message-bounds, Outcome-cases,
}

-- Every frame of the built-in codec takes all bytes at hand, and there is at least one.
pub builtin_framer-IsProductive : IsProductive builtin_framer
unfolding builtin_framer
builtin_framer-IsProductive xs f k h = ground arith

pub fixed_framer-IsProductive : (n : ℤ) → IsProductive (fixed_framer n)
unfolding fixed_framer
fixed_framer-IsProductive n xs f k h = ground (arith, covered-le n (length xs))

pub delimited_framer-IsProductive : (e : Error) (d : ℕ) → IsProductive (delimited_framer e d)
unfolding delimited_framer
delimited_framer-IsProductive e d xs f k h = elim (Option-cases (index_byte xs d)) [
  | inl q ↦ ground (arith, q)
  | inr (i, q) ↦ ground (arith, q, index_byte-lt xs d i q)
]

index_byte-append :
    (xs ys : List ℕ) (d i : ℕ) → index_byte xs d ≡ some i → index_byte (xs ++ ys) d ≡ some i
unfolding index_byte
index_byte-append [] ys d i h = cc
index_byte-append (x ∷ xs) ys d i h = elim (Option-cases (index_byte xs d)) [
  | inl e ↦ ground (arith, e)
  | inr (j, e) ↦ ground (arith, e, index_byte-append xs ys d j e)
]

pub delimited_framer-IsStable : (e : Error) (d : ℕ) → IsStable (delimited_framer e d)
unfolding delimited_framer
delimited_framer-IsStable e d xs ys f k h = elim (Option-cases (index_byte xs d)) [
  | inl q ↦ ground (arith, q)
  | inr (i, q) ↦
      ground
        (arith, q, index_byte-append xs ys d i q, index_byte-lt xs d i q, take-append_le i xs ys)
]

stripped-deliver :
    (n : ℤ) (full f : List ℕ) (k : ℕ)
    → stripped (slice_from n full) (length full) ≡ deliver f k
    → k ≡ length full
unfolding slice_from
stripped-deliver (pos n) full f k h = ground arith
stripped-deliver (negsuc n) full f k h = cc

pub length_field_framer-IsProductive : (dc : DecoderConfig) → IsProductive (length_field_framer dc)
unfolding length_field_framer
length_field_framer-IsProductive dc xs f k h = elim (Outcome-cases (full_message dc xs)) [
  | inl (full, e) ↦ ground (
    arith,
    e,
    full_message-bounds dc xs full e,
    stripped-deliver dc.initial_bytes_to_strip full f k,
  )
  | inr (inl (d, e)) ↦ ground (arith, e)
  | inr (inr e) ↦ ground (arith, e)
]

pub length_field_framer-IsStable : (dc : DecoderConfig) → IsStable (length_field_framer dc)
unfolding length_field_framer
length_field_framer-IsStable dc xs ys f k h = elim (Outcome-cases (full_message dc xs)) [
  | inl (full, e) ↦ ground (arith, e, full_message-append dc xs ys full e)
  | inr (inl (d, e)) ↦ ground (arith, e)
  | inr (inr e) ↦ ground (arith, e)
]
