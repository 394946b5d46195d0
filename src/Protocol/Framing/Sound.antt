-- ===== src/Protocol/Framing/Sound.antt =====
-- net/protocol/codec.go: whatever a peer sends, the length-field codec does not panic.
use zput_net_golang.Prelude.{
  ℕ, ◌+◌, ◌≤◌, ◌<◌, ◌≡◌, ◌≢◌, subst, arith, List, length, inl, inr, pos, pos_part,
}
use zput_net_golang.Protocol.Errors.{Outcome, returned, panicked}
use zput_net_golang.Protocol.LengthField.{
  EncoderConfig, DecoderConfig, full_message, slice_from, length_field, length_field_encode,
}
use zput_net_golang.Protocol.LengthField.Safe.{Gives, message-Gives}
use zput_net_golang.Protocol.Framing.{crash, length_field_framer}
use zput_net_golang.Protocol.Framing.Refine.{Outcome-cases}

-- Where no more bytes are stripped than a message has with a frame of one byte, `Decode` panics on no
-- bytes at all.
pub length_field_sound :
    (dc : DecoderConfig) (n : ℕ)
    → dc.initial_bytes_to_strip ≡ pos n
    → n ≤ pos_part dc.length_field_offset + pos_part dc.length_field_length + 1
    → (xs : List ℕ) (k : ℕ) → length_field_framer dc xs ≢ crash k
unfolding length_field_framer slice_from
length_field_sound dc n e b xs k h = elim (Outcome-cases (full_message dc xs)) [
  | inl (full, q) ↦ ground (arith, h, q, e, b, long (returned full) q)
  | inr (inl (d, q)) ↦ ground (arith, h, q)
  | inr (inr q) ↦ absurd (long panicked q)
]
  where
    long :
        (r : Outcome (List ℕ))
        → full_message dc xs ≡ r
        → Gives r (λ full.
          pos_part dc.length_field_offset + pos_part dc.length_field_length < length full)
    long r q =
        subst
          (λ t. Gives t (λ full.
            pos_part dc.length_field_offset + pos_part dc.length_field_length < length full))
          q (message-Gives dc xs)

pub length_field_encode_sound :
    (ec : EncoderConfig) (xs : List ℕ) → length_field_encode ec xs ≢ panicked
unfolding length_field_encode length_field
length_field_encode_sound ec xs h = ground arith
