-- ===== src/Protocol/Framing/LengthFields.antt =====
-- The length-field codec of net/protocol/codec.go: what an encoder writes, a decoder with a matching
-- configuration reads back; and the message that it cannot carry.
use mathlib.Core.List.{flatten}
use zput_net_golang.Prelude.{
  ℕ, ◌^◌, ◌<◌, ◌≡◌, refl, sym, ap, ◌∙◌, arith, List, [], ◌∷◌, ◌++◌, append_assoc, append-nil,
  length, length-append, All, some, ℤ, pos, ◌+int◌, int_of_u64,
}
use zput_net_golang.Protocol.Errors.{Error, returned, failed, unexpected_eof}
use zput_net_golang.Protocol.LengthField.{
  EncoderConfig, DecoderConfig, length_field, encoded_length, length_field_encode, inner_read_n,
  unadjusted_frame_length, discard_header, full_message, slice_from,
}
use zput_net_golang.Protocol.Framing.{deliver, fault, length_field_framer}
use zput_net_golang.Protocol.Framing.Framers.{
  length_field_framer-IsProductive, length_field_framer-IsStable,
}
use zput_net_golang.Protocol.Framing.Stream.{drained, feed, feed-eq-drained, nil-IsOver, IsOver}
use zput_net_golang.Protocol.Framing.RoundTrip.{sent, written, drop-length, feed-sent}
use zput_net_golang.Protocol.Framing.Fields.{IsWidth, inner_read_n-front, field_roundtrip}

-- Configurations of a peer's encoder and of the decoder that fit one another: the length field comes
-- first, in the same order and width, and is stripped.
pub record Matches (ec : EncoderConfig) (dc : DecoderConfig) (w : ℕ) : Type 0 where
  pub width : IsWidth w
  pub order : ec.byte_order ≡ dc.byte_order
  pub encoder_width : ec.length_field_length ≡ pos w
  pub decoder_width : dc.length_field_length ≡ pos w
  pub offset : dc.length_field_offset ≡ pos 0
  pub strip : dc.initial_bytes_to_strip ≡ pos w

-- A frame that the pair carries: it is not empty, the adjusted length fits the field, and the
-- decoder's adjustment gives the length back.
pub record Fits (ec : EncoderConfig) (dc : DecoderConfig) (w : ℕ) (f : List ℕ) : Type 0 where
  pub number : ℕ
  pub counted : encoded_length ec (length f) ≡ pos number
  pub small : number < 256 ^ w
  pub restored : int_of_u64 number +int dc.length_adjustment ≡ pos (length f)
  pub nonempty : 0 < length f

framer_of_message :
    (dc : DecoderConfig) (xs : List ℕ) {full f : List ℕ}
    → full_message dc xs ≡ returned full
    → slice_from dc.initial_bytes_to_strip full ≡ returned (some f)
    → length_field_framer dc xs ≡ deliver f (length full)
unfolding length_field_framer
framer_of_message dc xs e k = ground arith

framer_of_failure :
    (dc : DecoderConfig) (xs : List ℕ) {e : Error}
    → full_message dc xs ≡ failed e
    → length_field_framer dc xs ≡ fault e
unfolding length_field_framer
framer_of_failure dc xs e = ground arith

module _ {ec : EncoderConfig} {dc : DecoderConfig} {w : ℕ} (m : Matches ec dc w) where
  encoded :
      (f bytes : List ℕ) (n : ℕ)
      → encoded_length ec (length f) ≡ pos n
      → length_field dc.byte_order dc.length_field_length n ≡ returned bytes
      → length_field_encode ec f ≡ returned (bytes ++ f)
  unfolding length_field_encode
  encoded f bytes n c e = ground (arith, m.order, m.encoder_width, m.decoder_width)

  discard_nothing : (xs : List ℕ) → discard_header dc.length_field_offset xs ≡ returned ([], xs)
  unfolding discard_header
  discard_nothing xs = ap (λ (z : ℤ). discard_header z xs) m.offset

  message :
      (f ys bytes : List ℕ) (n : ℕ)
      → unadjusted_frame_length dc (bytes ++ (f ++ ys)) ≡ returned (bytes, n, f ++ ys)
      → int_of_u64 n +int dc.length_adjustment ≡ pos (length f)
      → 0 < length f
      → full_message dc ((bytes ++ f) ++ ys) ≡ returned (bytes ++ f)
  unfolding full_message
  message [] ys bytes n u r k = absurd (omega arith)
  message (x ∷ f) ys bytes n u r k =
      rw (append_assoc bytes (x ∷ f) ys, discard_nothing (bytes ++ (x ∷ f ++ ys)), u, front)
    where
      front :
          inner_read_n (x ∷ f ++ ys) (int_of_u64 n +int dc.length_adjustment) ≡ returned (x ∷ f, ys)
      front = ap (inner_read_n (x ∷ f ++ ys)) r ∙ inner_read_n-front (x ∷ f) ys (length f) refl

  stripped_bytes :
      (bytes f : List ℕ)
      → length bytes ≡ w
      → slice_from dc.initial_bytes_to_strip (bytes ++ f) ≡ returned (some f)
  unfolding slice_from
  stripped_bytes bytes f h =
      ap (λ (z : ℤ). slice_from z (bytes ++ f)) (m.strip ∙ ap pos (sym h))
      ∙ ground (arith, length-append bytes f, drop-length bytes f)

  reads :
      (f ys : List ℕ)
      → Fits ec dc w f
      → length_field_framer dc (written (length_field_encode ec f) ++ ys)
        ≡ deliver f (length (written (length_field_encode ec f)))
  reads f ys v =
      let (bytes, c) = field_roundtrip dc w v.number (f ++ ys) m.width m.decoder_width v.small in
      let (e, u, k) = c in
      rw (encoded f bytes v.number v.counted e) (
        framer_of_message dc _ (message f ys bytes v.number u v.restored v.nonempty)
          (stripped_bytes bytes f k))

  -- Frames that fit, encoded one after the other, are delivered in order however the bytes are cut
  -- into pieces, and what follows them is left as long as it holds no whole frame.
  pub length_field_roundtrip :
      (fs pieces : List (List ℕ)) (tail : List ℕ)
      → All (Fits ec dc w) fs
      → IsOver (length_field_framer dc tail)
      → flatten pieces ≡ sent (length_field_encode ec) fs ++ tail
      → feed (length_field_framer dc) [] pieces
        ≡ record { frames = fs; rest = tail; verdict = length_field_framer dc tail }
  length_field_roundtrip fs pieces tail h o e =
      feed-sent (length_field_framer dc) (length_field_framer-IsProductive dc)
        (length_field_framer-IsStable dc) (length_field_encode ec) (Fits ec dc w) reads fs pieces
        tail h o e

  -- With a pair of configurations that match, an empty frame whose adjusted length fits the field, and that the decoder's adjustment takes back to
  -- 0, is encoded without an error; on its bytes, whatever follows, the framer answers that there is not
  -- enough data.
  pub empty_frame_stuck :
      (n : ℕ) (ys : List ℕ)
      → encoded_length ec 0 ≡ pos n
      → n < 256 ^ w
      → int_of_u64 n +int dc.length_adjustment ≡ pos 0
      → (bytes : List ℕ) × (length_field_encode ec [] ≡ returned bytes)
        × (length_field_framer dc (bytes ++ ys) ≡ fault unexpected_eof)
  unfolding full_message inner_read_n
  empty_frame_stuck n ys c h r =
      let (bytes, carried) = field_roundtrip dc w n ys m.width m.decoder_width h in
      (
        bytes,
        encoded [] bytes n c carried.0 ∙ ap returned (append-nil bytes),
        framer_of_failure dc _ (stuck bytes carried.1),
      )
    where
      stuck :
          (bytes : List ℕ)
          → unadjusted_frame_length dc (bytes ++ ys) ≡ returned (bytes, n, ys)
          → full_message dc (bytes ++ ys) ≡ failed unexpected_eof
      stuck bytes u = rw (discard_nothing (bytes ++ ys), u, r)

-- How the bytes are cut into pieces does not show: whatever the decoder's configuration and the
-- bytes, the frames found piece by piece, the bytes left and the last verdict are those of the whole.
pub pieces_lem :
    (dc : DecoderConfig) (pieces : List (List ℕ))
    → feed (length_field_framer dc) [] pieces ≡ drained (length_field_framer dc) (flatten pieces)
pieces_lem dc pieces =
    feed-eq-drained (length_field_framer dc) (length_field_framer-IsProductive dc)
      (length_field_framer-IsStable dc) [] pieces
      (nil-IsOver (length_field_framer dc) (length_field_framer-IsProductive dc))
