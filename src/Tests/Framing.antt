-- ===== src/Tests/Framing.antt =====
-- The theorems about the codecs at concrete bytes.
use mathlib.Core.List.{flatten}
use zput_net_golang.Prelude.{
  ℕ, ℤ, ◌≡◌, refl, List, [], ◌∷◌, ◌++◌, inl, inr, arith, pos, false, ◌+int◌, ◌≢◌, length, ◌%◌, ◌+◌,
  ◌^◌,
}
use zput_net_golang.Protocol.Errors.{returned, delimiter_not_found, crlf_not_found, unexpected_eof}
use zput_net_golang.Protocol.ByteOrder.{big_endian, put_uint, uint}
use zput_net_golang.Protocol.Codec.{
  builtin_codec, line_codec, delimiter_codec, fixed_codec, crlf_byte,
}
use zput_net_golang.Protocol.LengthField.{
  EncoderConfig, DecoderConfig, encoded_length, length_field_encode, length_field_codec,
  full_message, unadjusted_frame_length, discard_header, inner_read_n, length_case, length_field,
}
use zput_net_golang.Protocol.LengthField.Bytes.{
  AreBytes, length_field_encode-AreBytes, wide_truncated,
}
use zput_net_golang.Protocol.Framing.{
  fault, Decodes, builtin_framer, delimited_framer, fixed_framer, length_field_framer,
}
use zput_net_golang.Protocol.Framing.Refine.{codec-Decodes}
use zput_net_golang.Protocol.Framing.Stream.{feed, drained}
use zput_net_golang.Protocol.Framing.LengthFields.{
  Matches, Fits, length_field_roundtrip, empty_frame_stuck, pieces_lem,
}
use zput_net_golang.Connect.Buffers.{connect_conn}
use zput_net_golang.Connect.Buffers.Stream.{pending, connect_conn-IsStream}
use zput_net_golang.Tests.Fixtures.{ring, held, ring-RingLaws}

codec-Decodes_example :
    Decodes (builtin_codec (connect_conn ring)) (pending ring held ring-RingLaws) builtin_framer
    × Decodes
        (line_codec (connect_conn ring))
        (pending ring held ring-RingLaws)
        (delimited_framer crlf_not_found crlf_byte)
    × ((d : ℕ)
        → Decodes
            (delimiter_codec (connect_conn ring) d)
            (pending ring held ring-RingLaws)
            (delimited_framer delimiter_not_found d))
    × ((n : ℤ)
        → Decodes
            (fixed_codec (connect_conn ring) n)
            (pending ring held ring-RingLaws)
            (fixed_framer n))
    × ((ec : EncoderConfig) (dc : DecoderConfig)
        → Decodes
            (length_field_codec (connect_conn ring) ec dc)
            (pending ring held ring-RingLaws)
            (length_field_framer dc))
codec-Decodes_example =
    codec-Decodes (connect_conn ring) (pending ring held ring-RingLaws)
      (connect_conn-IsStream ring held ring-RingLaws)

-- A length field of two bytes, in front of the frame.
abbrev pub writes_two : EncoderConfig
writes_two = record {
  byte_order = big_endian;
  length_field_length = pos 2;
  length_adjustment = pos 0;
  length_includes_length_field_length = false;
}

abbrev pub reads_two : DecoderConfig
reads_two = record {
  byte_order = big_endian;
  length_field_offset = pos 0;
  length_field_length = pos 2;
  length_adjustment = pos 0;
  initial_bytes_to_strip = pos 2;
}

pub two-Matches : Matches writes_two reads_two 2
two-Matches = record {
  width = inr (inl refl);
  order = refl;
  encoder_width = refl;
  decoder_width = refl;
  offset = refl;
  strip = refl;
}

pub two-Fits : Fits writes_two reads_two 2 (5 ∷ 6 ∷ [])
unfolding encoded_length ◌+int◌
two-Fits = record {
  number = 2;
  counted = refl;
  small = ground arith;
  restored = refl;
  nonempty = ground arith;
}

-- Two frames, cut in the middle of the second, and a byte of a third.
length_field_roundtrip_example :
    feed (length_field_framer reads_two) [] ((0 ∷ 2 ∷ 5 ∷ 6 ∷ 0 ∷ []) ∷ (2 ∷ 5 ∷ 6 ∷ 0 ∷ []) ∷ [])
    ≡ record {
      frames = (5 ∷ 6 ∷ []) ∷ (5 ∷ 6 ∷ []) ∷ [];
      rest = 0 ∷ [];
      verdict = length_field_framer reads_two (0 ∷ []);
    }
unfolding length_field_framer full_message discard_header unadjusted_frame_length inner_read_n
    length_field_encode encoded_length length_field put_uint length_case ◌+int◌ flatten
length_field_roundtrip_example =
    length_field_roundtrip two-Matches ((5 ∷ 6 ∷ []) ∷ (5 ∷ 6 ∷ []) ∷ [])
      ((0 ∷ 2 ∷ 5 ∷ 6 ∷ 0 ∷ []) ∷ (2 ∷ 5 ∷ 6 ∷ 0 ∷ []) ∷ []) (0 ∷ []) (two-Fits, (two-Fits, tt)) tt
      refl

pieces_lem_example :
    feed (length_field_framer reads_two) [] ((0 ∷ 2 ∷ 5 ∷ []) ∷ (6 ∷ []) ∷ [])
    ≡ drained (length_field_framer reads_two) (0 ∷ 2 ∷ 5 ∷ 6 ∷ [])
unfolding flatten
pieces_lem_example = pieces_lem reads_two ((0 ∷ 2 ∷ 5 ∷ []) ∷ (6 ∷ []) ∷ [])

empty_frame_stuck_example :
    (bytes : List ℕ) × (length_field_encode writes_two [] ≡ returned bytes)
    × (length_field_framer reads_two (bytes ++ (0 ∷ 1 ∷ 7 ∷ [])) ≡ fault unexpected_eof)
unfolding encoded_length ◌+int◌
empty_frame_stuck_example =
    empty_frame_stuck two-Matches 0 (0 ∷ 1 ∷ 7 ∷ []) refl (ground arith) refl

length_field_encode-AreBytes_example :
    (field : List ℕ) × (0 ∷ 2 ∷ 5 ∷ 6 ∷ [] ≡ field ++ (5 ∷ 6 ∷ []))
    × AreBytes (0 ∷ 2 ∷ 5 ∷ 6 ∷ [])
    × (pos (length field) ≡ pos 2)
unfolding length_field_encode encoded_length length_field put_uint ◌+int◌
length_field_encode-AreBytes_example =
    length_field_encode-AreBytes writes_two (5 ∷ 6 ∷ []) (0 ∷ 2 ∷ 5 ∷ 6 ∷ [])
      (ground arith, (ground arith, tt)) refl

-- An adjustment of 2^32 makes the number too large for four bytes.
abbrev writes_four : EncoderConfig
writes_four = record {
  byte_order = big_endian;
  length_field_length = pos 4;
  length_adjustment = pos (2 ^ 32);
  length_includes_length_field_length = false;
}

wide_truncated_example :
    (field : List ℕ) × (length_field_encode writes_four (5 ∷ 6 ∷ [])
      ≡ returned (field ++ (5 ∷ 6 ∷ [])))
    × (uint big_endian field ≡ (2 + 2 ^ 32) % 2 ^ 32)
    × (uint big_endian field ≢ 2 + 2 ^ 32)
unfolding encoded_length ◌+int◌
wide_truncated_example =
    wide_truncated writes_four (5 ∷ 6 ∷ []) (2 + 2 ^ 32) refl refl (ground arith)
