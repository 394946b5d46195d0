-- ===== src/Connect/Codecs.antt =====
-- The codecs of net/protocol/codec.go over a connection of net/connect/connect.go: decoding changes
-- nothing of it but the bytes that wait to be read.
use zput_net_golang.Prelude.{ℕ, ◌≡◌, ◌≢◌, arith, List, length, Option-cases, inl, inr, ℤ, pos, ◌+◌}
use zput_net_golang.Outside.RingBuffer.{RingBuffer}
use zput_net_golang.Protocol.Errors.{Error, panicked}
use zput_net_golang.Protocol.Codec.{
  builtin_codec, builtin_encode, builtin_decode, line_codec, line_decode, line_encode,
  delimiter_codec, delimiter_decode, fixed_codec, fixed_decode, index_byte, crlf_byte,
}
use zput_net_golang.Protocol.LengthField.{
  EncoderConfig, DecoderConfig, length_field_codec, length_field_decode, full_message,
}
use zput_net_golang.Protocol.Framing.{crash, delimited_framer, builtin_framer, fixed_framer}
use zput_net_golang.Protocol.Framing.Refine.{Outcome-cases}
use zput_net_golang.Connect.State.{Connect}
use zput_net_golang.Connect.Buffers.{connect_conn, read, reset_buffer, read_n, shift_n}
use zput_net_golang.Connect.Methods.Replies.{ReadsOnly}

-- Neither the delimiter codecs, nor the built-in one, nor that of a fixed length panics in decoding.
pub delimited_sound : (e : Error) (d : ℕ) (xs : List ℕ) (k : ℕ) → delimited_framer e d xs ≢ crash k
unfolding delimited_framer
delimited_sound e d xs k h = elim (Option-cases (index_byte xs d)) [
  | inl q ↦ ground (arith, q)
  | inr (i, q) ↦ ground (arith, q)
]

pub builtin_sound : (xs : List ℕ) (k : ℕ) → builtin_framer xs ≢ crash k
unfolding builtin_framer
builtin_sound xs k h = ground arith

pub fixed_sound : (n : ℤ) (xs : List ℕ) (k : ℕ) → fixed_framer n xs ≢ crash k
unfolding fixed_framer
fixed_sound n xs k h = ground arith

pub line_encode_sound : (xs : List ℕ) → line_encode xs ≢ panicked
unfolding line_encode
line_encode_sound xs h = cc

pub builtin_encode_sound : (xs : List ℕ) → builtin_encode xs ≢ panicked
unfolding builtin_encode
builtin_encode_sound xs h = cc

module _ (R : RingBuffer) where
  -- What the methods of `Conn` leave alone.
  abbrev Same : Connect R.Buf → Connect R.Buf → Type 0
  Same c c' =
      (c'.out_buffer ≡ c.out_buffer) × (c'.fd ≡ c.fd) × (c'.state ≡ c.state) × (c'.event ≡ c.event)

  read-Same : (c : Connect R.Buf) → Same c (read R c).1
  unfolding read
  read-Same c = ground arith

  read_n-Same : (c : Connect R.Buf) (n : ℤ) → Same c (read_n R c n).1
  unfolding read_n
  read_n-Same c n = ground arith

  shift_n-Same : (c : Connect R.Buf) (n : ℤ) → Same c (shift_n R c n).1
  unfolding shift_n reset_buffer
  shift_n-Same c n = ground arith

  builtin-Same : (c : Connect R.Buf) → Same c ((builtin_codec (connect_conn R)).decode c).1
  unfolding builtin_codec builtin_decode connect_conn reset_buffer
  builtin-Same c = ground (arith, read-Same c)

  delimiter-Same :
      (d : ℕ) (c : Connect R.Buf) → Same c ((delimiter_codec (connect_conn R) d).decode c).1
  unfolding delimiter_codec delimiter_decode connect_conn
  delimiter-Same d c = elim (Option-cases (index_byte (read R c).0 d)) [
    | inl e ↦ ground (arith, e, read-Same c)
    | inr (i, e) ↦ ground (arith, e, read-Same c, shift_n-Same (read R c).1 (pos (i + 1)))
  ]

  line-Same : (c : Connect R.Buf) → Same c ((line_codec (connect_conn R)).decode c).1
  unfolding line_codec line_decode connect_conn
  line-Same c = elim (Option-cases (index_byte (read R c).0 crlf_byte)) [
    | inl e ↦ ground (arith, e, read-Same c)
    | inr (i, e) ↦ ground (arith, e, read-Same c, shift_n-Same (read R c).1 (pos (i + 1)))
  ]

  fixed-Same : (n : ℤ) (c : Connect R.Buf) → Same c ((fixed_codec (connect_conn R) n).decode c).1
  unfolding fixed_codec fixed_decode connect_conn
  fixed-Same n c =
      ground (arith, read_n-Same c n, shift_n-Same (read_n R c n).1 (pos (read_n R c n).0.0))

  length_field-Same :
      (ec : EncoderConfig) (dc : DecoderConfig) (c : Connect R.Buf)
      → Same c ((length_field_codec (connect_conn R) ec dc).decode c).1
  unfolding length_field_codec length_field_decode connect_conn
  length_field-Same ec dc c = elim (Outcome-cases (full_message dc (read R c).0)) [
    | inl (m, e) ↦ ground (arith, e, read-Same c, shift_n-Same (read R c).1 (pos (length m)))
    | inr (inl (d, e)) ↦ ground (arith, e, read-Same c)
    | inr (inr e) ↦ ground (arith, e, read-Same c)
  ]

  pub line-ReadsOnly : ReadsOnly (line_codec (connect_conn R))
  line-ReadsOnly = record {
    out_same = λ c. (line-Same c).0;
    fd_same = λ c. (line-Same c).1;
    state_same = λ c. (line-Same c).2;
    event_same = λ c. (line-Same c).3;
  }

  pub builtin-ReadsOnly : ReadsOnly (builtin_codec (connect_conn R))
  builtin-ReadsOnly = record {
    out_same = λ c. (builtin-Same c).0;
    fd_same = λ c. (builtin-Same c).1;
    state_same = λ c. (builtin-Same c).2;
    event_same = λ c. (builtin-Same c).3;
  }

  pub length_field-ReadsOnly :
      (ec : EncoderConfig) (dc : DecoderConfig)
      → ReadsOnly (length_field_codec (connect_conn R) ec dc)
  length_field-ReadsOnly ec dc = record {
    out_same = λ c. (length_field-Same ec dc c).0;
    fd_same = λ c. (length_field-Same ec dc c).1;
    state_same = λ c. (length_field-Same ec dc c).2;
    event_same = λ c. (length_field-Same ec dc c).3;
  }
