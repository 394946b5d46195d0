-- ===== src/Protocol/Framing/Refine.antt =====
-- Each codec of net/protocol/codec.go answers by its framer and takes what the framer says, over any
-- connection that keeps the contract of `Conn`.
use zput_net_golang.Prelude.{
  ℕ, zero, suc, ◌+◌, ◌≤◌, ◌<◌, ◌≡◌, refl, ◌⊎◌, arith, List, [], length, drop, length-append,
  drop_all, ◌∷◌, Option-cases, some, inl, inr, ℤ, pos, negsuc, nil_of_length,
}
use zput_net_golang.Protocol.Errors.{
  Error, Outcome, returned, failed, panicked, crlf_not_found, delimiter_not_found,
}
use zput_net_golang.Protocol.Conn.{Conn, IsStream, covered}
use zput_net_golang.Protocol.Codec.{
  builtin_codec, line_codec, line_decode, delimiter_codec, delimiter_decode, fixed_codec,
  fixed_decode, index_byte, crlf_byte,
}
use zput_net_golang.Protocol.LengthField.{
  EncoderConfig, DecoderConfig, full_message, slice_from, length_field_codec, length_field_decode,
}
use zput_net_golang.Protocol.LengthField.Prefix.{full_message-Splits}
use zput_net_golang.Protocol.Framing.{
  Decodes, answer, remaining, stripped, builtin_framer, delimited_framer, fixed_framer,
  length_field_framer,
}

covered_exact : (n total : ℕ) → 0 < n → n ≤ total → covered (pos n) total ≡ n
covered_exact zero total h k = absurd (omega arith)
covered_exact (suc n) total h k = ground arith

pub covered-le : (n : ℤ) (total : ℕ) → covered n total ≤ total
covered-le (pos zero) total = omega arith
covered-le (pos (suc n)) total = ground arith
covered-le (negsuc n) total = omega arith

-- `bytes.IndexByte` answers an index in range.
pub index_byte-lt : (xs : List ℕ) (d i : ℕ) → index_byte xs d ≡ some i → i < length xs
unfolding index_byte
index_byte-lt [] d i h = cc
index_byte-lt (x ∷ xs) d i h = elim (Option-cases (index_byte xs d)) [
  | inl e ↦ ground (arith, e)
  | inr (j, e) ↦ ground (arith, e, index_byte-lt xs d j e)
]

pub Outcome-cases {ℓ} :
    {A : Type ℓ} (o : Outcome A)
    → ((a : A) × (o ≡ returned a)) ⊎ ((e : Error) × (o ≡ failed e)) ⊎ (o ≡ panicked)
Outcome-cases (returned a) = inl (a, refl)
Outcome-cases (failed e) = inr (inl (e, refl))
Outcome-cases panicked = inr (inr refl)

-- A message is not empty and lies within the buffer.
pub full_message-bounds :
    (dc : DecoderConfig) (xs full : List ℕ)
    → full_message dc xs ≡ returned full
    → (0 < length full) × (length full ≤ length xs)
full_message-bounds dc xs full h =
    let (rest, e, k) = full_message-Splits dc xs full h in
    (k, rw e (omega (arith, length-append full rest)))

stripped-answer :
    (n : ℤ) (full : List ℕ)
    → slice_from n full ≡ answer (stripped (slice_from n full) (length full))
unfolding slice_from
stripped-answer (pos n) full = ground arith
stripped-answer (negsuc n) full = refl

stripped-remaining :
    (n : ℤ) (full xs : List ℕ)
    → remaining (stripped (slice_from n full) (length full)) xs ≡ drop (length full) xs
unfolding slice_from
stripped-remaining (pos n) full xs = ground arith
stripped-remaining (negsuc n) full xs = refl

module _ {S : Type 0} (conn : Conn S) (pending : S → List ℕ) (stream : IsStream conn pending) where
  -- `Decode` of the built-in codec, over any connection that is a stream, answers and consumes all
  -- bytes at hand, and answers nil where there are none.
  pub builtin-Decodes : Decodes (builtin_codec conn) pending builtin_framer
  unfolding builtin_codec builtin_framer
  builtin-Decodes = record {
    answers = λ s. ground (arith, stream.read_sees s);
    leaves = λ s. ground (
      arith,
      stream.reset_empties (conn.read s).1,
      drop_all (length (pending s)) (pending s),
      nil_of_length (pending s),
    );
  }

  -- What a search for `d` does to the stream.
  shift_past :
      (s : S) (xs : List ℕ) (d i : ℕ)
      → xs ≡ pending s
      → index_byte xs d ≡ some i
      → pending (conn.shift_n (conn.read s).1 (pos (i + 1))).1 ≡ drop (i + 1) (pending s)
  shift_past s xs d i e h = ground (
    arith,
    stream.shift_n_drops (conn.read s).1 (pos (i + 1)),
    stream.read_keeps s,
    covered_exact (i + 1) (length (pending s)),
    index_byte-lt xs d i h,
  )

  -- `Decode` of the delimiter codec answers the bytes before the first delimiter and consumes the
  -- delimiter too, or answers an error and consumes nothing.
  pub delimiter-Decodes :
      (d : ℕ) → Decodes (delimiter_codec conn d) pending (delimited_framer delimiter_not_found d)
  unfolding delimiter_codec delimiter_decode delimited_framer
  delimiter-Decodes d = record {
    answers = λ s. ground (arith, stream.read_sees s);
    leaves = λ s. elim (Option-cases (index_byte (pending s) d)) [
      | inl e ↦ ground (arith, e, stream.read_sees s, stream.read_keeps s)
      | inr (i, e) ↦ ground (arith, e, stream.read_sees s, shift_past s (pending s) d i refl e)
    ];
  }

  -- `Decode` of the line codec answers the bytes before the first line byte and consumes that byte
  -- too, or answers an error and consumes nothing.
  pub line-Decodes : Decodes (line_codec conn) pending (delimited_framer crlf_not_found crlf_byte)
  unfolding line_codec line_decode delimited_framer
  line-Decodes = record {
    answers = λ s. ground (arith, stream.read_sees s);
    leaves = λ s. elim (Option-cases (index_byte (pending s) crlf_byte)) [
      | inl e ↦ ground (arith, e, stream.read_sees s, stream.read_keeps s)
      | inr (i, e) ↦
          ground (arith, e, stream.read_sees s, shift_past s (pending s) crlf_byte i refl e)
    ];
  }

  -- `Decode` of the fixed-length codec answers and consumes as many bytes as the length asks for, all
  -- there are where there are fewer, and an error where there are none.
  pub fixed-Decodes : (n : ℤ) → Decodes (fixed_codec conn n) pending (fixed_framer n)
  unfolding fixed_codec fixed_decode fixed_framer
  fixed-Decodes n = record {
    answers = λ s. ground (arith, stream.read_n_size s n, stream.read_n_sees s n);
    leaves = λ s. ground (
      arith,
      stream.read_n_size s n,
      stream.read_n_keeps s n,
      stream.shift_n_drops (conn.read_n s n).1 (pos (covered n (length (pending s)))),
      covered_exact (covered n (length (pending s))) (length (pending s)),
      covered-le n (length (pending s)),
    );
  }

  message_answer :
      (s : S) (dc : DecoderConfig) (xs : List ℕ)
      → xs ≡ pending s
      → (length_field_decode conn dc s).0 ≡ answer (length_field_framer dc xs)
  unfolding length_field_decode length_field_framer
  message_answer s dc xs e = elim (Outcome-cases (full_message dc xs)) [
    | inl (full, h) ↦
        ground (arith, h, stream.read_sees s, stripped-answer dc.initial_bytes_to_strip full)
    | inr (inl (d, h)) ↦ ground (arith, h, stream.read_sees s)
    | inr (inr h) ↦ ground (arith, h, stream.read_sees s)
  ]

  message_leaves :
      (s : S) (dc : DecoderConfig) (xs : List ℕ)
      → xs ≡ pending s
      → pending (length_field_decode conn dc s).1 ≡ remaining (length_field_framer dc xs) xs
  unfolding length_field_decode length_field_framer
  message_leaves s dc xs e = elim (Outcome-cases (full_message dc xs)) [
    | inl (full, h) ↦ ground (
      arith,
      h,
      stream.read_sees s,
      stream.read_keeps s,
      stream.shift_n_drops (conn.read s).1 (pos (length full)),
      covered_exact (length full) (length xs),
      full_message-bounds dc xs full h,
      stripped-remaining dc.initial_bytes_to_strip full xs,
    )
    | inr (inl (d, h)) ↦ ground (arith, h, stream.read_sees s, stream.read_keeps s)
    | inr (inr h) ↦ ground (arith, h, stream.read_sees s, stream.read_keeps s)
  ]

  -- `Decode` of the length-field codec answers and consumes what its framer says of the bytes at hand.
  pub length_field-Decodes :
      (ec : EncoderConfig) (dc : DecoderConfig)
      → Decodes (length_field_codec conn ec dc) pending (length_field_framer dc)
  unfolding length_field_codec
  length_field-Decodes ec dc = record {
    answers = λ s. message_answer s dc (pending s) refl;
    leaves = λ s. message_leaves s dc (pending s) refl;
  }

  -- Over a connection that is a stream, `Decode` of each of the five codecs answers and consumes what
  -- its framer says of the bytes at hand.
  pub codec-Decodes :
      Decodes (builtin_codec conn) pending builtin_framer
      × Decodes (line_codec conn) pending (delimited_framer crlf_not_found crlf_byte)
      × ((d : ℕ)
          → Decodes (delimiter_codec conn d) pending (delimited_framer delimiter_not_found d))
      × ((n : ℤ) → Decodes (fixed_codec conn n) pending (fixed_framer n))
      × ((ec : EncoderConfig) (dc : DecoderConfig)
          → Decodes (length_field_codec conn ec dc) pending (length_field_framer dc))
  codec-Decodes =
      (builtin-Decodes, line-Decodes, delimiter-Decodes, fixed-Decodes, length_field-Decodes)
