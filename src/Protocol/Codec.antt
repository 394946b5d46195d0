-- ===== src/Protocol/Codec.antt =====
-- net/protocol/codec.go: the four codecs without a length field. `none` stands for a nil slice.
use zput_net_golang.Prelude.{
  ℕ, zero, suc, ◌+◌, ◌%◌, List, [], ◌∷◌, ◌++◌, length, take, ◌==◌, if◌then◌else◌, Option, none,
  some, ℤ, pos, negsuc,
}
use zput_net_golang.Protocol.Errors.{
  Outcome, returned, failed, panicked, invalid_fixed_length, unexpected_eof, delimiter_not_found,
  crlf_not_found,
}
use zput_net_golang.Protocol.Conn.{Conn}

-- The interface `ICodec`, over a connection of type `S`. `decode` may answer a nil frame with no
-- error. The connection that `Encode` is handed is used by no codec of the file.
pub record ICodec (S : Type 0) : Type 0 where
  pub encode : List ℕ → Outcome (List ℕ)
  pub decode : S → Outcome (Option (List ℕ)) × S

-- `CRLFByte`
abbrev pub crlf_byte : ℕ
crlf_byte = 10

-- `bytes.IndexByte`; `none` is -1.
unfoldable pub index_byte : List ℕ → ℕ → Option ℕ
index_byte [] c = none
index_byte (b ∷ bs) c =
    if b == c then some 0 else elim (index_byte bs c) [ none ↦ none | some i ↦ some (suc i) ]

unfoldable pub builtin_encode : List ℕ → Outcome (List ℕ)
builtin_encode buf = returned buf

unfoldable pub line_encode : List ℕ → Outcome (List ℕ)
line_encode buf = returned (buf ++ (crlf_byte ∷ []))

unfoldable pub delimiter_encode : ℕ → List ℕ → Outcome (List ℕ)
delimiter_encode delimiter buf = returned (buf ++ (delimiter ∷ []))

-- Go's `%` by 0 panics; its result is 0 exactly when the magnitude divides.
unfoldable pub fixed_encode : ℤ → List ℕ → Outcome (List ℕ)
fixed_encode (pos zero) buf = panicked
fixed_encode (pos (suc n)) buf =
    if length buf % suc n == 0 then returned buf else failed invalid_fixed_length
fixed_encode (negsuc n) buf =
    if length buf % suc n == 0 then returned buf else failed invalid_fixed_length

module _ {S : Type 0} (conn : Conn S) where
  unfoldable pub builtin_decode : S → Outcome (Option (List ℕ)) × S
  builtin_decode c =
      let (buf, c1) = conn.read c in
      let c2 = conn.reset_buffer c1 in (returned (if length buf == 0 then none else some buf), c2)

  unfoldable pub line_decode : S → Outcome (Option (List ℕ)) × S
  line_decode c =
      let (buf, c1) = conn.read c in
      elim (index_byte buf crlf_byte) [
        | none ↦ (failed crlf_not_found, c1)
        | some idx ↦
            let c2 = (conn.shift_n c1 (pos (idx + 1))).1 in (returned (some (take idx buf)), c2)
      ]

  unfoldable pub delimiter_decode : ℕ → S → Outcome (Option (List ℕ)) × S
  delimiter_decode delimiter c =
      let (buf, c1) = conn.read c in
      elim (index_byte buf delimiter) [
        | none ↦ (failed delimiter_not_found, c1)
        | some idx ↦
            let c2 = (conn.shift_n c1 (pos (idx + 1))).1 in (returned (some (take idx buf)), c2)
      ]

  unfoldable pub fixed_decode : ℤ → S → Outcome (Option (List ℕ)) × S
  fixed_decode frame_length c =
      let ((size, buf), c1) = conn.read_n c frame_length in
      if size == 0
      then (failed unexpected_eof, c1)
      else (returned (some buf), (conn.shift_n c1 (pos size)).1)

  -- The four types with their methods, as values of the interface.
  unfoldable pub builtin_codec : ICodec S
  unfolding builtin_encode builtin_decode
  builtin_codec = record { encode = builtin_encode; decode = builtin_decode }

  unfoldable pub line_codec : ICodec S
  unfolding line_encode line_decode
  line_codec = record { encode = line_encode; decode = line_decode }

  unfoldable pub delimiter_codec : ℕ → ICodec S
  unfolding delimiter_encode delimiter_decode
  delimiter_codec delimiter = record {
    encode = delimiter_encode delimiter;
    decode = delimiter_decode delimiter;
  }

  unfoldable pub fixed_codec : ℤ → ICodec S
  unfolding fixed_encode fixed_decode
  fixed_codec frame_length = record {
    encode = fixed_encode frame_length;
    decode = fixed_decode frame_length;
  }
