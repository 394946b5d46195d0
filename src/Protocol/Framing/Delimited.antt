-- ===== src/Protocol/Framing/Delimited.antt =====
-- The delimiter codecs of net/protocol/codec.go: what an encoder writes, a decoder reads back.
use mathlib.Core.List.{flatten}
use zput_net_golang.Prelude.{
  ℕ, ◌≡◌, ◌≢◌, refl, ap, ◌∙◌, arith, List, [], ◌∷◌, ◌++◌, append_assoc, length, All, ==_refl, some,
  none, length-append,
}
use zput_net_golang.Protocol.Errors.{Error, Outcome, returned, delimiter_not_found, crlf_not_found}
use zput_net_golang.Protocol.Codec.{index_byte, delimiter_encode, line_encode, crlf_byte}
use zput_net_golang.Protocol.Framing.{Verdict, deliver, fault, delimited_framer}
use zput_net_golang.Protocol.Framing.Framers.{
  delimited_framer-IsProductive, delimited_framer-IsStable,
}
use zput_net_golang.Protocol.Framing.Stream.{feed}
use zput_net_golang.Protocol.Framing.RoundTrip.{sent, take-length, feed-sent}

-- A frame that an encoder can carry: it does not hold the delimiter.
abbrev pub IsFree : ℕ → List ℕ → Type 0
IsFree d xs = All (λ x. x ≢ d) xs

index_byte-free : (d : ℕ) (xs : List ℕ) → IsFree d xs → index_byte xs d ≡ none
unfolding index_byte
index_byte-free d [] h = refl
index_byte-free d (x ∷ xs) h = ground (arith, index_byte-free d xs h.1)

index_byte-delimiter :
    (d : ℕ) (xs ys : List ℕ) → IsFree d xs → index_byte (xs ++ (d ∷ ys)) d ≡ some (length xs)
unfolding index_byte
index_byte-delimiter d [] ys h = rw (==_refl d)
index_byte-delimiter d (x ∷ xs) ys h = ground (arith, index_byte-delimiter d xs ys h.1)

module _ (e : Error) (d : ℕ) where
  tail_fault : (tail : List ℕ) → IsFree d tail → delimited_framer e d tail ≡ fault e
  unfolding delimited_framer
  tail_fault tail h = ground (arith, index_byte-free d tail h)

  reads :
      (f ys : List ℕ)
      → IsFree d f
      → delimited_framer e d (f ++ (d ∷ [] ++ ys)) ≡ deliver f (length (f ++ (d ∷ [])))
  unfolding delimited_framer
  reads f ys h =
      ground
        (arith, index_byte-delimiter d f ys h, take-length f (d ∷ ys), length-append f (d ∷ []))

  encode_roundtrip :
      (encode : List ℕ → Outcome (List ℕ))
      → ((f : List ℕ) → encode f ≡ returned (f ++ (d ∷ [])))
      → (fs pieces : List (List ℕ)) (tail : List ℕ) → All (IsFree d) fs
      → IsFree d tail
      → flatten pieces ≡ sent encode fs ++ tail
      → feed (delimited_framer e d) [] pieces
        ≡ record { frames = fs; rest = tail; verdict = fault e }
  encode_roundtrip encode writes fs pieces tail h t q =
      feed-sent (delimited_framer e d) (delimited_framer-IsProductive e d)
        (delimited_framer-IsStable e d) encode (IsFree d)
        (λ f ys free. rw (writes f, append_assoc f (d ∷ []) ys) (reads f ys free)) fs pieces tail h
        (rw (tail_fault tail t) tt) q
      ∙ ap (λ (v : Verdict). record { frames = fs; rest = tail; verdict = v }) (tail_fault tail t)

-- Frames without the delimiter, encoded one after the other and followed by an unfinished one, are
-- delivered in order however the bytes are cut into pieces, and the unfinished one is left.
pub delimiter_roundtrip :
    (d : ℕ) (fs pieces : List (List ℕ)) (tail : List ℕ)
    → All (IsFree d) fs
    → IsFree d tail
    → flatten pieces ≡ sent (delimiter_encode d) fs ++ tail
    → feed (delimited_framer delimiter_not_found d) [] pieces
      ≡ record { frames = fs; rest = tail; verdict = fault delimiter_not_found }
unfolding delimiter_encode
delimiter_roundtrip d fs pieces tail h t e =
    encode_roundtrip delimiter_not_found d (delimiter_encode d) (λ f. refl) fs pieces tail h t e

-- Lines without the line byte, encoded one after the other and followed by an unfinished one, are
-- delivered in order however the bytes are cut into pieces, and the unfinished one is left.
pub line_roundtrip :
    (fs pieces : List (List ℕ)) (tail : List ℕ)
    → All (IsFree crlf_byte) fs
    → IsFree crlf_byte tail
    → flatten pieces ≡ sent line_encode fs ++ tail
    → feed (delimited_framer crlf_not_found crlf_byte) [] pieces
      ≡ record { frames = fs; rest = tail; verdict = fault crlf_not_found }
unfolding line_encode
line_roundtrip fs pieces tail h t e =
    encode_roundtrip crlf_not_found crlf_byte line_encode (λ f. refl) fs pieces tail h t e
