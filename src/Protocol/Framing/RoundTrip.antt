-- ===== src/Protocol/Framing/RoundTrip.antt =====
-- The codecs of net/protocol/codec.go end to end: a peer that encodes frames one after the other,
-- and a decoder that reads the bytes as they arrive.
use mathlib.Core.List.{flatten}
use zput_net_golang.Prelude.{
  ℕ, ◌≡◌, refl, ap, ◌∙◌, List, [], ◌∷◌, ◌++◌, append_assoc, length, take, drop, All, append-nil,
}
use zput_net_golang.Protocol.Errors.{Outcome, returned, failed, panicked}
use zput_net_golang.Protocol.Framing.{deliver, Framer, IsProductive, IsStable}
use zput_net_golang.Protocol.Framing.Stream.{
  IsOver, drained, stopped, deliver_first, after, feed, drained_deliver, drained_over, nil-IsOver,
  feed-eq-drained,
}

-- The bytes that a call of `Encode` puts on the wire.
abbrev pub written : Outcome (List ℕ) → List ℕ
written (returned out) = out
written (failed e) = []
written panicked = []

abbrev pub sent : (List ℕ → Outcome (List ℕ)) → List (List ℕ) → List ℕ
sent encode [] = []
sent encode (f ∷ fs) = written (encode f) ++ sent encode fs

pub drop-length : {A : Type 0} (xs ys : List A) → drop (length xs) (xs ++ ys) ≡ ys
drop-length [] ys = refl
drop-length (x ∷ xs) ys = drop-length xs ys

pub take-length : {A : Type 0} (xs ys : List A) → take (length xs) (xs ++ ys) ≡ xs
take-length [] ys = refl
take-length (x ∷ xs) ys = ap (λ t. x ∷ t) (take-length xs ys)

-- A framer that reads one encoded frame reads any number of them, in any pieces.
module _ (F : Framer) (productive : IsProductive F) (stable : IsStable F)
    (encode : List ℕ → Outcome (List ℕ)) (Valid : List ℕ → Type 0)
    (reads : (f ys : List ℕ)
      → Valid f
      → F (written (encode f) ++ ys) ≡ deliver f (length (written (encode f)))) where
  drained-sent :
      (fs : List (List ℕ)) (tail : List ℕ)
      → All Valid fs
      → IsOver (F tail)
      → drained F (sent encode fs ++ tail) ≡ after fs (stopped tail (F tail))
  drained-sent [] tail h o = drained_over F productive tail o
  drained-sent (f ∷ fs) tail h o = rw (append_assoc (written (encode f)) (sent encode fs) tail) (
      drained_deliver F productive (reads f (sent encode fs ++ tail) h.0)
      ∙ ap (deliver_first f) (
          rw (drop-length (written (encode f)) (sent encode fs ++ tail))
            (drained-sent fs tail h.1 o)))

  pub feed-sent :
      (fs pieces : List (List ℕ)) (tail : List ℕ)
      → All Valid fs
      → IsOver (F tail)
      → flatten pieces ≡ sent encode fs ++ tail
      → feed F [] pieces ≡ record { frames = fs; rest = tail; verdict = F tail }
  feed-sent fs pieces tail h o e =
      feed-eq-drained F productive stable [] pieces (nil-IsOver F productive)
      ∙ ap (drained F) e
      ∙ drained-sent fs tail h o
      ∙ ap (λ (gs : List (List ℕ)). record { frames = gs; rest = tail; verdict = F tail })
          (append-nil fs)
