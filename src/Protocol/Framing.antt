-- ===== src/Protocol/Framing.antt =====
-- What net/protocol/codec.go promises, without a connection: a codec reads a stream of bytes through
-- a framer, a function that finds the next frame at the front of the bytes at hand.
pub mod Refine
pub mod Stream
pub mod Framers
pub mod RoundTrip
pub mod Delimited
pub mod Sound
pub mod Fields
pub mod LengthFields
use zput_net_golang.Prelude.{
  ℕ, zero, suc, ◌+◌, ◌≤◌, ◌<◌, ◌≡◌, List, [], ◌∷◌, ◌++◌, length, take, drop, ◌==◌, if◌then◌else◌,
  Option, none, some, ℤ,
}
use zput_net_golang.Protocol.Errors.{Error, Outcome, returned, failed, panicked, unexpected_eof}
use zput_net_golang.Protocol.Conn.{Conn, covered}
use zput_net_golang.Protocol.Codec.{ICodec, index_byte}
use zput_net_golang.Protocol.LengthField.{DecoderConfig, full_message, slice_from}

-- `deliver f k`: the frame `f`, for which `k` bytes are taken. `crash k`: a panic, `k` bytes taken.
pub data Verdict : Type 0 where
  deliver : List ℕ → ℕ → Verdict
  quiet : Verdict
  fault : Error → Verdict
  crash : ℕ → Verdict

abbrev pub Framer : Type 0
Framer = List ℕ → Verdict

unfoldable pub builtin_framer : Framer
builtin_framer xs = if length xs == 0 then quiet else deliver xs (length xs)

unfoldable pub delimited_framer : Error → ℕ → Framer
delimited_framer e delimiter xs = elim (index_byte xs delimiter) [
  | none ↦ fault e
  | some i ↦ deliver (take i xs) (i + 1)
]

unfoldable pub fixed_framer : ℤ → Framer
fixed_framer n xs =
    if covered n (length xs) == 0
    then fault unexpected_eof
    else deliver (take (covered n (length xs)) xs) (covered n (length xs))

-- The frame that is left of a message of `k` bytes.
abbrev pub stripped : Outcome (Option (List ℕ)) → ℕ → Verdict
stripped (returned (some f)) k = deliver f k
stripped (returned none) k = crash k
stripped (failed e) k = fault e
stripped panicked k = crash k

unfoldable pub length_field_framer : DecoderConfig → Framer
length_field_framer dc xs = elim (full_message dc xs) [
  | returned full ↦ stripped (slice_from dc.initial_bytes_to_strip full) (length full)
  | failed e ↦ fault e
  | panicked ↦ crash 0
]

-- What `Decode` returns, and what is left of the stream.
abbrev pub answer : Verdict → Outcome (Option (List ℕ))
answer (deliver f k) = returned (some f)
answer quiet = returned none
answer (fault e) = failed e
answer (crash k) = panicked

abbrev pub remaining : Verdict → List ℕ → List ℕ
remaining (deliver f k) xs = drop k xs
remaining quiet xs = xs
remaining (fault e) xs = xs
remaining (crash k) xs = drop k xs

-- The contract between a codec and its framer, over a stream seen as `pending`.
pub record Decodes {S : Type 0} (codec : ICodec S) (pending : S → List ℕ) (F : Framer)
    : Type 0 where
  pub answers : (s : S) → (codec.decode s).0 ≡ answer (F (pending s))
  pub leaves : (s : S) → pending (codec.decode s).1 ≡ remaining (F (pending s)) (pending s)

-- A frame takes at least one byte and no more than there are.
abbrev pub IsProductive : Framer → Type 0
IsProductive F = (xs f : List ℕ) (k : ℕ) → F xs ≡ deliver f k → (0 < k) × (k ≤ length xs)

-- A frame that was found is found again when more bytes follow.
abbrev pub IsStable : Framer → Type 0
IsStable F = (xs ys f : List ℕ) (k : ℕ) → F xs ≡ deliver f k → F (xs ++ ys) ≡ deliver f k
