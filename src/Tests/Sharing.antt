-- ===== src/Tests/Sharing.antt =====
-- The theorems about frames in shared memory, on a pool of the tests.
use zput_net_golang.Prelude.{ℕ, ℤ, ◌≡◌, refl, [], ◌∷◌, arith, none, some, Option}
use zput_net_golang.Protocol.Errors.{Error, Outcome, returned, crlf_not_found, delimiter_not_found}
use zput_net_golang.Protocol.Codec.{
  crlf_byte, builtin_decode, line_decode, delimiter_decode, fixed_decode, index_byte,
}
use zput_net_golang.Connect.State.{Connect}
use zput_net_golang.Connect.Buffers.{connect_conn}
use zput_net_golang.Connect.Shared.{
  Slice, in_pooled, Slices, bytes_of, read_slice, shift_n_slices, reset_slices, builtin_slice,
  delimited_slice, fixed_slice,
}
use zput_net_golang.Connect.Shared.View.{view}
use zput_net_golang.Connect.Shared.Agree.{Agrees, slices_agree}
use zput_net_golang.Connect.Shared.Freed.{Freed, frames-Freed}
use zput_net_golang.Tests.Fixtures.{Wrapped, ring, held, ring-RingLaws, established}
use zput_net_golang.Tests.Buffers.{
  Shelf, lent, stored, take_first, add_to, shelf, shelf-ByteBuffersLaws, hand_in-stored,
}

-- Two bytes of a line are kept, and its end and one byte more have come in.
abbrev waiting : Slices Wrapped
waiting = record {
  buf = 3 ∷ 10 ∷ 4 ∷ 0 ∷ [];
  temporary_start = 0;
  temporary_length = 3;
  in_buffer = (1 ∷ [], 2 ∷ []);
  byte_buffer = none;
}

abbrev base : Connect Wrapped
base = (established (record { incoming = []; room = 0; accepted = []; time = 0 })).conn

slices_agree_example :
    Agrees ring shelf base
      (builtin_decode (connect_conn ring) (view base (stored []) waiting))
      (builtin_slice ring shelf waiting [])
    × Agrees ring shelf base
        (line_decode (connect_conn ring) (view base (stored []) waiting))
        (delimited_slice ring shelf crlf_not_found crlf_byte waiting [])
    × ((d : ℕ)
        → Agrees ring shelf base
            (delimiter_decode (connect_conn ring) d (view base (stored []) waiting))
            (delimited_slice ring shelf delimiter_not_found d waiting []))
    × ((n : ℤ)
        → Agrees ring shelf base
            (fixed_decode (connect_conn ring) n (view base (stored []) waiting))
            (fixed_slice ring shelf n waiting []))
slices_agree_example =
    slices_agree ring shelf lent shelf-ByteBuffersLaws held ring-RingLaws hand_in-stored base
      waiting [] (ground arith)

frames-Freed_example :
    Freed ring shelf lent (builtin_slice ring shelf waiting [])
    × ((e : Error) (d : ℕ) → Freed ring shelf lent (delimited_slice ring shelf e d waiting []))
    × ((n : ℤ) → Freed ring shelf lent (fixed_slice ring shelf n waiting []))
frames-Freed_example = frames-Freed ring shelf lent shelf-ByteBuffersLaws waiting [] refl

-- The line decoded, and a buffer that another connection takes from the pool and writes to.
abbrev Decoded : Type 0
Decoded = Outcome (Option Slice) × Slices Wrapped × Shelf

unfoldable decoded : Decoded
unfolding delimited_slice
decoded = delimited_slice ring shelf crlf_not_found crlf_byte waiting []

abbrev taken_again : Shelf → Shelf
taken_again h = let (p, h1) = take_first h in add_to h1 p (7 ∷ 8 ∷ 9 ∷ [])

decoded_line : decoded.0 ≡ returned (some (in_pooled 0 0 3))
unfolding decoded delimited_slice read_slice shift_n_slices reset_slices index_byte
decoded_line = refl

line_before : stored decoded.2 0 ≡ 1 ∷ 2 ∷ 3 ∷ 10 ∷ 4 ∷ []
unfolding decoded delimited_slice read_slice shift_n_slices reset_slices index_byte
line_before = refl

line_after :
    bytes_of (stored (taken_again decoded.2)) decoded.1.buf (in_pooled 0 0 3) ≡ 7 ∷ 8 ∷ 9 ∷ []
unfolding decoded delimited_slice read_slice shift_n_slices reset_slices index_byte
line_after = refl
