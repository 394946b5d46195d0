-- ===== src/Connect/Shared.antt =====
-- net/connect/connect.go and net/protocol/codec.go with the memory that slices point into: a frame that
-- `Decode` returns is a part of the connection's own `buf` or of a buffer of the pool, not a copy.
pub mod View
pub mod Taking
pub mod Agree
pub mod Freed
use zput_net_golang.Prelude.{
  ℕ, ◌+◌, ◌-◌, leb, ◌==◌, if◌then◌else◌, List, [], ◌++◌, length, take, drop, Option, none, some, ℤ,
  pos,
}
use zput_net_golang.Outside.RingBuffer.{RingBuffer}
use zput_net_golang.Outside.ByteBuffers.{ByteBuffers}
use zput_net_golang.Protocol.Errors.{
  Outcome, returned, failed, unexpected_eof, delimiter_not_found, crlf_not_found, Error,
}
use zput_net_golang.Protocol.Codec.{index_byte, crlf_byte}
use zput_net_golang.Connect.Buffers.{beyond, positive}

-- A slice: where it starts and how long it is, in `buf` or in the pool's buffer `p`.
pub data Slice : Type 0 where
  in_buf : ℕ → ℕ → Slice
  in_pooled : (p : ℕ) → ℕ → ℕ → Slice

-- What `read`, `readN`, `shiftN` and `resetBuffer` use of a connection: `temporaryBuf` is a slice of
-- `buf`, and `byteBuffer` points to a buffer of the pool.
pub record Slices (B : Type 0) : Type 0 where
  pub buf : List ℕ
  pub temporary_start : ℕ
  pub temporary_length : ℕ
  pub in_buffer : B
  pub byte_buffer : Option ℕ

abbrev pub part : ℕ → ℕ → List ℕ → List ℕ
part start n xs = take n (drop start xs)

abbrev pub temporary : {B : Type 0} → Slices B → List ℕ
temporary c = part c.temporary_start c.temporary_length c.buf

-- The bytes that a slice shows, of a connection with the buffer `buf`.
abbrev pub bytes_of : (ℕ → List ℕ) → List ℕ → Slice → List ℕ
bytes_of bytes buf (in_buf start n) = part start n buf
bytes_of bytes buf (in_pooled p start n) = part start n (bytes p)

abbrev pub slice_length : Slice → ℕ
slice_length (in_buf start n) = n
slice_length (in_pooled p start n) = n

-- `s[:n]`
abbrev pub slice_to : ℕ → Slice → Slice
slice_to n (in_buf start m) = in_buf start n
slice_to n (in_pooled p start m) = in_pooled p start n

module _ (R : RingBuffer) (Bs : ByteBuffers) where
  open Bs use {Pool, get, write, put, bytes}

  -- `bytebuffer.Get()`, three calls of `Write`, and `Bytes()`.
  abbrev pub filled : List ℕ → List ℕ → List ℕ → Slices R.Buf → Pool → Slice × Slices R.Buf × Pool
  filled xs ys zs c h =
      let (p, h0) = get h in
      let h3 = write (write (write h0 p xs) p ys) p zs in
      (in_pooled p 0 (length (bytes h3 p)), record c { byte_buffer = some p }, h3)

  -- Writing nothing stands for a call of `Write` that is not made.
  unfoldable pub read_slice : Slices R.Buf → Pool → Slice × Slices R.Buf × Pool
  read_slice c h =
      if R.is_empty c.in_buffer
      then (in_buf c.temporary_start c.temporary_length, c, h)
      else (let (first, end) = R.peek_all c.in_buffer in
          filled (if length first == 0 then [] else first) end (temporary c) c h)

  unfoldable pub reset_slices : Slices R.Buf → Pool → Slices R.Buf × Pool
  reset_slices c h = (
    record c { temporary_length = 0; in_buffer = R.reset c.in_buffer; byte_buffer = none },
    put h c.byte_buffer,
  )

  -- `ReadN` for `n` bytes that are there.
  abbrev pub front_slice : Slices R.Buf → Pool → ℕ → Slice × Slices R.Buf × Pool
  front_slice c h n =
      let in_buffer_len = R.size c.in_buffer in
      if R.is_empty c.in_buffer
      then (in_buf c.temporary_start n, c, h)
      else (let (head, tail) = R.peek c.in_buffer n in
          filled head tail
            (if leb n in_buffer_len then [] else take (n - in_buffer_len) (temporary c)) c h)

  unfoldable pub read_n_slice : Slices R.Buf → Pool → ℤ → (ℕ × Slice) × Slices R.Buf × Pool
  read_n_slice c h n =
      let total = R.size c.in_buffer + c.temporary_length in
      let k = if beyond n total then total else positive n in
      let (s, c1, h1) = front_slice c h k in ((k, s), c1, h1)

  unfoldable pub shift_n_slices : Slices R.Buf → Pool → ℤ → ℕ × (Slices R.Buf × Pool)
  unfolding reset_slices
  shift_n_slices c h n =
      let in_buffer_len = R.size c.in_buffer in
      let total = in_buffer_len + c.temporary_length in
      let k = positive n in
      if beyond n total
      then (total, reset_slices c h)
      else if R.is_empty c.in_buffer
      then (
        k,
        (
          record c {
            temporary_start = c.temporary_start + k;
            temporary_length = c.temporary_length - k;
          },
          h,
        ),
      )
      else (let h1 = put h c.byte_buffer in
          if leb k in_buffer_len
          then (k, (record c { byte_buffer = none; in_buffer = R.retrieve c.in_buffer k }, h1))
          else (let rest = k - in_buffer_len in
              (
                k,
                (
                  record c {
                    byte_buffer = none;
                    in_buffer = R.reset c.in_buffer;
                    temporary_start = c.temporary_start + rest;
                    temporary_length = c.temporary_length - rest;
                  },
                  h1,
                ),
              )))

  -- `Decode` of the built-in codec and of those with a delimiter or a fixed length. That with a length
  -- field copies the message before it calls `ShiftN`.
  unfoldable pub builtin_slice : Slices R.Buf → Pool → Outcome (Option Slice) × Slices R.Buf × Pool
  unfolding read_slice reset_slices
  builtin_slice c h =
      let (s, c1, h1) = read_slice c h in
      let (c2, h2) = reset_slices c1 h1 in
      (returned (if slice_length s == 0 then none else some s), c2, h2)

  -- `Decode` of the line codec is that of the delimiter codec at its byte and its error.
  unfoldable pub delimited_slice :
      Error → ℕ → Slices R.Buf → Pool → Outcome (Option Slice) × Slices R.Buf × Pool
  unfolding read_slice shift_n_slices
  delimited_slice e d c h =
      let (s, c1, h1) = read_slice c h in
      elim (index_byte (bytes_of (bytes h1) c1.buf s) d) [
        | none ↦ (failed e, c1, h1)
        | some idx ↦
            let (n, (c2, h2)) = shift_n_slices c1 h1 (pos (idx + 1)) in
            (returned (some (slice_to idx s)), c2, h2)
      ]

  unfoldable pub fixed_slice :
      ℤ → Slices R.Buf → Pool → Outcome (Option Slice) × Slices R.Buf × Pool
  unfolding read_n_slice shift_n_slices
  fixed_slice n c h =
      let ((size, s), c1, h1) = read_n_slice c h n in
      if size == 0
      then (failed unexpected_eof, c1, h1)
      else (let (k, (c2, h2)) = shift_n_slices c1 h1 (pos size) in (returned (some s), c2, h2))
