-- ===== src/Connect/Buffers.antt =====
-- net/connect/connect.go, the methods of the interface `Conn` that a codec reads through. Bytes not
-- yet taken stand in `inBuffer`, and behind them those of the current read in `temporaryBuf`.
pub mod Stream
use zput_net_golang.Prelude.{
  ℕ, zero, suc, ◌+◌, ◌-◌, List, [], ◌++◌, length, take, drop, ltb, leb, ◌==◌, if◌then◌else◌, Bool,
  true, false, ◌||◌, Option, none, some, ℤ, pos, negsuc,
}
use zput_net_golang.Outside.RingBuffer.{RingBuffer}
use zput_net_golang.Protocol.Conn.{Conn}
use zput_net_golang.Connect.State.{Connect}

-- `totalLen < n || n <= 0`
abbrev pub beyond : ℤ → ℕ → Bool
beyond (pos zero) total = true
beyond (pos (suc n)) total = ltb total (suc n)
beyond (negsuc n) total = true

-- The magnitude of an `int` that is known to be positive.
abbrev pub positive : ℤ → ℕ
positive (pos n) = n
positive (negsuc n) = 0

module _ (R : RingBuffer) where
  open R use {Buf, is_empty, size, peek_all, peek, retrieve, reset}

  unfoldable pub read : Connect Buf → List ℕ × Connect Buf
  read c =
      if is_empty c.in_buffer
      then (c.temporary_buf, c)
      else (let (first, end) = peek_all c.in_buffer in
          let bytes = (if length first == 0 then end else first ++ end) ++ c.temporary_buf in
          (bytes, record c { byte_buffer = some bytes }))

  unfoldable pub reset_buffer : Connect Buf → Connect Buf
  reset_buffer c = record c {
    temporary_buf = [];
    in_buffer = reset c.in_buffer;
    byte_buffer = none;
  }

  -- `ReadN` for `n` bytes that are there.
  abbrev pub read_front : Connect Buf → ℕ → (ℕ × List ℕ) × Connect Buf
  read_front c n =
      let in_buffer_len = size c.in_buffer in
      if is_empty c.in_buffer
      then ((n, take n c.temporary_buf), c)
      else (let (head, tail) = peek c.in_buffer n in
          let bytes = head ++ tail in
          if leb n in_buffer_len
          then ((n, bytes), record c { byte_buffer = some bytes })
          else (let all = bytes ++ take (n - in_buffer_len) c.temporary_buf in
              ((n, all), record c { byte_buffer = some all })))

  unfoldable pub read_n : Connect Buf → ℤ → (ℕ × List ℕ) × Connect Buf
  read_n c n =
      let total = size c.in_buffer + length c.temporary_buf in
      read_front c (if beyond n total then total else positive n)

  unfoldable pub shift_n : Connect Buf → ℤ → ℕ × Connect Buf
  unfolding reset_buffer
  shift_n c n =
      let in_buffer_len = size c.in_buffer in
      let total = in_buffer_len + length c.temporary_buf in
      let k = positive n in
      if beyond n total
      then (total, reset_buffer c)
      else if is_empty c.in_buffer
      then (k, record c { temporary_buf = drop k c.temporary_buf })
      else if leb k in_buffer_len
      then (k, record c { byte_buffer = none; in_buffer = retrieve c.in_buffer k })
      else (
        k,
        record c {
          byte_buffer = none;
          in_buffer = reset c.in_buffer;
          temporary_buf = drop (k - in_buffer_len) c.temporary_buf;
        },
      )

  unfoldable pub buffer_length : Connect Buf → ℕ
  buffer_length c = size c.in_buffer + length c.temporary_buf

  -- `*Connect` as a value of the interface `protocol.Conn`.
  unfoldable pub connect_conn : Conn (Connect Buf)
  unfolding read reset_buffer read_n shift_n buffer_length
  connect_conn = record {
    read = read;
    reset_buffer = reset_buffer;
    read_n = read_n;
    shift_n = shift_n;
    buffer_length = buffer_length;
  }
