-- ===== src/Protocol/ByteOrder.antt =====
-- The part of Go's encoding/binary that net/protocol/codec.go uses: the two byte orders, and
-- unsigned numbers of a fixed width in bytes.
pub mod Laws
use zput_net_golang.Prelude.{ℕ, zero, suc, ◌+◌, ◌*◌, ◌/◌, ◌%◌, List, [], ◌∷◌}
use mathlib.Core.List.{reverse}

pub data ByteOrder : Type 0 where
  big_endian little_endian : ByteOrder

-- The `w` low bytes of `v`, lowest first.
unfoldable pub low_bytes : ℕ → ℕ → List ℕ
low_bytes zero v = []
low_bytes (suc w) v = v % 256 ∷ low_bytes w (v / 256)

unfoldable pub value : List ℕ → ℕ
value [] = 0
value (b ∷ bs) = b + 256 * value bs

-- `PutUint16`, `PutUint32` and `PutUint64` at `w` = 2, 4 and 8.
unfoldable pub put_uint : ByteOrder → ℕ → ℕ → List ℕ
unfolding low_bytes
put_uint little_endian w v = low_bytes w v
put_uint big_endian w v = reverse (low_bytes w v)

-- `Uint16`, `Uint32` and `Uint64` on a slice of 2, 4 and 8 bytes.
unfoldable pub uint : ByteOrder → List ℕ → ℕ
unfolding value
uint little_endian bs = value bs
uint big_endian bs = value (reverse bs)
