-- ===== src/Protocol/EventType.antt =====
-- net/protocol/protocol.go: sets of events, as the bits of a `uint32`.
pub mod Laws
use zput_net_golang.Prelude.{ℕ, ◌-◌, ◌^◌, Bool, bit_and, bit_or, ◌==◌, not}

abbrev pub event_read : ℕ
event_read = 0x1

abbrev pub event_write : ℕ
event_write = 0x2

abbrev pub event_err : ℕ
event_err = 0x80

abbrev pub event_close : ℕ
event_close = 0x100

abbrev pub event_none : ℕ
event_none = 0

-- `events & e != EventNone`
abbrev pub has : ℕ → ℕ → Bool
has events e = not (bit_and events e == event_none)

-- `events |= e`
abbrev pub with_event : ℕ → ℕ → ℕ
with_event events e = bit_or events e

-- `events &= ^e`, on 32 bits
abbrev pub without_event : ℕ → ℕ → ℕ
without_event events e = bit_and events (2 ^ 32 - 1 - e)
