-- ===== src/Connect/State.antt =====
-- net/connect/connect.go: the state of a connection, and what its methods read and write outside it.
use zput_net_golang.Prelude.{ℕ, List, Option, some, ℤ}
use Prim.Native.String.{String}
use zput_net_golang.Outside.RingBuffer.{RingBuffer}
use zput_net_golang.Outside.Unix.{Unix}
use zput_net_golang.Multiplex.{Multiplex}
use zput_net_golang.EventLoop.Event.{Event, EventCtrl}

pub data ConnectState : Type 0 where
  disconnected connecting connected disconnecting : ConnectState

pub ConnectState-discrete : Discrete ConnectState
ConnectState-discrete = hlevel

-- The methods that `New` makes the handlers of the event.
pub data Handler : Type 0 where
  on_read on_write on_error on_close : Handler

-- `byte_buffer` is what was last written into the pooled buffer, and `none` stands for nil.
pub record Connect (B : Type 0) : Type 0 where
  pub event : Event Handler
  pub temporary_buf : List ℕ
  pub out_buffer : B
  pub in_buffer : B
  pub byte_buffer : Option (List ℕ)
  pub state : ConnectState
  pub fd : ℕ
  pub peer_addr : String
  pub idle_time : ℤ  -- nanoseconds
  pub active_time : ℕ  -- seconds

-- The callbacks of the upper layer, over its own state. A message callback answers nil or bytes.
pub record App : Type 1 where
  pub A : Type 0
  pub message : A → List ℕ → A × Option (List ℕ)
  pub connect_close : Option (A → String → A)
  pub write_complete : Option (A → A)

abbrev pub set_message_callback : (Up : App) → (Up.A → List ℕ → Up.A × Option (List ℕ)) → App
set_message_callback Up callback = record Up { message = callback }

abbrev pub set_connect_close_callback : (Up : App) → (Up.A → String → Up.A) → App
set_connect_close_callback Up callback = record Up { connect_close = some callback }

abbrev pub set_write_complete_callback : (Up : App) → (Up.A → Up.A) → App
set_write_complete_callback Up callback = record Up { write_complete = some callback }

-- A connection with all that its methods mutate. `P` is the type of pointers to events, and `self`
-- the pointer to its own.
pub record Cell (R : RingBuffer) (U : Unix) (X : Multiplex) (Up : App) (P : Type 0) : Type 0 where
  pub conn : Connect R.Buf
  pub self : P
  pub kernel : U.Kernel
  pub ctrl : EventCtrl P X.Multi
  pub app : Up.A
  pub pool : R.Pool
