-- ===== src/Outside/Listening.antt =====
-- What net/accept calls of Go's net package, of go-reuseport and of unix.Accept, as a parameter.
use Prim.Native.String.{String}
use zput_net_golang.Prelude.{ℕ, Option}
use zput_net_golang.Outside.Unix.{Errno}

-- `listener.(*net.TCPListener)` and its `File`: another kind of listener, an error, or the descriptor.
pub data FileResult : Type 0 where
  not_tcp file_failed : FileResult
  file : ℕ → FileResult

-- `unix.Accept`: the new descriptor and the address, or the error.
pub data Accepted : Type 0 where
  accepted : ℕ → String → Accepted
  accept_failed : Errno → Accepted

-- `none` is an error of the call.
pub record Listening : Type 1 where
  pub Kernel : Type 0
  pub Listener : Type 0
  pub listen : Kernel → String → String → Option Listener × Kernel
  pub listen_reuse : Kernel → String → String → Option Listener × Kernel
  pub listener_file : Kernel → Listener → FileResult × Kernel
  pub close_listener : Kernel → Listener → Kernel
  pub accept : Kernel → ℕ → Accepted × Kernel
