-- ===== src/Example/Echo.antt =====
-- example/echo/echo.go: the handler of the echo server.
pub mod Counting
pub mod Echoing
pub mod Served
use zput_net_golang.Prelude.{ℕ, List, Option, some, ℤ, pos, negsuc, ◌+int◌}
use zput_net_golang.Server.Reference.{IHandleEvent, handle_event_impl}

-- `Echo` is its field `connectTimes`, an `int64`.
abbrev pub Echo : Type 0
Echo = ℤ

abbrev pub new_echo : Echo
new_echo = pos 0

unfoldable pub get_connect_times : Echo → ℤ
get_connect_times e = e

-- `atomic.AddInt64`
unfoldable pub add_int64 : ℤ → Echo → Echo
unfolding ◌+int◌
add_int64 n e = e +int n

module _ {C : Type 0} where
  unfoldable pub connect_callback : Echo → C → Echo
  unfolding add_int64
  connect_callback e c = (handle_event_impl C Echo).connect_callback (add_int64 (pos 1) e) c

  unfoldable pub message_callback : Echo → C → List ℕ → Echo × Option (List ℕ)
  message_callback e c buffer = (e, some buffer)

  unfoldable pub on_close : Echo → C → Echo
  unfolding add_int64
  on_close e c = (handle_event_impl C Echo).connect_close_callback (add_int64 (negsuc 0) e) c

  -- `*Echo` as a value of `IHandleEvent`: two methods are its own, the others those of the embedded
  -- `HandleEventImpl`. `OnClose` is none of the four.
  abbrev pub echo : IHandleEvent C
  echo = record (handle_event_impl C Echo) {
    connect_callback = connect_callback;
    message_callback = message_callback;
  }
