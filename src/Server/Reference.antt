-- ===== src/Server/Reference.antt =====
-- net/server/reference.go and the wiring of net/server/server.go: the methods that a server calls on
-- its user, and the callbacks that a connection is given.
use Prim.Native.String.{String}
use zput_net_golang.Prelude.{ℕ, List, Option, none}
use zput_net_golang.Connect.State.{
  App, set_message_callback, set_connect_close_callback, set_write_complete_callback,
}
use zput_net_golang.Server.Names.{without}

-- `IHandleEvent` over the user's own state `S`; `C` is the type of pointers to connections. A message
-- callback answers nil or bytes.
pub record IHandleEvent (C : Type 0) : Type 1 where
  pub S : Type 0
  pub connect_callback : S → C → S
  pub message_callback : S → C → List ℕ → S × Option (List ℕ)
  pub write_complete_callback : S → C → S
  pub connect_close_callback : S → C → S

-- `HandleEventImpl`, whose methods do nothing, under a struct with the state `S` that embeds it.
abbrev pub handle_event_impl : (C S : Type 0) → IHandleEvent C
handle_event_impl C S = record {
  S = S;
  connect_callback = λ s c. s;
  message_callback = λ s c b. (s, none);
  write_complete_callback = λ s c. s;
  connect_close_callback = λ s c. s;
}

-- The upper layer of a connection without callbacks, over the user's state and the server's map of
-- connections. Its message callback, which would be nil, stands only until it is set.
abbrev no_callbacks : (S C : Type 0) → App
no_callbacks S C = record {
  A = S × List (String × C);
  message = λ a frame. (a, none);
  connect_close = none;
  write_complete = none;
}

-- The callbacks that `newConnected` sets on the connection `c`. The close callback is
-- `connectCloseEvent`.
abbrev pub callbacks : {C : Type 0} → IHandleEvent C → C → App
callbacks {C} H c =
    set_write_complete_callback
      (set_connect_close_callback
        (set_message_callback (no_callbacks H.S C)
          (λ a frame. let (s, out) = H.message_callback a.0 c frame in ((s, a.1), out)))
        (λ a name. (H.connect_close_callback a.0 c, without name a.1)))
      (λ a. (H.write_complete_callback a.0 c, a.1))
