-- ===== src/Example/Echo/Served.antt =====
-- example/echo/echo.go with the built-in codec, on a connection from `New` on.
use mathlib.Core.List.{flatten}
use Prim.Native.String.{String}
use zput_net_golang.Prelude.{
  ℕ, ◌≡◌, refl, ap, ap₂, ◌∙◌, arith, List, [], ◌∷◌, ◌++◌, append-nil, false, none, some, ℤ,
}
use zput_net_golang.Outside.RingBuffer.{RingBuffer, RingLaws}
use zput_net_golang.Outside.Unix.{Unix, UnixLaws}
use zput_net_golang.Multiplex.{Multiplex}
use zput_net_golang.Protocol.Codec.{builtin_codec}
use zput_net_golang.EventLoop.Event.{register, enable_reading, enable_error_event}
use zput_net_golang.Connect.State.{Connect, App, Cell}
use zput_net_golang.Connect.Buffers.{connect_conn}
use zput_net_golang.Connect.Methods.{is_disconnected}
use zput_net_golang.Connect.Methods.Wire.{queued}
use zput_net_golang.Connect.Methods.Session.{Session}
use zput_net_golang.Connect.Lifecycle.{new_connect, connected_handle}
use zput_net_golang.Connect.Lifecycle.Birth.{connected_handle-Served}
use zput_net_golang.Server.Reference.{callbacks}
use zput_net_golang.Example.Echo.{echo}
use zput_net_golang.Example.Echo.Echoing.{echo_echoes}

left_nil : (xs ys : List ℕ) → xs ++ ys ≡ [] → xs ≡ []
left_nil [] ys e = refl
left_nil (x ∷ xs) ys e = absurd (cc e)

module _ {R : RingBuffer} {U : Unix} {X : Multiplex} {Up : App} {P : Type 0} where
  -- `ConnectedHandle` makes no call on the socket and none of a callback.
  quiet_start :
      (c : Cell R U X Up P)
      → let c1 = (connected_handle c).1 in
        (c1.kernel ≡ c.kernel) × (c1.conn.fd ≡ c.conn.fd) × (c1.app ≡ c.app)
  unfolding connected_handle enable_reading enable_error_event register
  quiet_start c = ground arith

module _ {R : RingBuffer} {U : Unix} {X : Multiplex} {P C : Type 0} (contents : R.Buf → List ℕ)
    (rl : RingLaws R contents) (wire : U.Kernel → ℕ → List ℕ) (ul : UnixLaws U wire) where
  -- A connection that `New` made for the server of the example with the built-in codec, registered
  -- without an error, whatever comes in after `ConnectedHandle` over several reads, with writes between
  -- them: if the connection is open then, what the socket accepted, with what is kept for it, is what it
  -- had accepted and then exactly the bytes that came in, in order; no byte is kept unread, and the
  -- handler's count and the map of connections are as they were.
  pub echo_served :
      (k : U.Kernel) (pool : R.Pool) (fd : ℕ) (peer : String) (idle : ℤ) (conn : Connect R.Buf)
      (p : C) (pieces : List (List ℕ)) (c c' : Cell R U X (callbacks echo p) P)
      → (new_connect R U k pool fd peer idle).result ≡ some conn
      → c.conn ≡ conn
      → (register X c.self c.conn.event c.ctrl).0 ≡ none
      → Session contents (builtin_codec (connect_conn R)) (connected_handle c).1 pieces c'
      → is_disconnected c'.conn.state ≡ false
      → (queued contents rl wire ul c' ≡ wire c.kernel c.conn.fd ++ flatten pieces)
        × (contents c'.conn.in_buffer ≡ [])
        × (c'.app ≡ c.app)
  echo_served k pool fd peer idle conn p pieces c c' made same ok s o =
      let (st, served, mask, out, inp) =
        connected_handle-Served contents rl k pool fd peer idle conn c made same ok in
      let (e1, e2, e3) = quiet_start c in
      let (told, kept, app) =
        echo_echoes contents rl wire ul p pieces (connected_handle c).1 c' (left_nil _ _ inp) s o in
      let start = ap₂ (λ t u. t ++ u) (ap₂ wire e1 e2) out ∙ append-nil _ in
      (told ∙ ap (λ t. t ++ flatten pieces) start, kept, app ∙ e3)
