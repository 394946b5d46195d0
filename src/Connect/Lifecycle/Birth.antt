-- ===== src/Connect/Lifecycle/Birth.antt =====
-- net/connect/connect.go: `New` and `ConnectedHandle` give a connection what its handlers rely on.
use zput_net_golang.Prelude.{ℕ, ◌≡◌, arith, List, [], ◌++◌, none, some, ℤ}
use Prim.Native.String.{String}
use zput_net_golang.Outside.RingBuffer.{RingBuffer, RingLaws}
use zput_net_golang.Outside.Unix.{Unix}
use zput_net_golang.Multiplex.{Multiplex}
use zput_net_golang.EventLoop.Event.{
  new_event, register, enable_reading, enable_error_event, is_reading, is_writing,
}
use zput_net_golang.Connect.State.{connected, Connect, App, Cell}
use zput_net_golang.Connect.Methods.Interest.{Served}
use zput_net_golang.Connect.Lifecycle.{new_connect, connected_handle, set_no_delay}

module _ {R : RingBuffer} {U : Unix} {X : Multiplex} {Up : App} {P : Type 0}
    (contents : R.Buf → List ℕ) (rl : RingLaws R contents) where
  -- A connection that `New` made, registered without an error: after `ConnectedHandle` its state is
  -- `Connected`, it waits for data and for errors, and both its buffers are empty whatever the pool
  -- handed out.
  pub connected_handle-Served :
      (k : U.Kernel) (p : R.Pool) (fd : ℕ) (peer : String) (idle : ℤ) (conn : Connect R.Buf)
      (c : Cell R U X Up P)
      → (new_connect R U k p fd peer idle).result ≡ some conn
      → c.conn ≡ conn
      → (register X c.self c.conn.event c.ctrl).0 ≡ none
      → let c' = (connected_handle c).1 in
        (c'.conn.state ≡ connected)
        × Served c'.conn.event (contents c'.conn.out_buffer)
        × (c'.conn.event.events ≡ 0x81)
        × (contents c'.conn.out_buffer ≡ [])
        × (contents c'.conn.in_buffer ++ c'.conn.temporary_buf ≡ [])
  unfolding new_connect set_no_delay new_event connected_handle enable_reading enable_error_event
      register is_reading is_writing
  connected_handle-Served k p fd peer idle conn c made same ok =
      ground (arith, rl.retrieve_all_lem (R.get p).0, rl.retrieve_all_lem (R.get (R.get p).1).0)
