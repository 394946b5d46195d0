-- ===== src/Connect/Methods/Closing.antt =====
-- net/connect/connect.go: `closeEvent` does its work once and leaves nothing registered on a kqueue.
use zput_net_golang.Prelude.{◌≡◌, refl, Bool, true, false, inl, inr, none, Option-cases}
use zput_net_golang.Outside.RingBuffer.{RingBuffer}
use zput_net_golang.Outside.Unix.{Unix}
use zput_net_golang.Multiplex.{Multiplex}
use zput_net_golang.Multiplex.Kqueue.{Filter, kqueues}
use zput_net_golang.Multiplex.Kqueue.Sync.{IsWatched, watched, forget, forget-unwatched}
use zput_net_golang.EventLoop.Event.{lookup, disable_all, unregister}
use zput_net_golang.Connect.State.{App, Cell}
use zput_net_golang.Connect.Methods.{is_disconnected, close_event}
use zput_net_golang.Connect.Methods.Wire.{IsOpen, close_event-closed}

module _ {R : RingBuffer} {U : Unix} {X : Multiplex} {Up : App} {P : Type 0} where
  -- A second `closeEvent` changes nothing: not the connection, nor the kernel, the table, the upper
  -- layer's state or the pool.
  pub close_event-close_event : (c : Cell R U X Up P) → close_event (close_event c) ≡ close_event c
  unfolding close_event
  close_event-close_event c = again (close_event c) (close_event-closed c)
    where
      again : (d : Cell R U X Up P) → is_disconnected d.conn.state ≡ true → close_event d ≡ d
      again d e = rw (e, close_event) refl

module _ {R : RingBuffer} {U : Unix} {Up : App} {P : Type 0} where
  -- On a kqueue, closing an open connection whose descriptor the kernel watches as its event wants
  -- takes the event out of the table, and with the pending changes no filter watches the descriptor.
  pub close_event-unwatched :
      (was : Filter → Bool) (c : Cell R U kqueues Up P)
      → IsOpen c
      → IsWatched was (none, c.conn.event, c.ctrl)
      → (lookup c.conn.event.event_fd (close_event c).ctrl.event_pool ≡ none)
        × ((f : Filter)
            → watched c.conn.event.event_fd f (was f) (close_event c).ctrl.multi.changes ≡ false)
  unfolding close_event disable_all unregister
  close_event-unwatched was c o h = rw same (forget-unwatched was c.conn.event c.ctrl h)
    where
      same : (close_event c).ctrl ≡ (forget c.conn.event c.ctrl).2
      same = elim (Option-cases Up.connect_close) [
        | inl e ↦ rw (o, close_event, e) refl
        | inr (f, e) ↦ rw (o, close_event, e) refl
      ]
