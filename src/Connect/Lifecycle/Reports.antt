-- ===== src/Connect/Lifecycle/Reports.antt =====
-- What a report of the kernel comes to on a connection: net/multiplex translates it, and
-- net/event_loop/event.go calls one of the handlers that `New` of net/connect/connect.go set.
use Prim.Native.String.{String}
use zput_net_golang.Prelude.{
  ℕ, ◌≡◌, arith, bit_or, Bool, ◌&&◌, ◌||◌, not, if◌then◌else◌, Option, none, some, ℤ,
}
use zput_net_golang.Outside.RingBuffer.{RingBuffer}
use zput_net_golang.Outside.Unix.{Unix}
use zput_net_golang.Outside.EpollKernel.{
  epollin, epollpri, epollout, epollerr, epollhup, epollrdhup,
}
use zput_net_golang.Protocol.EventType.{
  event_read, event_write, event_err, event_close, event_none, with_event,
}
use zput_net_golang.EventLoop.Event.{new_event, handle_event}
use zput_net_golang.Multiplex.Kqueue
use zput_net_golang.Multiplex.Kqueue.{Ready, Filter, filter_read, filter_write, is_read, is_write}
use zput_net_golang.Multiplex.Epoll
use zput_net_golang.Multiplex.Epoll.{meets}
use zput_net_golang.Connect.State.{Handler, on_read, on_write, on_error, on_close, Connect}
use zput_net_golang.Connect.Lifecycle.{new_connect, set_no_delay}

-- The set made of up to four bits, as `WaitEvent` collects them, and the handler that it calls.
abbrev bits : Bool → Bool → Bool → Bool → ℕ
bits c e r w =
    let e0 = if c then with_event event_none event_close else event_none in
    let e1 = if e then with_event e0 event_err else e0 in
    let e2 = if r then with_event e1 event_read else e1 in
    if w then with_event e2 event_write else e2

abbrev chosen : Bool → Bool → Bool → Bool → Option Handler
chosen c e r w =
    if c
    then some on_close
    else if e
    then some on_error
    else if w
    then some on_write
    else if r
    then some on_read
    else none

module _ (R : RingBuffer) (U : Unix) where
  handles :
      (k : U.Kernel) (p : R.Pool) (fd : ℕ) (peer : String) (idle : ℤ) (conn : Connect R.Buf)
      → (new_connect R U k p fd peer idle).result ≡ some conn
      → (c e r w : Bool) → handle_event conn.event (bits c e r w) ≡ chosen c e r w
  unfolding new_connect set_no_delay new_event handle_event
  handles k p fd peer idle conn h c e r w = ground arith

  -- On epoll a report of any mask on a connection that `New` made calls one handler, or none: on a
  -- hang-up with nothing to read `closeEvent`, else on an error `errEvent`, else where it can be written
  -- `writeEvent`, else where it can be read or its peer has stopped sending `readEvent`.
  pub epoll_handled :
      (k : U.Kernel) (p : R.Pool) (fd : ℕ) (peer : String) (idle : ℤ) (conn : Connect R.Buf)
      (mask : ℕ)
      → (new_connect R U k p fd peer idle).result ≡ some conn
      → handle_event conn.event (Epoll.ready_events mask) ≡ (
          if meets mask epollhup && not (meets mask epollin)
          then some on_close
          else if meets mask epollerr
          then some on_error
          else if meets mask epollout
          then some on_write
          else if meets mask (bit_or epollin (bit_or epollpri epollrdhup))
          then some on_read
          else none)
  unfolding Epoll.ready_events
  epoll_handled k p fd peer idle conn mask h =
      handles k p fd peer idle conn h (meets mask epollhup && not (meets mask epollin))
        (meets mask epollerr) (meets mask (bit_or epollin (bit_or epollpri epollrdhup)))
        (meets mask epollout)

  -- On a kqueue a report on a connection that `New` made calls `errEvent`, which closes, as soon as it
  -- carries the end of the peer's data, also where there is data left to read; else the handler of its
  -- filter.
  pub kqueue_handled :
      (k : U.Kernel) (p : R.Pool) (fd : ℕ) (peer : String) (idle : ℤ) (conn : Connect R.Buf)
      (report : Ready)
      → (new_connect R U k p fd peer idle).result ≡ some conn
      → handle_event conn.event (Kqueue.ready_events report) ≡ (
          if report.failed || report.eof
          then some on_error
          else if is_write report.ready_filter
          then some on_write
          else if is_read report.ready_filter
          then some on_read
          else none)
  unfolding Kqueue.ready_events new_connect set_no_delay new_event handle_event
  kqueue_handled k p fd peer idle conn report h = ground arith
