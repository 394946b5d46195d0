-- ===== src/Connect/Lifecycle.antt =====
-- net/connect/connect.go: how a connection comes into being, and the methods that other goroutines
-- call, which leave their work to the loop.
pub mod Birth
pub mod Reports
pub mod Tasks
pub mod Timeout
use Prim.Native.String.{String}
use zput_net_golang.Prelude.{
  ℕ, ◌+◌, ◌-◌, ◌*◌, ◌/◌, leb, ltb_ℤ, List, [], ◌∷◌, Bool, true, false, if◌then◌else◌, Option, none,
  some, ℤ, pos,
}
use zput_net_golang.Outside.RingBuffer.{RingBuffer}
use zput_net_golang.Outside.Unix.{Unix, Errno}
use zput_net_golang.Multiplex.{Multiplex}
use zput_net_golang.EventLoop.Event.{
  Event, EventCtrl, new_event, set_read_func, set_write_func, set_error_func, set_close_func,
  register, enable_reading, enable_error_event,
}
use zput_net_golang.EventLoop.Queue.{EventLoop, run_in_loop}
use zput_net_golang.Connect.State.{
  ConnectState, disconnected, connecting, connected, disconnecting, Handler, on_read, on_write,
  on_error, on_close, Connect, App, Cell,
}
use zput_net_golang.Connect.Buffers.{positive}
use zput_net_golang.Connect.Methods.{
  is_disconnected, second, updated, set_reading, close_event, write,
}

-- The functions that are handed to `RunInLoop` for a connection: `closeEvent`, and `write` with its
-- data.
pub data Task : Type 0 where
  closes : Task
  writes : List ℕ → Task

abbrev is_connected : ConnectState → Bool
is_connected connected = true
is_connected disconnected = false
is_connected connecting = false
is_connected disconnecting = false

-- The methods' errors: nil, `ErrConnectionClosed`, or that of a system call.
pub data Answer : Type 0 where
  nil connection_closed : Answer
  errno : Errno → Answer

-- What `New` makes: the connection or the error, and the timers that it armed, in nanoseconds.
pub record Made (R : RingBuffer) (U : Unix) : Type 0 where
  pub result : Option (Connect R.Buf)
  pub kernel : U.Kernel
  pub pool : R.Pool
  pub timers : List ℤ

module _ (R : RingBuffer) (U : Unix) where
  -- `setNoDelay`, which closes the descriptor on an error.
  unfoldable pub set_no_delay : U.Kernel → ℕ → Option Errno × U.Kernel
  set_no_delay k fd =
      let (err, k1) = U.set_nonblock k fd in
      elim err [ none ↦ (none, k1) | some e ↦ (some e, (U.close k1 fd).1) ]

  unfoldable pub new_connect : U.Kernel → R.Pool → ℕ → String → ℤ → Made R U
  unfolding set_no_delay new_event
  new_connect k pool fd peer idle =
      let (out, p1) = R.get pool in
      let (inp, p2) = R.get p1 in
      let armed = ltb_ℤ (pos 0) idle in
      let (t, k1) = if armed then U.now k else (0, k) in
      let (err, k2) = set_no_delay k1 fd in
      let c : Connect R.Buf = record {
        event = set_error_func on_error (
            set_write_func on_write
              (set_close_func on_close (set_read_func on_read (new_event fd))));
        temporary_buf = [];
        out_buffer = R.retrieve_all out;
        in_buffer = R.retrieve_all inp;
        byte_buffer = none;
        state = disconnected;
        fd = fd;
        peer_addr = peer;
        idle_time = idle;
        active_time = t / second;
      } in
      record {
        result = elim err [ none ↦ some c | some e ↦ none ];
        kernel = k2;
        pool = p2;
        timers = if armed then idle ∷ [] else [];
      }

module _ {R : RingBuffer} {U : Unix} {X : Multiplex} {Up : App} {P : Type 0} where
  -- `ConnectedHandle` behind `Register`. The error of `EnableReading` is overwritten.
  abbrev pub after_register : Cell R U X Up P → Option Errno × Cell R U X Up P
  after_register c =
      let c1 = set_reading true (record c { conn = record c.conn { state = connected } }) in
      let u = enable_error_event X true c1.conn.event c1.ctrl in (u.0, updated c1 u)

  unfoldable pub connected_handle : Cell R U X Up P → Option Errno × Cell R U X Up P
  connected_handle c =
      let u = register X c.self c.conn.event c.ctrl in
      elim u.0 [ none ↦ after_register (updated c u) | some e ↦ (some e, updated c u) ]

  unfoldable pub close : Cell R U X Up P → EventLoop Task → Answer × EventLoop Task
  unfolding run_in_loop
  close c l =
      if is_disconnected c.conn.state then (connection_closed, l) else (nil, run_in_loop closes l)

  unfoldable pub write_in_self_loop :
      List ℕ → Cell R U X Up P → EventLoop Task → Answer × EventLoop Task
  unfolding run_in_loop
  write_in_self_loop xs c l =
      if is_connected c.conn.state then (nil, run_in_loop (writes xs) l) else (connection_closed, l)

  -- The functions themselves, as the loop calls them.
  unfoldable pub run_task : Task → Cell R U X Up P → Cell R U X Up P
  unfolding close_event write
  run_task closes c = close_event c
  run_task (writes xs) c = write xs c

  unfoldable pub shutdown_write : Cell R U X Up P → Answer × Cell R U X Up P
  shutdown_write c =
      if is_connected c.conn.state
      then (let (err, k) = U.shutdown_write c.kernel c.conn.fd in
          (
            elim err [ none ↦ nil | some e ↦ errno e ],
            record c { kernel = k; conn = record c.conn { state = disconnecting } },
          ))
      else (nil, c)

  -- The function of `closeTimeoutConn`, on a positive `idleTime`, at the time `now` in nanoseconds:
  -- `none` when it calls `Close`, else the delay of the timer that it arms. Durations are compared with
  -- the active time added to both sides.
  unfoldable pub close_timeout_conn : ℕ → Cell R U X Up P → Option ℕ
  close_timeout_conn now c =
      let due = c.conn.active_time * second + positive c.conn.idle_time in
      if leb due now then none else some (due - now)
