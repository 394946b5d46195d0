-- ===== src/Connect/Methods.antt =====
-- net/connect/connect.go, the handlers of a connection's event and the methods that they call. A
-- method returns the connection with everything it mutated. Errors that the code only logs are
-- dropped.
pub mod Wire
pub mod Keeping
pub mod Replies
pub mod Speaking
pub mod Messages
pub mod Interest
pub mod Reading
pub mod Closing
pub mod Leaving
pub mod Session
pub mod Ending
use zput_net_golang.Prelude.{
  ℕ, zero, suc, ◌*◌, ◌/◌, ◌^◌, List, [], ◌∷◌, length, drop, ltb, ltb_ℤ, ◌==◌, if◌then◌else◌, Bool,
  true, false, not, ◌&&◌, Option, none, some, ℤ, pos,
}
use zput_net_golang.Outside.RingBuffer.{RingBuffer}
use zput_net_golang.Outside.Unix.{
  Unix, Errno, eagain, eintr, other, ReadResult, got, read_failed, WriteResult, wrote, write_failed,
}
use zput_net_golang.Multiplex.{Multiplex}
use zput_net_golang.EventLoop.Event.{
  Updated, is_writing, is_reading, enable_reading, enable_writing, disable_all, unregister,
}
use zput_net_golang.Protocol.Errors.{Outcome, returned, failed, panicked}
use zput_net_golang.Protocol.Codec.{ICodec}
use zput_net_golang.Connect.State.{
  ConnectState, disconnected, connecting, connected, disconnecting, Handler, Connect, App, Cell,
}

abbrev pub is_disconnected : ConnectState → Bool
is_disconnected disconnected = true
is_disconnected connecting = false
is_disconnected connected = false
is_disconnected disconnecting = false

-- How a handler ends: it returns, it panics, or the model's fuel ran out.
pub data Run (C : Type 0) : Type 0 where
  finished crashed starved : C → Run C

-- The length of `buf`.
abbrev pub buf_len : ℕ
buf_len = 0xffff

-- Nanoseconds in a second.
abbrev pub second : ℕ
second = 1000000000

module _ {R : RingBuffer} {U : Unix} {X : Multiplex} {Up : App} {P : Type 0} where
  -- What a method of the event mutated.
  abbrev pub updated : Cell R U X Up P → Updated X Handler P → Cell R U X Up P
  updated c (err, ev, ctrl) = record c { conn = record c.conn { event = ev }; ctrl = ctrl }

  unfoldable pub update_activity_time : Cell R U X Up P → Cell R U X Up P
  update_activity_time c =
      if ltb_ℤ (pos 0) c.conn.idle_time
      then (let (t, k) = U.now c.kernel in
          record c { kernel = k; conn = record c.conn { active_time = t / second } })
      else c

  abbrev pub set_reading : Bool → Cell R U X Up P → Cell R U X Up P
  set_reading b c = updated c (enable_reading X b c.conn.event c.ctrl)

  abbrev pub set_writing : Bool → Cell R U X Up P → Cell R U X Up P
  set_writing b c = updated c (enable_writing X b c.conn.event c.ctrl)

  -- `DisableAll` and `UnRegister`
  abbrev pub deregister : Cell R U X Up P → Cell R U X Up P
  deregister c =
      let c1 = updated c (disable_all X c.conn.event c.ctrl) in
      updated c1 (unregister X c1.conn.event c1.ctrl)

  abbrev pub call_connect_close : Cell R U X Up P → Cell R U X Up P
  call_connect_close c = elim Up.connect_close [
    | none ↦ c
    | some f ↦ record c { app = f c.app c.conn.peer_addr }
  ]

  -- `unix.Close`, and both buffers go back to their pool, while the connection still points to them.
  abbrev pub release : Cell R U X Up P → Cell R U X Up P
  release c =
      let (in_buffer, p1) = R.put c.pool c.conn.in_buffer in
      let (out_buffer, p2) = R.put p1 c.conn.out_buffer in
      record c {
        conn = record c.conn { in_buffer = in_buffer; out_buffer = out_buffer };
        kernel = (U.close c.kernel c.conn.fd).1;
        pool = p2;
      }

  unfoldable pub close_event : Cell R U X Up P → Cell R U X Up P
  close_event c =
      if is_disconnected c.conn.state
      then c
      else release (
          call_connect_close
            (deregister (record c { conn = record c.conn { state = disconnected } })))

  abbrev pub buffer_out : List ℕ → Cell R U X Up P → Cell R U X Up P
  buffer_out xs c = record c { conn = record c.conn { out_buffer = R.write c.conn.out_buffer xs } }

  abbrev pub retrieve_out : ℕ → Cell R U X Up P → Cell R U X Up P
  retrieve_out n c = record c {
    conn = record c.conn { out_buffer = R.retrieve c.conn.out_buffer n };
  }

  -- `write` behind its call of `unix.Write`.
  unfoldable pub after_write : List ℕ → WriteResult → Cell R U X Up P → Cell R U X Up P
  after_write xs (wrote n) c =
      if ltb n (length xs) then set_writing true (buffer_out (drop n xs) c) else c
  after_write xs (write_failed eagain) c = set_writing true (buffer_out xs c)
  after_write xs (write_failed eintr) c = close_event c
  after_write xs (write_failed (other n)) c = close_event c

  unfoldable pub write : List ℕ → Cell R U X Up P → Cell R U X Up P
  write xs c =
      if R.is_empty c.conn.out_buffer
      then (let (r, k) = U.write c.kernel c.conn.fd xs in
          after_write xs r (record c { kernel = k }))
      else buffer_out xs c

  abbrev pub call_write_complete : Cell R U X Up P → Cell R U X Up P
  call_write_complete c = elim Up.write_complete [ none ↦ c | some f ↦ record c { app = f c.app } ]

  -- The end of `writeEvent`.
  unfoldable pub write_done : Cell R U X Up P → Cell R U X Up P
  write_done c =
      if R.size c.conn.out_buffer == 0
      then (let c1 = if is_writing c.conn.event then set_writing false c else c in
          let c2 = if is_reading c1.conn.event then c1 else set_reading true c1 in
          call_write_complete c2)
      else c

  -- `writeEvent` behind its second and behind its first call of `unix.Write`.
  unfoldable pub after_second : WriteResult → Cell R U X Up P → Cell R U X Up P
  after_second (wrote n) c = write_done (retrieve_out n c)
  after_second (write_failed eagain) c = c
  after_second (write_failed eintr) c = close_event c
  after_second (write_failed (other n)) c = close_event c

  unfoldable pub after_first : List ℕ → List ℕ → WriteResult → Cell R U X Up P → Cell R U X Up P
  after_first first end (wrote n) c =
      let c1 = retrieve_out n c in
      if n == length first && ltb 0 (length end)
      then (let (r, k) = U.write c1.kernel c1.conn.fd end in
          after_second r (record c1 { kernel = k }))
      else write_done c1
  after_first first end (write_failed eagain) c = c
  after_first first end (write_failed eintr) c = close_event c
  after_first first end (write_failed (other n)) c = close_event c

  unfoldable pub write_event : Cell R U X Up P → Cell R U X Up P
  write_event c0 =
      let c = update_activity_time c0 in
      let (first, end) = R.peek_all c.conn.out_buffer in
      let (r, k) = U.write c.kernel c.conn.fd first in
      after_first first end r (record c { kernel = k })

  unfoldable pub err_event : Cell R U X Up P → Cell R U X Up P
  err_event c = close_event c

  module _ (codec : ICodec (Connect R.Buf)) where
    -- What `readEvent` does with the result of the message callback. `Encode`'s error is dropped,
    -- and its nil frame is not written.
    unfoldable pub reply : Option (List ℕ) → Cell R U X Up P → Run (Cell R U X Up P)
    reply none c = finished c
    reply (some out) c = elim (codec.encode out) [
      | returned frame ↦ finished (if length frame == 0 then c else write frame c)
      | failed e ↦ finished c
      | panicked ↦ crashed c
    ]

    unfoldable pub handle_frame : List ℕ → Cell R U X Up P → Run (Cell R U X Up P)
    handle_frame frame c = let (a, out) = Up.message c.app frame in reply out (record c { app = a })

    abbrev pub and_then :
        Run (Cell R U X Up P) → (Cell R U X Up P → Run (Cell R U X Up P)) → Run (Cell R U X Up P)
    and_then (finished c) continue = continue c
    and_then (crashed c) continue = crashed c
    and_then (starved c) continue = starved c

    -- A round of the `for` of `readEvent`, on what `Decode` answered.
    abbrev pub round :
        Outcome (Option (List ℕ))
        → Cell R U X Up P
        → (Cell R U X Up P → Run (Cell R U X Up P))
        → Run (Cell R U X Up P)
    round (returned (some frame)) c continue = and_then (handle_frame frame c) continue
    round (returned none) c continue = finished c
    round (failed e) c continue = finished c
    round panicked c continue = crashed c

    unfoldable pub messages : ℕ → Cell R U X Up P → Run (Cell R U X Up P)
    messages zero c = starved c
    messages (suc fuel) c =
        let (o, conn) = codec.decode c.conn in round o (record c { conn = conn }) (messages fuel)

    -- `inBuffer.Write(temporaryBuf)`
    abbrev pub keep_rest : Run (Cell R U X Up P) → Run (Cell R U X Up P)
    keep_rest (finished c) = finished (record c {
      conn = record c.conn { in_buffer = R.write c.conn.in_buffer c.conn.temporary_buf };
    })
    keep_rest (crashed c) = crashed c
    keep_rest (starved c) = starved c

    -- `readEvent` behind its call of `unix.Read`, with fuel for the loop.
    unfoldable pub after_read : ℕ → ReadResult → Cell R U X Up P → Run (Cell R U X Up P)
    after_read fuel (got []) c = finished (close_event c)
    after_read fuel (got (b ∷ bs)) c =
        keep_rest (messages fuel (record c { conn = record c.conn { temporary_buf = b ∷ bs } }))
    after_read fuel (read_failed eagain) c = finished c
    after_read fuel (read_failed eintr) c = finished (close_event c)
    after_read fuel (read_failed (other n)) c = finished (close_event c)

    unfoldable pub read_event : ℕ → Cell R U X Up P → Run (Cell R U X Up P)
    read_event fuel c0 =
        let c = update_activity_time c0 in
        if R.is_empty c.conn.out_buffer
        then (let (r, k) = U.read c.kernel c.conn.fd buf_len in
            after_read fuel r (record c { kernel = k }))
        else finished (set_reading false c)
