-- ===== src/Tests/Handling.antt =====
-- The theorems about a connection's handlers, on an established connection of the fixtures.
use zput_net_golang.Prelude.{ℕ, ◌≡◌, refl, [], ◌∷◌, ◌++◌, ◌⊎◌, inl, inr, true, false, arith}
use zput_net_golang.Multiplex.Kqueue.{kqueues}
use zput_net_golang.EventLoop.Event.{is_reading, is_writing, enable_reading}
use zput_net_golang.Protocol.Codec.{crlf_byte, line_codec, line_encode, index_byte}
use zput_net_golang.Protocol.Conn.{IsStream}
use zput_net_golang.Protocol.Errors.{crlf_not_found}
use zput_net_golang.Protocol.Framing.{delimited_framer}
use zput_net_golang.Protocol.Framing.Framers.{delimited_framer-IsProductive}
use zput_net_golang.Protocol.Framing.Refine.{line-Decodes}
use zput_net_golang.Protocol.Framing.Stream.{drained, drain}
use zput_net_golang.Connect.Buffers.{connect_conn}
use zput_net_golang.Connect.Buffers.Stream.{pending, connect_conn-IsStream}
use zput_net_golang.Connect.Codecs.{delimited_sound, line_encode_sound, line-ReadsOnly}
use zput_net_golang.Connect.Methods.{
  is_disconnected, finished, write, write_event, read_event, update_activity_time, after_write,
  after_first, after_second, write_done,
}
use zput_net_golang.Connect.Methods.Wire.{write-queued, write_event-queued}
use zput_net_golang.Connect.Methods.Messages.{read_event-told}
use zput_net_golang.Connect.Methods.Speaking.Through.{read_event_goes_on}
use zput_net_golang.Outside.Unix.{Unix, UnixLaws, write_failed, eintr}
use zput_net_golang.Connect.State.{Cell}
use zput_net_golang.Multiplex.Kqueue.{kqueues}
use zput_net_golang.Tests.Fixtures.{sockets, echo}
use zput_net_golang.Connect.Methods.Interest.{Served, write_event-Served}
use zput_net_golang.Connect.Methods.Reading.{read_event-Served}
use zput_net_golang.Tests.Fixtures.{
  EchoCell, established, ring, held, ring-RingLaws, accepted_by, sockets-UnixLaws,
}

-- A line and the start of another have come in; the socket accepts two bytes.
abbrev ready : EchoCell
ready =
    established
      (record { incoming = (104 ∷ 105 ∷ 10 ∷ 111 ∷ []) ∷ []; room = 2; accepted = []; time = 0 })

-- Two bytes wait to be written, and the event waits to write.
abbrev waiting_to_write : EchoCell
waiting_to_write = record ready {
  conn = record ready.conn {
    out_buffer = (7 ∷ [], 8 ∷ 9 ∷ []);
    event = record ready.conn.event { events = 0x83 };
  };
}

ready-Served : Served ready.conn.event []
unfolding is_reading
ready-Served = record { bits = ground arith; draining = inl refl; listening = inl refl }

waiting-Served : Served waiting_to_write.conn.event (7 ∷ 8 ∷ 9 ∷ [])
unfolding is_reading is_writing
waiting-Served = record { bits = ground arith; draining = inr refl; listening = inl refl }

read_event-told_example :
    (c' : EchoCell) × (read_event (line_codec (connect_conn ring)) 9 ready ≡ finished c')
    × (held c'.conn.in_buffer ≡ 111 ∷ [])
    × ((is_disconnected c'.conn.state ≡ true)
        ⊎ ((is_disconnected ready.conn.state ≡ false)
            × (c'.app ≡ (104 ∷ 105 ∷ []) ∷ [])
            × (accepted_by c'.kernel c'.conn.fd ++ held c'.conn.out_buffer ≡ 104 ∷ 105 ∷ 10 ∷ [])))
unfolding drained drain delimited_framer index_byte line_codec line_encode update_activity_time
read_event-told_example =
    read_event-told held ring-RingLaws accepted_by sockets-UnixLaws (line_codec (connect_conn ring))
      line_encode_sound (delimited_framer crlf_not_found crlf_byte)
      (delimited_framer-IsProductive crlf_not_found crlf_byte)
      (delimited_sound crlf_not_found crlf_byte)
      (line-Decodes (connect_conn ring) (pending ring held ring-RingLaws)
        (connect_conn-IsStream ring held ring-RingLaws))
      (line-ReadsOnly ring) 9 104 (105 ∷ 10 ∷ 111 ∷ []) ready refl refl (ground arith)

write_event-queued_example :
    accepted_by (write_event waiting_to_write).kernel 7
      ++ held (write_event waiting_to_write).conn.out_buffer
    ≡ 7 ∷ 8 ∷ 9 ∷ []
unfolding write_event after_first after_second write_done update_activity_time
write_event-queued_example =
    write_event-queued held ring-RingLaws accepted_by sockets-UnixLaws waiting_to_write refl

write-queued_example :
    accepted_by (write (1 ∷ 2 ∷ 3 ∷ []) ready).kernel 7
      ++ held (write (1 ∷ 2 ∷ 3 ∷ []) ready).conn.out_buffer
    ≡ 1 ∷ 2 ∷ 3 ∷ []
unfolding write after_write
write-queued_example =
    write-queued held ring-RingLaws accepted_by sockets-UnixLaws (1 ∷ 2 ∷ 3 ∷ []) ready refl

write_event-Served_example :
    Served
      (write_event waiting_to_write).conn.event
      (held (write_event waiting_to_write).conn.out_buffer)
unfolding write_event after_first after_second write_done update_activity_time
write_event-Served_example =
    write_event-Served held ring-RingLaws waiting_to_write waiting-Served refl

-- `readEvent` with bytes waiting to be written turns reading off.
abbrev paused : EchoCell
paused = record waiting_to_write {
  conn = record waiting_to_write.conn {
    event = record waiting_to_write.conn.event { events = 0x82; old_events = 0x83 };
  };
  ctrl = (enable_reading kqueues false waiting_to_write.conn.event waiting_to_write.ctrl).2;
}

read_event-Served_example : Served paused.conn.event (held paused.conn.out_buffer)
unfolding read_event update_activity_time enable_reading
read_event-Served_example =
    read_event-Served held ring-RingLaws (line_codec (connect_conn ring)) (line-ReadsOnly ring) 9
      waiting_to_write paused waiting-Served refl refl

connect_conn-IsStream_example : IsStream (connect_conn ring) (pending ring held ring-RingLaws)
connect_conn-IsStream_example = connect_conn-IsStream ring held ring-RingLaws

-- A socket that refuses every write.
abbrev refusing : Unix
refusing = record sockets { write = λ k fd xs. (write_failed eintr, k) }

refusing-UnixLaws : UnixLaws refusing accepted_by
refusing-UnixLaws = record {
  write_front = λ k fd n xs h. absurd (cc h);
  write_none = λ k fd xs e h. refl;
  now_wire = sockets-UnixLaws.now_wire;
  read_wire = sockets-UnixLaws.read_wire;
  read_bound = sockets-UnixLaws.read_bound;
}

-- Two lines have come in.
abbrev refused : Cell ring refusing kqueues echo ℕ
refused =
    let c =
      established
        (record { incoming = (1 ∷ 10 ∷ 2 ∷ 10 ∷ []) ∷ []; room = 9; accepted = []; time = 0 }) in
    record {
      conn = c.conn;
      self = c.self;
      kernel = c.kernel;
      ctrl = c.ctrl;
      app = c.app;
      pool = c.pool;
    }

read_event_goes_on_example :
    (c' : Cell ring refusing kqueues echo ℕ) × (read_event
        (line_codec (connect_conn ring))
        9
        refused
      ≡ finished c')
    × (c'.app ≡ (1 ∷ []) ∷ (2 ∷ []) ∷ [])
unfolding drained drain delimited_framer index_byte line_codec line_encode update_activity_time
read_event_goes_on_example =
    read_event_goes_on (λ f e a name. absurd (cc e)) held ring-RingLaws accepted_by
      refusing-UnixLaws (line_codec (connect_conn ring)) line_encode_sound
      (delimited_framer crlf_not_found crlf_byte)
      (delimited_framer-IsProductive crlf_not_found crlf_byte)
      (delimited_sound crlf_not_found crlf_byte)
      (line-Decodes (connect_conn ring) (pending ring held ring-RingLaws)
        (connect_conn-IsStream ring held ring-RingLaws))
      (line-ReadsOnly ring) 9 1 (10 ∷ 2 ∷ 10 ∷ []) refused refl refl (ground arith)
