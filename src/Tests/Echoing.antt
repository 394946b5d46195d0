-- ===== src/Tests/Echoing.antt =====
-- The example's handler and the length-field codec, from end to end, on the connections of the fixtures.
use zput_net_golang.Prelude.{
  some, none, ℕ, List, ◌≡◌, ◌≢◌, refl, [], ◌∷◌, ◌++◌, arith, pos, ◌+int◌, ◌+ℤ◌, int_of_u64,
  u64_of_int,
}
use mathlib.Core.List.{flatten}
use zput_net_golang.EventLoop.Event.{is_reading, is_writing}
use zput_net_golang.Protocol.Codec.{ICodec, builtin_codec, builtin_encode, builtin_decode}
use zput_net_golang.Protocol.LengthField.{
  length_field_codec, length_field_encode, length_field_decode, encoded_length, full_message,
  unadjusted_frame_length, discard_header, inner_read_n, length_case, length_field, slice_from,
}
use zput_net_golang.Protocol.ByteOrder.{put_uint, uint}
use zput_net_golang.Protocol.Framing.{length_field_framer, crash}
use zput_net_golang.Protocol.Framing.Sound.{length_field_sound}
use zput_net_golang.Connect.State.{App, Cell, Connect}
use zput_net_golang.Connect.Buffers.{connect_conn, read, reset_buffer, shift_n, buffer_length}
use zput_net_golang.Connect.Methods.{
  Run, finished, crashed, starved, read_event, messages, handle_frame, reply, after_read, write,
  after_write, update_activity_time,
}
use zput_net_golang.Connect.Methods.Session.{Session, over, reads}
use zput_net_golang.Connect.Methods.Session.Lengths.{lengths_told}
use zput_net_golang.Multiplex.Kqueue.{kqueues}
use zput_net_golang.Server.Reference.{callbacks}
use zput_net_golang.Example.Echo.{new_echo, get_connect_times, message_callback}
use zput_net_golang.Example.Echo.{echo as example}
use zput_net_golang.Example.Echo.Counting.{
  Call, connects, closes, messages as sends, make_calls, connect_times_counted,
}
use zput_net_golang.Example.Echo.Served.{echo_served}
use zput_net_golang.Connect.Lifecycle.{new_connect, connected_handle, set_no_delay}
use zput_net_golang.Connect.State.{on_read, on_write, on_error, on_close, disconnected}
use zput_net_golang.EventLoop.Event.{new_event, register, enable_reading, enable_error_event}
use zput_net_golang.Multiplex.Kqueue
use zput_net_golang.Tests.Fixtures.{Socket, Wrapped}
use zput_net_golang.Tests.Fixtures.{
  EchoCell, sockets, established, established_for, ring, held, ring-RingLaws, accepted_by,
  sockets-UnixLaws,
}
use zput_net_golang.Tests.Framing.{writes_two, reads_two, two-Matches, two-Fits}
use zput_net_golang.Tests.Conversation.{state_of}

-- The pointer to a connection is a number.
abbrev upper : App
upper = callbacks {C = ℕ} example 3

abbrev Served : Type 0
Served = Cell ring sockets kqueues upper ℕ

abbrev builtin : ICodec (Connect ring.Buf)
builtin = builtin_codec (connect_conn ring)

-- The socket takes four bytes of six.
abbrev socket : Socket
socket = record {
  incoming = (1 ∷ 2 ∷ 3 ∷ []) ∷ (4 ∷ 5 ∷ 6 ∷ []) ∷ [];
  room = 4;
  accepted = [];
  time = 0;
}

-- What `New` makes.
abbrev born : Connect Wrapped
born = record {
  event = record {
    event_fd = 7;
    events = 0;
    old_events = 0;
    read_handle = some on_read;
    write_handle = some on_write;
    error_handle = some on_error;
    close_handle = some on_close;
  };
  temporary_buf = [];
  out_buffer = ([], []);
  in_buffer = ([], []);
  byte_buffer = none;
  state = disconnected;
  fd = 7;
  peer_addr = "10.0.0.1:4000";
  idle_time = pos 0;
  active_time = 0;
}

abbrev fresh : Served
fresh = record (established_for upper (new_echo, ("10.0.0.1:4000", 3) ∷ []) socket) {
  conn = born;
  ctrl = record { event_pool = []; multi = record { changes = []; wait_events = 1024 } };
}

abbrev outcome : Run Served → Served
outcome (finished c) = c
outcome (crashed c) = c
outcome (starved c) = c

unfoldable started : Served
unfolding connected_handle
started = (connected_handle fresh).1

unfoldable first_read : Served
unfolding read_event started
first_read = outcome (read_event builtin 4 started)

unfoldable all_read : Served
unfolding read_event first_read
all_read = outcome (read_event builtin 4 first_read)

heard :
    Session held builtin
      (connected_handle fresh).1
      ((1 ∷ 2 ∷ 3 ∷ []) ∷ (4 ∷ 5 ∷ 6 ∷ []) ∷ [])
      all_read
unfolding read_event messages handle_frame reply after_read write after_write update_activity_time
    builtin_codec builtin_decode builtin_encode connected_handle started register enable_reading
    enable_error_event connect_conn read reset_buffer buffer_length first_read all_read is_reading
    is_writing message_callback Kqueue.add_event Kqueue.modify_event
heard = reads 1 (2 ∷ 3 ∷ []) refl refl refl (reads 4 (5 ∷ 6 ∷ []) refl refl refl over)

echo_served_example :
    (accepted_by all_read.kernel all_read.conn.fd ++ held all_read.conn.out_buffer
      ≡ [] ++ (1 ∷ 2 ∷ 3 ∷ 4 ∷ 5 ∷ 6 ∷ []))
    × (held all_read.conn.in_buffer ≡ [])
    × (all_read.app ≡ (new_echo, ("10.0.0.1:4000", 3) ∷ []))
unfolding flatten all_read builtin_codec builtin_encode builtin_decode update_activity_time
    after_read messages connect_conn is_reading is_writing handle_frame reply write after_write
    read_event first_read read reset_buffer buffer_length message_callback connected_handle started
    register enable_reading enable_error_event new_connect set_no_delay new_event Kqueue.add_event
    Kqueue.modify_event
echo_served_example =
    echo_served held ring-RingLaws accepted_by sockets-UnixLaws socket [] 7 "10.0.0.1:4000" (pos 0)
      born 3 ((1 ∷ 2 ∷ 3 ∷ []) ∷ (4 ∷ 5 ∷ 6 ∷ []) ∷ []) fresh all_read refl refl refl heard refl

abbrev measured : ICodec (Connect ring.Buf)
measured = length_field_codec (connect_conn ring) writes_two reads_two

-- A frame in two pieces, and the start of another.
abbrev before : EchoCell
before =
    established (record {
      incoming = (0 ∷ 2 ∷ 5 ∷ []) ∷ (6 ∷ 0 ∷ []) ∷ [];
      room = 9;
      accepted = [];
      time = 0;
    })

unfoldable half_framed : EchoCell
unfolding read_event
half_framed = state_of (read_event measured 4 before)

unfoldable framed : EchoCell
unfolding read_event half_framed
framed = state_of (read_event measured 6 half_framed)

exchange : Session held measured before ((0 ∷ 2 ∷ 5 ∷ []) ∷ (6 ∷ 0 ∷ []) ∷ []) framed
unfolding read_event messages handle_frame reply after_read write after_write update_activity_time
    length_field_codec length_field_decode length_field_encode encoded_length full_message
    unadjusted_frame_length discard_header inner_read_n length_case length_field slice_from put_uint
    uint ◌+int◌ ◌+ℤ◌ int_of_u64 u64_of_int connect_conn read shift_n buffer_length half_framed
    framed is_reading is_writing
exchange = reads 0 (2 ∷ 5 ∷ []) refl refl refl (reads 6 (0 ∷ []) refl refl refl over)

lengths_told_example :
    (framed.app ≡ (5 ∷ 6 ∷ []) ∷ [])
    × (accepted_by framed.kernel framed.conn.fd ++ held framed.conn.out_buffer
        ≡ [] ++ (0 ∷ 2 ∷ 5 ∷ 6 ∷ []))
    × (held framed.conn.in_buffer ≡ 0 ∷ [])
unfolding read_event messages handle_frame reply after_read write after_write update_activity_time
    length_field_codec length_field_decode length_field_encode encoded_length full_message
    unadjusted_frame_length discard_header inner_read_n length_case length_field slice_from put_uint
    uint ◌+int◌ ◌+ℤ◌ int_of_u64 u64_of_int connect_conn read shift_n buffer_length half_framed
    framed is_reading is_writing flatten length_field_framer
lengths_told_example =
    lengths_told held ring-RingLaws accepted_by sockets-UnixLaws (λ f e a. absurd (cc e)) writes_two
      reads_two 2 ((5 ∷ 6 ∷ []) ∷ []) ((0 ∷ 2 ∷ 5 ∷ []) ∷ (6 ∷ 0 ∷ []) ∷ []) (0 ∷ []) before framed
      two-Matches refl (two-Fits, tt) tt refl exchange refl

abbrev calls : List (Call ℕ)
calls = connects 3 ∷ sends 3 (1 ∷ []) ∷ closes 3 ∷ connects 4 ∷ []

connect_times_counted_example :
    get_connect_times (make_calls {C = ℕ} example calls new_echo) ≡ pos 2
connect_times_counted_example = connect_times_counted calls (ground arith)

length_field_sound_example : length_field_framer reads_two (0 ∷ 9 ∷ []) ≢ crash 2
length_field_sound_example = length_field_sound reads_two 2 refl (ground arith) (0 ∷ 9 ∷ []) 2
