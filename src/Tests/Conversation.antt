-- ===== src/Tests/Conversation.antt =====
-- The theorems about a connection over several calls, about its tasks and about the reports that reach
-- it, on the connections of the fixtures.
use zput_net_golang.Prelude.{◌≡◌, refl, [], ◌∷◌, ◌++◌, arith}
use mathlib.Core.List.{flatten}
use zput_net_golang.EventLoop.Event.{is_reading, is_writing}
use zput_net_golang.Protocol.Codec.{
  ICodec, crlf_byte, line_codec, line_encode, line_decode, index_byte,
}
use zput_net_golang.Protocol.Errors.{crlf_not_found}
use zput_net_golang.Protocol.Framing.{delimited_framer}
use zput_net_golang.Protocol.Framing.Framers.{delimited_framer-IsProductive}
use zput_net_golang.Protocol.Framing.Refine.{line-Decodes}
use zput_net_golang.Connect.State.{Connect}
use zput_net_golang.Connect.Buffers.{connect_conn, read, shift_n, buffer_length}
use zput_net_golang.Connect.Buffers.Stream.{pending, connect_conn-IsStream}
use zput_net_golang.Connect.Codecs.{delimited_sound, line_encode_sound, line-ReadsOnly}
use zput_net_golang.Connect.Methods.{
  Run, finished, crashed, starved, read_event, messages, handle_frame, reply, after_read, write,
  after_write, write_event, after_first, after_second, write_done, update_activity_time,
}
use zput_net_golang.Connect.Methods.Session.{Session, over, reads, writes}
use zput_net_golang.Connect.Methods.Session.Lines.{lines_told}
use zput_net_golang.Connect.Methods.Ending.{read_event_ends}
use zput_net_golang.Tests.Fixtures.{
  EchoCell, established, ring, held, ring-RingLaws, accepted_by, sockets-UnixLaws,
}

abbrev codec : ICodec (Connect ring.Buf)
codec = line_codec (connect_conn ring)

-- A line, cut in two, and the start of another.
abbrev before : EchoCell
before =
    established
      (record { incoming = (104 ∷ []) ∷ (10 ∷ 111 ∷ []) ∷ []; room = 9; accepted = []; time = 0 })

abbrev pub state_of : Run EchoCell → EchoCell
state_of (finished c) = c
state_of (crashed c) = c
state_of (starved c) = c

unfoldable half_read : EchoCell
unfolding read_event
half_read = state_of (read_event codec 2 before)

unfoldable both_read : EchoCell
unfolding read_event write_event half_read
both_read = state_of (read_event codec 4 (write_event half_read))

conversation : Session held codec before ((104 ∷ []) ∷ (10 ∷ 111 ∷ []) ∷ []) both_read
unfolding read_event messages handle_frame reply after_read write after_write write_event
    after_first after_second write_done update_activity_time line_codec line_decode line_encode
    index_byte connect_conn read shift_n buffer_length half_read both_read is_reading is_writing
conversation = reads 104 [] refl refl refl (writes (reads 10 (111 ∷ []) refl refl refl over))

lines_told_example :
    (both_read.app ≡ (104 ∷ []) ∷ [])
    × (accepted_by both_read.kernel both_read.conn.fd ++ held both_read.conn.out_buffer
        ≡ [] ++ (104 ∷ 10 ∷ []))
    × (held both_read.conn.in_buffer ≡ 111 ∷ [])
unfolding line_codec line_encode flatten both_read update_activity_time after_first after_read
    messages index_byte connect_conn write_done is_reading is_writing handle_frame reply write
    after_write
lines_told_example =
    lines_told held ring-RingLaws accepted_by sockets-UnixLaws (λ f e a. absurd (cc e))
      ((104 ∷ []) ∷ []) ((104 ∷ []) ∷ (10 ∷ 111 ∷ []) ∷ []) (111 ∷ []) before both_read refl
      (((ground arith, tt)), tt) (ground arith, tt) refl conversation refl

read_event_ends_example : (c' : EchoCell) × (read_event codec 65536 before ≡ finished c')
unfolding line_codec line_encode
read_event_ends_example =
    read_event_ends held ring-RingLaws accepted_by sockets-UnixLaws codec line_encode_sound
      (delimited_framer crlf_not_found crlf_byte)
      (delimited_framer-IsProductive crlf_not_found crlf_byte)
      (delimited_sound crlf_not_found crlf_byte)
      (line-Decodes (connect_conn ring) (pending ring held ring-RingLaws)
        (connect_conn-IsStream ring held ring-RingLaws))
      (line-ReadsOnly ring) 65536 before (ground arith)
