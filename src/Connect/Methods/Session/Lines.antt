-- ===== src/Connect/Methods/Session/Lines.antt =====
-- net/connect/connect.go with the line codec of net/protocol/codec.go, from end to end.
use mathlib.Core.List.{flatten}
use zput_net_golang.Prelude.{ℕ, ◌≡◌, List, [], ◌++◌, All, false, some}
use zput_net_golang.Outside.RingBuffer.{RingBuffer, RingLaws}
use zput_net_golang.Outside.Unix.{Unix, UnixLaws}
use zput_net_golang.Multiplex.{Multiplex}
use zput_net_golang.Protocol.Errors.{crlf_not_found}
use zput_net_golang.Protocol.Codec.{line_codec, line_encode, crlf_byte}
use zput_net_golang.Protocol.Framing.{fault, delimited_framer}
use zput_net_golang.Protocol.Framing.Framers.{delimited_framer-IsProductive}
use zput_net_golang.Protocol.Framing.RoundTrip.{sent}
use zput_net_golang.Protocol.Framing.Delimited.{IsFree, line_roundtrip}
use zput_net_golang.Protocol.Framing.Refine.{line-Decodes}
use zput_net_golang.Connect.State.{App, Cell}
use zput_net_golang.Connect.Buffers.{connect_conn}
use zput_net_golang.Connect.Buffers.Stream.{pending, connect_conn-IsStream}
use zput_net_golang.Connect.Codecs.{delimited_sound, line_encode_sound, line-ReadsOnly}
use zput_net_golang.Connect.Methods.{is_disconnected}
use zput_net_golang.Connect.Methods.Wire.{queued}
use zput_net_golang.Connect.Methods.Replies.{responses}
use zput_net_golang.Connect.Methods.Session.{Session}
use zput_net_golang.Connect.Methods.Session.Framed.{Session-HasTold}

module _ {R : RingBuffer} {U : Unix} {X : Multiplex} {Up : App} {P : Type 0}
    (contents : R.Buf → List ℕ) (rl : RingLaws R contents) (wire : U.Kernel → ℕ → List ℕ)
    (ul : UnixLaws U wire)
    (quiet : (f : Up.A → Up.A) → Up.write_complete ≡ some f → (a : Up.A) → f a ≡ a) where
  -- A peer encodes lines without the line byte one after the other and adds an unfinished one; the
  -- bytes come in cut into pieces anywhere, over several reads of a connection that held none, with
  -- writes between them, and the write-complete callback does nothing. If the connection is open then,
  -- the message callback was called with exactly those lines, in order; its answers, encoded, follow
  -- what was queued for the socket; and the unfinished line is kept.
  pub lines_told :
      (fs pieces : List (List ℕ)) (tail : List ℕ) (c c' : Cell R U X Up P)
      → contents c.conn.in_buffer ≡ []
      → All (IsFree crlf_byte) fs
      → IsFree crlf_byte tail
      → flatten pieces ≡ sent line_encode fs ++ tail
      → Session contents (line_codec (connect_conn R)) c pieces c'
      → is_disconnected c'.conn.state ≡ false
      → let said = responses Up (line_codec (connect_conn R)) c.app fs in
        (c'.app ≡ said.0)
        × (queued contents rl wire ul c' ≡ queued contents rl wire ul c ++ said.1)
        × (contents c'.conn.in_buffer ≡ tail)
  unfolding line_codec line_encode
  lines_told fs pieces tail c c' none h t e s o =
      Session-HasTold contents rl wire ul (line_codec (connect_conn R)) line_encode_sound
        (delimited_framer crlf_not_found crlf_byte)
        (delimited_framer-IsProductive crlf_not_found crlf_byte)
        (delimited_sound crlf_not_found crlf_byte)
        (line-Decodes (connect_conn R) (pending R contents rl)
          (connect_conn-IsStream R contents rl))
        (line-ReadsOnly R) quiet fs pieces tail (fault crlf_not_found) c c' none
        (line_roundtrip fs pieces tail h t e) s o
