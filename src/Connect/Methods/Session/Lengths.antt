-- ===== src/Connect/Methods/Session/Lengths.antt =====
-- net/connect/connect.go with the length-field codec of net/protocol/codec.go, from end to end.
use mathlib.Core.List.{flatten}
use zput_net_golang.Prelude.{ℕ, ◌≡◌, ap, arith, List, [], ◌++◌, All, false, some, pos_part}
use zput_net_golang.Outside.RingBuffer.{RingBuffer, RingLaws}
use zput_net_golang.Outside.Unix.{Unix, UnixLaws}
use zput_net_golang.Multiplex.{Multiplex}
use zput_net_golang.Protocol.LengthField.{
  EncoderConfig, DecoderConfig, length_field_encode, length_field_codec,
}
use zput_net_golang.Protocol.Framing.{length_field_framer}
use zput_net_golang.Protocol.Framing.Framers.{length_field_framer-IsProductive}
use zput_net_golang.Protocol.Framing.Stream.{IsOver}
use zput_net_golang.Protocol.Framing.RoundTrip.{sent}
use zput_net_golang.Protocol.Framing.Refine.{length_field-Decodes}
use zput_net_golang.Protocol.Framing.Sound.{length_field_sound, length_field_encode_sound}
use zput_net_golang.Protocol.Framing.LengthFields.{Matches, Fits, length_field_roundtrip}
use zput_net_golang.Connect.State.{App, Cell}
use zput_net_golang.Connect.Buffers.{connect_conn}
use zput_net_golang.Connect.Buffers.Stream.{pending, connect_conn-IsStream}
use zput_net_golang.Connect.Codecs.{length_field-ReadsOnly}
use zput_net_golang.Connect.Methods.{is_disconnected}
use zput_net_golang.Connect.Methods.Wire.{queued}
use zput_net_golang.Connect.Methods.Replies.{responses}
use zput_net_golang.Connect.Methods.Session.{Session}
use zput_net_golang.Connect.Methods.Session.Framed.{Session-HasTold}

module _ {R : RingBuffer} {U : Unix} {X : Multiplex} {Up : App} {P : Type 0}
    (contents : R.Buf → List ℕ) (rl : RingLaws R contents) (wire : U.Kernel → ℕ → List ℕ)
    (ul : UnixLaws U wire)
    (quiet : (f : Up.A → Up.A) → Up.write_complete ≡ some f → (a : Up.A) → f a ≡ a) where
  -- A peer encodes frames that its configuration and the connection's, which match, carry, one after the
  -- other, and
  -- adds bytes that hold no whole frame; the bytes come in cut into pieces anywhere, over several reads
  -- of a connection that held none, with writes between them, and the write-complete callback does
  -- nothing. If the connection is open then, the message callback was called with exactly those
  -- frames, in order; its answers, encoded, follow what was queued for the socket; and the other bytes
  -- are kept.
  pub lengths_told :
      (ec : EncoderConfig) (dc : DecoderConfig) (w : ℕ) (fs pieces : List (List ℕ)) (tail : List ℕ)
      (c c' : Cell R U X Up P)
      → Matches ec dc w
      → contents c.conn.in_buffer ≡ []
      → All (Fits ec dc w) fs
      → IsOver (length_field_framer dc tail)
      → flatten pieces ≡ sent (length_field_encode ec) fs ++ tail
      → Session contents (length_field_codec (connect_conn R) ec dc) c pieces c'
      → is_disconnected c'.conn.state ≡ false
      → let said = responses Up (length_field_codec (connect_conn R) ec dc) c.app fs in
        (c'.app ≡ said.0)
        × (queued contents rl wire ul c' ≡ queued contents rl wire ul c ++ said.1)
        × (contents c'.conn.in_buffer ≡ tail)
  unfolding length_field_codec
  lengths_told ec dc w fs pieces tail c c' m none h t e s o =
      Session-HasTold contents rl wire ul (length_field_codec (connect_conn R) ec dc)
        (length_field_encode_sound ec) (length_field_framer dc)
        (length_field_framer-IsProductive dc)
        (length_field_sound dc w m.strip (omega (arith, ap pos_part m.decoder_width)))
        (length_field-Decodes (connect_conn R) (pending R contents rl)
          (connect_conn-IsStream R contents rl) ec dc)
        (length_field-ReadsOnly R ec dc) quiet fs pieces tail (length_field_framer dc tail) c c'
        none (length_field_roundtrip m fs pieces tail h t e) s o
