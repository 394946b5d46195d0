-- ===== src/Example/Echo/Echoing.antt =====
-- example/echo/echo.go with the built-in codec: the server sends back what it is sent.
use mathlib.Core.List.{flatten}
use zput_net_golang.Prelude.{
  ℕ, suc, ◌<◌, ◌≡◌, refl, sym, ap, ◌∙◌, arith, List, [], ◌∷◌, ◌++◌, length, drop, All, false,
  Option, none, some,
}
use zput_net_golang.Outside.RingBuffer.{RingBuffer, RingLaws}
use zput_net_golang.Outside.Unix.{Unix, UnixLaws}
use zput_net_golang.Multiplex.{Multiplex}
use zput_net_golang.Protocol.Codec.{builtin_codec, builtin_encode}
use zput_net_golang.Protocol.Framing.{quiet, deliver, builtin_framer}
use zput_net_golang.Protocol.Framing.Framers.{builtin_framer-IsProductive}
use zput_net_golang.Protocol.Framing.Stream.{
  feed, drained, deliver_first, drained_deliver, drained_over,
}
use zput_net_golang.Protocol.Framing.Refine.{builtin-Decodes}
use zput_net_golang.Connect.State.{App, Cell}
use zput_net_golang.Connect.Buffers.{connect_conn}
use zput_net_golang.Connect.Buffers.Stream.{pending, connect_conn-IsStream}
use zput_net_golang.Connect.Codecs.{builtin_sound, builtin_encode_sound, builtin-ReadsOnly}
use zput_net_golang.Connect.Methods.{is_disconnected}
use zput_net_golang.Connect.Methods.Wire.{queued}
use zput_net_golang.Connect.Methods.Replies.{responses}
use zput_net_golang.Connect.Methods.Session.{Session, over, reads, writes}
use zput_net_golang.Connect.Methods.Session.Framed.{Session-HasTold}
use zput_net_golang.Server.Reference.{callbacks}
use zput_net_golang.Example.Echo.{echo, message_callback}

whole : (x : ℕ) (xs : List ℕ) → builtin_framer (x ∷ xs) ≡ deliver (x ∷ xs) (suc (length xs))
unfolding builtin_framer
whole x xs = ground arith

drop_whole : (xs : List ℕ) → drop (length xs) xs ≡ []
drop_whole [] = refl
drop_whole (x ∷ xs) = drop_whole xs

drained_whole :
    (x : ℕ) (xs : List ℕ)
    → drained builtin_framer (x ∷ xs)
      ≡ record { frames = (x ∷ xs) ∷ []; rest = []; verdict = quiet }
unfolding builtin_framer
drained_whole x xs =
    drained_deliver builtin_framer builtin_framer-IsProductive (whole x xs)
    ∙ ap (λ t. deliver_first (x ∷ xs) (drained builtin_framer t)) (drop_whole (x ∷ xs))
    ∙ ap (deliver_first (x ∷ xs)) (drained_over builtin_framer builtin_framer-IsProductive [] tt)

-- The pieces of a session are the frames of the built-in codec: none is empty.
fed :
    (pieces : List (List ℕ))
    → All (λ p. 0 < length p) pieces
    → feed builtin_framer [] pieces ≡ record { frames = pieces; rest = []; verdict = quiet }
unfolding feed builtin_framer
fed [] h = refl
fed ([] ∷ ps) h = absurd (omega (arith, h.0))
fed ((x ∷ xs) ∷ ps) h = rw (drained_whole x xs) (ap (deliver_first (x ∷ xs)) (fed ps h.1))

module _ {R : RingBuffer} {U : Unix} {X : Multiplex} {Up : App} {P : Type 0}
    (contents : R.Buf → List ℕ) where
  -- No read that `readEvent` handles is empty.
  pieces_nonempty :
      {c c' : Cell R U X Up P} {pieces : List (List ℕ)}
      → Session contents (builtin_codec (connect_conn R)) c pieces c'
      → All (λ p. 0 < length p) pieces
  pieces_nonempty over = tt
  pieces_nonempty (reads b bs e r ended s) = (omega arith, pieces_nonempty s)
  pieces_nonempty (writes s) = pieces_nonempty s

-- The handler answers each frame with itself and keeps its state.
echoed :
    (R : RingBuffer) {C : Type 0} (p : C) (a : (callbacks echo p).A) (fs : List (List ℕ))
    → responses (callbacks echo p) (builtin_codec (connect_conn R)) a fs ≡ (a, flatten fs)
unfolding message_callback builtin_codec builtin_encode flatten
echoed R p a [] = refl
echoed R p a (f ∷ fs) = ap (λ t. (t.0, f ++ t.1)) (echoed R p a fs)

applied : {A : Type 0} → A → Option (A → A) → A
applied a none = a
applied a (some f) = f a

-- The write-complete callback does nothing.
echo_quiet :
    {C : Type 0} (p : C) (f : (callbacks echo p).A → (callbacks echo p).A)
    → (callbacks echo p).write_complete ≡ some f
    → (a : (callbacks echo p).A) → f a ≡ a
unfolding applied
echo_quiet p f e a = ap (applied a) (sym e)

module _ {R : RingBuffer} {U : Unix} {X : Multiplex} {P C : Type 0} (contents : R.Buf → List ℕ)
    (rl : RingLaws R contents) (wire : U.Kernel → ℕ → List ℕ) (ul : UnixLaws U wire) where
  -- A server with the handler of the example and the built-in codec, whatever comes in over several
  -- reads of a connection that held no bytes, with writes between them: if the connection is open
  -- then, what it accepted for the socket or keeps for it is what it had, and then exactly the bytes
  -- that came in, in order; no byte is kept unread, and the handler's count and the map of connections
  -- are as they were.
  pub echo_echoes :
      (p : C) (pieces : List (List ℕ)) (c c' : Cell R U X (callbacks echo p) P)
      → contents c.conn.in_buffer ≡ []
      → Session contents (builtin_codec (connect_conn R)) c pieces c'
      → is_disconnected c'.conn.state ≡ false
      → (queued contents rl wire ul c' ≡ queued contents rl wire ul c ++ flatten pieces)
        × (contents c'.conn.in_buffer ≡ [])
        × (c'.app ≡ c.app)
  unfolding builtin_codec
  echo_echoes p pieces c c' e s o =
      let (app, sent, kept) =
        Session-HasTold contents rl wire ul (builtin_codec (connect_conn R)) builtin_encode_sound
          builtin_framer builtin_framer-IsProductive builtin_sound
          (builtin-Decodes (connect_conn R) (pending R contents rl)
            (connect_conn-IsStream R contents rl))
          (builtin-ReadsOnly R) (echo_quiet p) pieces pieces [] quiet c c' e
          (fed pieces (pieces_nonempty contents s)) s o in
      (
        sent ∙ ap (λ t. queued contents rl wire ul c ++ t.1) (echoed R p c.app pieces),
        kept,
        app ∙ ap (λ t. t.0) (echoed R p c.app pieces),
      )
