-- ===== src/Connect/Methods/Session/Framed.antt =====
-- net/connect/connect.go: a session with a codec that reads some frames out of the pieces.
use zput_net_golang.Prelude.{ℕ, ◌≡◌, ◌≢◌, ap, subst, ◌∙◌, List, [], ◌++◌, false, some}
use zput_net_golang.Outside.RingBuffer.{RingBuffer, RingLaws}
use zput_net_golang.Outside.Unix.{Unix, UnixLaws}
use zput_net_golang.Multiplex.{Multiplex}
use zput_net_golang.Protocol.Errors.{panicked}
use zput_net_golang.Protocol.Codec.{ICodec}
use zput_net_golang.Protocol.Framing.{Verdict, crash, Framer, Decodes, IsProductive}
use zput_net_golang.Protocol.Framing.Stream.{Drained, feed}
use zput_net_golang.Connect.State.{Connect, App, Cell}
use zput_net_golang.Connect.Buffers.Stream.{pending}
use zput_net_golang.Connect.Methods.{is_disconnected}
use zput_net_golang.Connect.Methods.Wire.{queued}
use zput_net_golang.Connect.Methods.Replies.{ReadsOnly, responses}
use zput_net_golang.Connect.Methods.Session.{Session, Told, Session-Told}

module _ {R : RingBuffer} {U : Unix} {X : Multiplex} {Up : App} {P : Type 0}
    (contents : R.Buf → List ℕ) (rl : RingLaws R contents) (wire : U.Kernel → ℕ → List ℕ)
    (ul : UnixLaws U wire) (codec : ICodec (Connect R.Buf))
    (encodes : (xs : List ℕ) → codec.encode xs ≢ panicked) (F : Framer)
    (productive : IsProductive F) (sound : (xs : List ℕ) (k : ℕ) → F xs ≢ crash k)
    (decodes : Decodes codec (pending R contents rl) F) (pure : ReadsOnly codec)
    (quiet : (f : Up.A → Up.A) → Up.write_complete ≡ some f → (a : Up.A) → f a ≡ a) where
  -- What the upper layer saw and what was sent, when the frames `fs` were read and `tail` was kept.
  abbrev pub HasTold : List (List ℕ) → List ℕ → Cell R U X Up P → Cell R U X Up P → Type 0
  HasTold fs tail c c' =
      (c'.app ≡ (responses Up codec c.app fs).0)
      × (queued contents rl wire ul c'
          ≡ queued contents rl wire ul c ++ (responses Up codec c.app fs).1)
      × (contents c'.conn.in_buffer ≡ tail)

  pub Session-HasTold :
      (fs pieces : List (List ℕ)) (tail : List ℕ) (v : Verdict) (c c' : Cell R U X Up P)
      → contents c.conn.in_buffer ≡ []
      → feed F [] pieces ≡ record { frames = fs; rest = tail; verdict = v }
      → Session contents codec c pieces c'
      → is_disconnected c'.conn.state ≡ false
      → HasTold fs tail c c'
  Session-HasTold fs pieces tail v c c' none e s o =
      subst (λ (d : Drained). HasTold d.frames d.rest c c') all_frames
        (told.app_after, told.sent_after, told.kept)
    where
      all_frames :
          feed F (contents c.conn.in_buffer) pieces
          ≡ record { frames = fs; rest = tail; verdict = v }
      all_frames = ap (λ x. feed F x pieces) none ∙ e

      told :
          Told contents rl wire ul codec encodes F productive sound decodes pure quiet c
            (feed F (contents c.conn.in_buffer) pieces)
            c'
      told =
          Session-Told contents rl wire ul codec encodes F productive sound decodes pure quiet s o
