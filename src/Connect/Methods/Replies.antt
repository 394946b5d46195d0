-- ===== src/Connect/Methods/Replies.antt =====
-- net/connect/connect.go: how `readEvent` answers one message.
use zput_net_golang.Prelude.{
  ℕ, suc, ◌≡◌, ◌≢◌, refl, sym, arith, List, [], ◌∷◌, ◌++◌, append-nil, length, false, inl, inr,
  ◌==◌, if◌then◌else◌, Option, none, some,
}
use zput_net_golang.Outside.RingBuffer.{RingBuffer, RingLaws}
use zput_net_golang.Outside.Unix.{Unix, UnixLaws}
use zput_net_golang.Multiplex.{Multiplex}
use zput_net_golang.Protocol.Errors.{panicked}
use zput_net_golang.Protocol.Codec.{ICodec}
use zput_net_golang.Protocol.Framing.Refine.{Outcome-cases}
use zput_net_golang.Protocol.Framing.RoundTrip.{written}
use zput_net_golang.Connect.State.{Connect, App, Cell}
use zput_net_golang.Connect.Methods.{finished, write, reply}
use zput_net_golang.Connect.Methods.Wire.{IsOpen, queued, write-queued}
use zput_net_golang.Connect.Methods.Keeping.{Keeps, Keeps-self, write-Keeps}

-- A codec that changes nothing of a connection but the bytes that wait to be read.
pub record ReadsOnly {B : Type 0} (codec : ICodec (Connect B)) : Type 0 where
  pub out_same : (c : Connect B) → (codec.decode c).1.out_buffer ≡ c.out_buffer
  pub fd_same : (c : Connect B) → (codec.decode c).1.fd ≡ c.fd
  pub state_same : (c : Connect B) → (codec.decode c).1.state ≡ c.state
  pub event_same : (c : Connect B) → (codec.decode c).1.event ≡ c.event

-- What the peer is sent for a message.
abbrev pub reply_bytes : {S : Type 0} → ICodec S → Option (List ℕ) → List ℕ
reply_bytes codec none = []
reply_bytes codec (some out) = written (codec.encode out)

-- The specification of the message loop: the callback's state and the bytes sent, frame by frame.
abbrev pub responses : {S : Type 0} (Up : App) → ICodec S → Up.A → List (List ℕ) → Up.A × List ℕ
responses Up codec a [] = (a, [])
responses Up codec a (f ∷ fs) =
    let (a1, out) = Up.message a f in
    let (a2, bytes) = responses Up codec a1 fs in (a2, reply_bytes codec out ++ bytes)

module _ {R : RingBuffer} {U : Unix} {X : Multiplex} {Up : App} {P : Type 0}
    (contents : R.Buf → List ℕ) (rl : RingLaws R contents) (wire : U.Kernel → ℕ → List ℕ)
    (ul : UnixLaws U wire) (codec : ICodec (Connect R.Buf))
    (encodes : (xs : List ℕ) → codec.encode xs ≢ panicked) where
  abbrev all_queued : Cell R U X Up P → List ℕ
  all_queued c = queued contents rl wire ul c

  -- What answering with `bytes` came to, from `c` to `c'`.
  pub record Answered (bytes : List ℕ) (c c' : Cell R U X Up P) : Type 0 where
    pub keeps : Keeps contents rl c c'
    pub sent : IsOpen c' → all_queued c' ≡ all_queued c ++ bytes

  unsent : (c : Cell R U X Up P) → Answered [] c c
  unsent c = record { keeps = Keeps-self contents rl; sent = λ o. sym (append-nil _) }

  write_frame : List ℕ → Cell R U X Up P → Cell R U X Up P
  write_frame frame c = if length frame == 0 then c else write frame c

  write_frame-Answered :
      (frame : List ℕ) (c : Cell R U X Up P) → Answered frame c (write_frame frame c)
  unfolding write_frame
  write_frame-Answered [] c = unsent c
  write_frame-Answered (x ∷ frame) c = rw nonzero (record {
    keeps = write-Keeps contents rl (x ∷ frame) c;
    sent = write-queued contents rl wire ul (x ∷ frame) c;
  })
    where
      nonzero : (suc (length frame) == 0) ≡ false
      nonzero = ground arith

  pub reply-Answered :
      (out : Option (List ℕ)) (c : Cell R U X Up P)
      → (c' : Cell R U X Up P) × (reply codec out c ≡ finished c')
        × Answered (reply_bytes codec out) c c'
  unfolding reply write_frame
  reply-Answered none c = (c, refl, unsent c)
  reply-Answered (some out) c = elim (Outcome-cases (codec.encode out)) [
    | inl (frame, e) ↦ (write_frame frame c, rw (e, reply), rw e (write_frame-Answered frame c))
    | inr (inl (d, e)) ↦ (c, rw (e, reply), rw e (unsent c))
    | inr (inr e) ↦ absurd (encodes out e)
  ]
