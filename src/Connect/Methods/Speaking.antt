-- ===== src/Connect/Methods/Speaking.antt =====
-- net/connect/connect.go: the message loop of `readEvent`.
pub mod Through
use zput_net_golang.Prelude.{
  ℕ, zero, suc, ◌<◌, ◌≡◌, ◌≢◌, refl, sym, ap, ap₂, subst, ◌∙◌, arith, List, ◌++◌, append_assoc,
  append-nil, length, drop, length-drop, inl, inr, some,
}
use zput_net_golang.Outside.RingBuffer.{RingBuffer, RingLaws}
use zput_net_golang.Outside.Unix.{Unix, UnixLaws}
use zput_net_golang.Multiplex.{Multiplex}
use zput_net_golang.Protocol.Errors.{returned, panicked}
use zput_net_golang.Protocol.Codec.{ICodec}
use zput_net_golang.Protocol.Framing.{
  Verdict, deliver, quiet, fault, crash, Framer, Decodes, IsProductive, answer, remaining,
}
use zput_net_golang.Protocol.Framing.Stream.{
  Drained, drained, drained_deliver, drained_over, IsOver, Verdict-cases, deliver_first,
}
use zput_net_golang.Connect.State.{Connect, App, Cell}
use zput_net_golang.Connect.Buffers.Stream.{pending}
use zput_net_golang.Connect.Methods.{finished, handle_frame, and_then, round, messages}
use zput_net_golang.Connect.Methods.Wire.{IsOpen, queued}
use zput_net_golang.Connect.Methods.Replies.{
  ReadsOnly, reply_bytes, responses, Answered, reply-Answered,
}

remaining_over :
    (v : Verdict) (xs : List ℕ) → IsOver v → ((k : ℕ) → v ≢ crash k) → remaining v xs ≡ xs
remaining_over (deliver f k) xs h n = absurd h
remaining_over quiet xs h n = refl
remaining_over (fault e) xs h n = refl
remaining_over (crash k) xs h n = absurd (n k refl)

module _ {R : RingBuffer} {U : Unix} {X : Multiplex} {Up : App} {P : Type 0}
    (contents : R.Buf → List ℕ) (rl : RingLaws R contents) (wire : U.Kernel → ℕ → List ℕ)
    (ul : UnixLaws U wire) (codec : ICodec (Connect R.Buf))
    (encodes : (xs : List ℕ) → codec.encode xs ≢ panicked) (F : Framer)
    (productive : IsProductive F) (sound : (xs : List ℕ) (k : ℕ) → F xs ≢ crash k)
    (decodes : Decodes codec (pending R contents rl) F) (pure : ReadsOnly codec) where
  abbrev all_queued : Cell R U X Up P → List ℕ
  all_queued c = queued contents rl wire ul c

  abbrev stream : Cell R U X Up P → List ℕ
  stream c = pending R contents rl c.conn

  abbrev told : Cell R U X Up P → Drained → Up.A × List ℕ
  told c d = responses Up codec c.app d.frames

  -- What the message loop comes to, from `c` to `c'`.
  pub record Spoken (c : Cell R U X Up P) (d : Drained) (c' : Cell R U X Up P) : Type 0 where
    pub rest : stream c' ≡ d.rest
    pub was_open : IsOpen c' → IsOpen c
    pub app_next : IsOpen c' → c'.app ≡ (told c d).0
    pub sent : IsOpen c' → all_queued c' ≡ all_queued c ++ (told c d).1

  -- `c` behind `Decode`
  abbrev taken : Cell R U X Up P → Cell R U X Up P
  taken c = record c { conn = (codec.decode c.conn).1 }

  messages-deliver :
      (fuel : ℕ) (c c1 : Cell R U X Up P) (f : List ℕ)
      → (codec.decode c.conn).0 ≡ returned (some f)
      → handle_frame codec f (taken c) ≡ finished c1
      → messages codec (suc fuel) c ≡ messages codec fuel c1
  unfolding messages
  messages-deliver fuel c c1 f e k = rw e (ap (λ r. and_then codec r (messages codec fuel)) k)

  messages_over :
      (fuel : ℕ) (c : Cell R U X Up P)
      → IsOver (F (stream c))
      → messages codec (suc fuel) c ≡ finished (taken c)
  unfolding messages
  messages_over fuel c o = rw (decodes.answers c.conn) (go (F (stream c)) o (sound (stream c)))
    where
      go :
          (v : Verdict)
          → IsOver v
          → ((k : ℕ) → v ≢ crash k)
          → round codec (answer v) (taken c) (messages codec fuel) ≡ finished (taken c)
      go (deliver f k) h n = absurd h
      go quiet h n = refl
      go (fault e) h n = refl
      go (crash k) h n = absurd (n k refl)

  taken-IsOpen : (c : Cell R U X Up P) → IsOpen (taken c) → IsOpen c
  taken-IsOpen c o = rw (← pure.state_same c.conn) o

  taken_queued : (c : Cell R U X Up P) → all_queued (taken c) ≡ all_queued c
  taken_queued c = rw (pure.out_same c.conn, pure.fd_same c.conn)

  -- No frame is left: nothing was said.
  over-Spoken :
      (c : Cell R U X Up P) → IsOver (F (stream c)) → Spoken c (drained F (stream c)) (taken c)
  over-Spoken c o = rw (drained_over F productive (stream c) o) (record {
    rest = decodes.leaves c.conn ∙ remaining_over _ (stream c) o (sound (stream c));
    was_open = taken-IsOpen c;
    app_next = λ _. refl;
    sent = λ _. taken_queued c ∙ sym (append-nil _);
  })

  -- The callback's answer to a frame, from `taken c`.
  handled :
      (f : List ℕ) (c : Cell R U X Up P)
      → (c1 : Cell R U X Up P) × (handle_frame codec f c ≡ finished c1)
        × Answered contents rl wire ul codec encodes
            (reply_bytes codec (Up.message c.app f).1)
            (record c { app = (Up.message c.app f).0 })
            c1
  unfolding handle_frame
  handled f c =
      reply-Answered contents rl wire ul codec encodes (Up.message c.app f).1
        (record c { app = (Up.message c.app f).0 })

  first_bytes :
      (c : Cell R U X Up P) (f : List ℕ) (k : ℕ) (c1 : Cell R U X Up P)
      → F (stream c) ≡ deliver f k
      → Answered contents rl wire ul codec encodes
          (reply_bytes codec (Up.message c.app f).1)
          (record (taken c) { app = (Up.message c.app f).0 })
          c1
      → stream c1 ≡ drop k (stream c)
  first_bytes c f k c1 e w =
      rw (w.keeps.in_same, w.keeps.temporary_same)
        (decodes.leaves c.conn ∙ ap (λ (v : Verdict). remaining v (stream c)) e)

  shorter :
      (fuel : ℕ) (c : Cell R U X Up P) (f : List ℕ) (k : ℕ) (c1 : Cell R U X Up P)
      → F (stream c) ≡ deliver f k
      → stream c1 ≡ drop k (stream c)
      → length (stream c) < suc fuel
      → length (stream c1) < fuel
  shorter fuel c f k c1 e left h =
      rw left (omega (arith, length-drop k (stream c), productive (stream c) f k e))

  compose-Spoken :
      (c : Cell R U X Up P) (f : List ℕ) (d : Drained) (c1 c2 : Cell R U X Up P)
      → Answered contents rl wire ul codec encodes
          (reply_bytes codec (Up.message c.app f).1)
          (record (taken c) { app = (Up.message c.app f).0 })
          c1
      → Spoken c1 d c2
      → Spoken c (deliver_first f d) c2
  compose-Spoken c f d c1 c2 w sp = record {
    rest = sp.rest;
    was_open = λ o. taken-IsOpen c (w.keeps.was_open (sp.was_open o));
    app_next = λ o.
        sp.app_next o
        ∙ ap (λ a. (responses Up codec a d.frames).0) (w.keeps.app_same (sp.was_open o));
    sent = λ o.
        sp.sent o
        ∙ ap₂ ◌++◌ (w.sent (sp.was_open o) ∙ ap (λ t. t ++ said) (taken_queued c))
            (ap (λ a. (responses Up codec a d.frames).1) (w.keeps.app_same (sp.was_open o)))
        ∙ append_assoc (all_queued c) said _;
  }
    where
      said : List ℕ
      said = reply_bytes codec (Up.message c.app f).1

  -- With a byte of fuel to spare the loop ends. It has handed every frame of the stream to the
  -- message callback in order, and left the rest; unless the connection was closed on the way, the
  -- callback's state is what those frames make of it, and its answers were queued in order.
  pub messages-Spoken :
      (fuel : ℕ) (c : Cell R U X Up P)
      → length (stream c) < fuel
      → (c' : Cell R U X Up P) × (messages codec fuel c ≡ finished c')
        × Spoken c (drained F (stream c)) c'
  messages-Spoken zero c h = absurd (omega arith)
  messages-Spoken (suc fuel) c h = elim (Verdict-cases (F (stream c))) [
    | inl (f, k, e) ↦
        let (c1, done, answered) = handled f (taken c) in
        let left = first_bytes c f k c1 e answered in
        let (c2, ended, spoken) = messages-Spoken fuel c1 (shorter fuel c f k c1 e left h) in
        (
          c2,
          messages-deliver fuel c c1 f (decodes.answers c.conn ∙ ap answer e) done ∙ ended,
          subst (λ (d : Drained). Spoken c d c2)
              (sym (
                drained_deliver F productive e
                ∙ ap (λ t. deliver_first f (drained F t)) (sym left)))
              (compose-Spoken c f (drained F (stream c1)) c1 c2 answered spoken),
        )
    | inr o ↦ (taken c, messages_over fuel c o, over-Spoken c o)
  ]
