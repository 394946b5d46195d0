-- ===== src/Connect/Methods/Reading.antt =====
-- net/connect/connect.go: `readEvent` keeps a connection served, whatever the messages are and
-- however its answers get through to the socket.
use zput_net_golang.Prelude.{
  ℕ, zero, suc, ◌≡◌, sym, ap, subst, ◌∙◌, List, [], ◌∷◌, length, ◌==◌, Bool-cases, inl, inr,
  if◌then◌else◌, Option, none, some,
}
use zput_net_golang.Outside.RingBuffer.{RingBuffer, RingLaws}
use zput_net_golang.Outside.Unix.{Unix, ReadResult, got, read_failed, eagain, eintr, other}
use zput_net_golang.Multiplex.{Multiplex}
use zput_net_golang.Protocol.Errors.{Outcome, returned, failed, panicked}
use zput_net_golang.Protocol.Codec.{ICodec}
use zput_net_golang.Protocol.Framing.Refine.{Outcome-cases}
use zput_net_golang.Connect.State.{Connect, App, Cell}
use zput_net_golang.Connect.Methods.{
  Run, finished, crashed, starved, write, reply, handle_frame, and_then, round, messages,
  after_read, read_event, update_activity_time, buf_len, keep_rest, is_disconnected,
}
use zput_net_golang.Connect.Methods.Wire.{IsOpen, closed_absurd}
use zput_net_golang.Connect.Methods.Replies.{ReadsOnly}
use zput_net_golang.Connect.Methods.Keeping.{write-Keeps}
use zput_net_golang.Connect.Methods.Interest.{
  Served, IsServed, write-IsServed, update_activity-Served, stop_reading-Served,
}

-- What holds when a handler returns.
abbrev pub Holds : {C : Type 0} → (C → Type 0) → Run C → Type 0
Holds I (finished c) = I c
Holds I (crashed c) = Unit {0}
Holds I (starved c) = Unit {0}

module _ {R : RingBuffer} {U : Unix} {X : Multiplex} {Up : App} {P : Type 0}
    (contents : R.Buf → List ℕ) (rl : RingLaws R contents) (codec : ICodec (Connect R.Buf))
    (pure : ReadsOnly codec) where
  abbrev Fine : Cell R U X Up P → Type 0
  Fine c = IsServed contents rl c

  write-Fine : (xs : List ℕ) (c : Cell R U X Up P) → Fine c → Fine (write xs c)
  write-Fine xs c s o =
      write-IsServed contents rl xs c (s ((write-Keeps contents rl xs c).was_open o)) o

  reply-Fine :
      (out : Option (List ℕ)) (c : Cell R U X Up P) → Fine c → Holds Fine (reply codec out c)
  unfolding reply
  reply-Fine none c s = s
  reply-Fine (some out) c s = elim (Outcome-cases (codec.encode out)) [
    | inl (frame, e) ↦ rw (e, Holds) (sent frame)
    | inr (inl (d, e)) ↦ rw (e, Holds) s
    | inr (inr e) ↦ rw (e, Holds) tt
  ]
    where
      sent : (frame : List ℕ) → Fine (if length frame == 0 then c else write frame c)
      sent frame = elim (Bool-cases (length frame == 0)) [
        | inl e ↦ rw e s
        | inr e ↦ rw e (write-Fine frame c s)
      ]

  decode-Fine : (c : Cell R U X Up P) → Fine c → Fine (record c { conn = (codec.decode c.conn).1 })
  decode-Fine c s o =
      rw (pure.out_same c.conn, pure.event_same c.conn)
        (s (sym (ap is_disconnected (pure.state_same c.conn)) ∙ o))

  and_then-Fine :
      (r : Run (Cell R U X Up P)) (continue : Cell R U X Up P → Run (Cell R U X Up P))
      → Holds Fine r
      → ((c : Cell R U X Up P) → Fine c → Holds Fine (continue c))
      → Holds Fine (and_then codec r continue)
  and_then-Fine (finished c) continue s h = h c s
  and_then-Fine (crashed c) continue s h = tt
  and_then-Fine (starved c) continue s h = tt

  messages-Fine : (fuel : ℕ) (c : Cell R U X Up P) → Fine c → Holds Fine (messages codec fuel c)
  unfolding messages handle_frame
  messages-Fine zero c s = tt
  messages-Fine (suc fuel) c s = go (messages-Fine fuel) (codec.decode c.conn).0 (decode-Fine c s)
    where
      go :
          ((c1 : Cell R U X Up P) → Fine c1 → Holds Fine (messages codec fuel c1))
          → (o : Outcome (Option (List ℕ))) → Fine (record c { conn = (codec.decode c.conn).1 })
          → Holds Fine
              (round codec o (record c { conn = (codec.decode c.conn).1 }) (messages codec fuel))
      go rest (returned (some frame)) s1 =
          and_then-Fine _ _ (reply-Fine (Up.message c.app frame).1 _ s1) rest
      go rest (returned none) s1 = s1
      go rest (failed e) s1 = s1
      go rest panicked s1 = tt

  keep-Fine : (r : Run (Cell R U X Up P)) → Holds Fine r → Holds Fine (keep_rest codec r)
  keep-Fine (finished c) s = s
  keep-Fine (crashed c) s = tt
  keep-Fine (starved c) s = tt

  after_read-Fine :
      (fuel : ℕ) (r : ReadResult) (c : Cell R U X Up P)
      → Fine c
      → Holds Fine (after_read codec fuel r c)
  unfolding after_read
  after_read-Fine fuel (got []) c s = closed_absurd c
  after_read-Fine fuel (got (b ∷ bs)) c s = keep-Fine _ (messages-Fine fuel _ s)
  after_read-Fine fuel (read_failed eagain) c s = s
  after_read-Fine fuel (read_failed eintr) c s = closed_absurd c
  after_read-Fine fuel (read_failed (other n)) c s = closed_absurd c

  read_event-IsServed :
      (fuel : ℕ) (c : Cell R U X Up P)
      → Served c.conn.event (contents c.conn.out_buffer)
      → Holds (IsServed contents rl) (read_event codec fuel c)
  unfolding read_event
  read_event-IsServed fuel c0 s = elim (Bool-cases (R.is_empty c.conn.out_buffer)) [
    | inl e ↦ rw e (after_read-Fine fuel (U.read c.kernel c.conn.fd buf_len).0 _ (λ o. active))
    | inr e ↦ rw e (λ o. stop_reading-Served contents rl c e active)
  ]
    where
      c : Cell R U X Up P
      c = update_activity_time c0

      active : Served c.conn.event (contents c.conn.out_buffer)
      active = update_activity-Served contents rl c0 s

  returned_cell :
      (r : Run (Cell R U X Up P)) (c' : Cell R U X Up P) → r ≡ finished c' → Holds Fine r → Fine c'
  returned_cell r c' e h = subst (λ (x : Run (Cell R U X Up P)). Holds Fine x) e h

  -- `readEvent` on a served connection, however many messages it finds and whatever the callback, the
  -- codec and the socket answer: when it returns, the connection is served, unless it is closed.
  pub read_event-Served :
      (fuel : ℕ) (c c' : Cell R U X Up P)
      → Served c.conn.event (contents c.conn.out_buffer)
      → read_event codec fuel c ≡ finished c'
      → IsOpen c'
      → Served c'.conn.event (contents c'.conn.out_buffer)
  read_event-Served fuel c c' s e o = returned_cell _ c' e (read_event-IsServed fuel c s) o
