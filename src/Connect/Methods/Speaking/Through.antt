-- ===== src/Connect/Methods/Speaking/Through.antt =====
-- net/connect/connect.go: the message loop of `readEvent` goes on when the connection has been closed.
use zput_net_golang.Prelude.{
  ℕ, zero, suc, ◌<◌, ◌≡◌, ◌≢◌, refl, sym, ap, ap₂, ◌∙◌, arith, List, ◌∷◌, ◌++◌, length, Option,
  none, some, Bool, true, false, Bool-cases, Option-cases, if◌then◌else◌, ◌==◌, inl, inr,
}
use Prim.Native.String.{String}
use zput_net_golang.Outside.RingBuffer.{RingBuffer, RingLaws}
use zput_net_golang.Outside.Unix.{
  Unix, UnixLaws, got, WriteResult, wrote, write_failed, eagain, eintr, other,
}
use zput_net_golang.Multiplex.{Multiplex}
use zput_net_golang.EventLoop.Event.{enable_writing, disable_all, unregister}
use zput_net_golang.Protocol.Errors.{panicked}
use zput_net_golang.Protocol.Codec.{ICodec}
use zput_net_golang.Protocol.Framing.{Framer, Decodes, IsProductive, crash, answer}
use zput_net_golang.Protocol.Framing.Refine.{Outcome-cases}
use zput_net_golang.Protocol.Framing.Stream.{
  Drained, drained, drained_deliver, drained_over, Verdict-cases,
}
use zput_net_golang.Connect.State.{Connect, App, Cell}
use zput_net_golang.Connect.Buffers.Stream.{pending}
use zput_net_golang.Connect.Methods.{
  finished, is_disconnected, call_connect_close, close_event, after_write, write, reply,
  handle_frame, messages, after_read, keep_rest, read_event, update_activity_time, buf_len,
}
use zput_net_golang.Connect.Methods.Messages.{read_event-told}
use zput_net_golang.Connect.Methods.Replies.{ReadsOnly, responses}
use zput_net_golang.Connect.Methods.Speaking.{
  messages-Spoken, messages-deliver, messages_over, handled, first_bytes, shorter, taken,
}

one_end : {C : Type 0} {c d : C} → finished c ≡ finished d → c ≡ d
one_end h = cc h

-- The state that the frames in `xs` make of `a`.
abbrev pub after_frames : {S : Type 0} (Up : App) → ICodec S → Framer → Up.A → List ℕ → Up.A
after_frames Up codec F a xs = (responses Up codec a (drained F xs).frames).0

module _ {R : RingBuffer} {U : Unix} {X : Multiplex} {Up : App} {P : Type 0}
    (unmoved : (f : Up.A → String → Up.A)
      → Up.connect_close ≡ some f
      → (a : Up.A) (name : String) → f a name ≡ a) where
  call_connect_close-app : (c : Cell R U X Up P) → (call_connect_close c).app ≡ c.app
  call_connect_close-app c = elim (Option-cases Up.connect_close) [
    | inl e ↦ rw e
    | inr (f, e) ↦ rw e (unmoved f e c.app c.conn.peer_addr)
  ]

  close_event-app : (c : Cell R U X Up P) → (close_event c).app ≡ c.app
  unfolding close_event disable_all unregister
  close_event-app c = elim (Bool-cases (is_disconnected c.conn.state)) [
    | inl e ↦ rw e
    | inr e ↦ rw e (call_connect_close-app _)
  ]

  after_write-app :
      (xs : List ℕ) (r : WriteResult) (c : Cell R U X Up P) → (after_write xs r c).app ≡ c.app
  unfolding after_write enable_writing
  after_write-app xs (wrote n) c = ground arith
  after_write-app xs (write_failed eagain) c = ground arith
  after_write-app xs (write_failed eintr) c = close_event-app c
  after_write-app xs (write_failed (other n)) c = close_event-app c

  write-app : (xs : List ℕ) (c : Cell R U X Up P) → (write xs c).app ≡ c.app
  unfolding write
  write-app xs c = elim (Bool-cases (R.is_empty c.conn.out_buffer)) [
    | inl e ↦ rw e (after_write-app xs _ _)
    | inr e ↦ rw e
  ]

  sent-app :
      (b : Bool) (xs : List ℕ) (c : Cell R U X Up P) → (if b then c else write xs c).app ≡ c.app
  sent-app true xs c = refl
  sent-app false xs c = write-app xs c

  reply-app :
      (codec : ICodec (Connect R.Buf)) (out : Option (List ℕ)) (c c1 : Cell R U X Up P)
      → reply codec out c ≡ finished c1
      → c1.app ≡ c.app
  unfolding reply
  reply-app codec none c c1 e = ap (λ d. d.app) (sym (one_end e))
  reply-app codec (some out) c c1 e = elim (Outcome-cases (codec.encode out)) [
    | inl (frame, q) ↦
        ap (λ d. d.app) (sym (one_end (rw (q, reply) at e))) ∙ sent-app (length frame == 0) frame c
    | inr (inl (d, q)) ↦ ap (λ t. t.app) (sym (one_end (rw (q, reply) at e)))
    | inr (inr q) ↦ absurd (cc (rw (q, reply) at e))
  ]

  module _ (contents : R.Buf → List ℕ) (rl : RingLaws R contents) (wire : U.Kernel → ℕ → List ℕ)
      (ul : UnixLaws U wire) (codec : ICodec (Connect R.Buf))
      (encodes : (xs : List ℕ) → codec.encode xs ≢ panicked) (F : Framer)
      (productive : IsProductive F) (sound : (xs : List ℕ) (k : ℕ) → F xs ≢ crash k)
      (decodes : Decodes codec (pending R contents rl) F) (pure : ReadsOnly codec) where
    messages-app :
        (fuel : ℕ) (c c' : Cell R U X Up P)
        → length (pending R contents rl c.conn) < fuel
        → messages codec fuel c ≡ finished c'
        → c'.app ≡ after_frames Up codec F c.app (pending R contents rl c.conn)
    unfolding handle_frame
    messages-app zero c c' h e = absurd (omega arith)
    messages-app (suc fuel) c c' h e = elim (Verdict-cases (F (pending R contents rl c.conn))) [
      | inl (f, k, q) ↦
          let (c1, done, answered) =
            handled contents rl wire ul codec encodes F productive sound decodes pure f
              (taken contents rl wire ul codec encodes F productive sound decodes pure c) in
          let left =
            first_bytes contents rl wire ul codec encodes F productive sound decodes pure c f k c1 q
              answered in
          let step =
            messages-deliver contents rl wire ul codec encodes F productive sound decodes pure fuel
              c c1 f (decodes.answers c.conn ∙ ap answer q) done in
          messages-app fuel c1 c'
            (shorter contents rl wire ul codec encodes F productive sound decodes pure fuel c f k c1
              q left h)
            (sym step ∙ e)
          ∙ ap₂ (after_frames Up codec F) (reply-app codec _ _ c1 done) left
          ∙ ap (λ (d : Drained). (responses Up codec c.app d.frames).0)
              (sym (drained_deliver F productive q))
      | inr o ↦
          ap (λ d. d.app)
            (one_end (
              sym e
              ∙ messages_over contents rl wire ul codec encodes F productive sound decodes pure fuel
                  c o))
          ∙ ap (λ (d : Drained). (responses Up codec c.app d.frames).0)
              (sym (drained_over F productive (pending R contents rl c.conn) o))
    ]

    after_read-app :
        (fuel b : ℕ) (bs : List ℕ) (c c' : Cell R U X Up P)
        → length (contents c.conn.in_buffer ++ (b ∷ bs)) < fuel
        → after_read codec fuel (got (b ∷ bs)) c ≡ finished c'
        → c'.app ≡ after_frames Up codec F c.app (contents c.conn.in_buffer ++ (b ∷ bs))
    unfolding after_read
    after_read-app fuel b bs c c' h e =
        let filled = record c { conn = record c.conn { temporary_buf = b ∷ bs } } in
        let (m, done, spoken) =
          messages-Spoken contents rl wire ul codec encodes F productive sound decodes pure fuel
            filled h in
        ap (λ d. d.app) (sym (one_end (ap (keep_rest codec) (sym done) ∙ e)))
        ∙ messages-app fuel filled m h done

    update_activity-same :
        (c : Cell R U X Up P)
        → let c1 = update_activity_time c in
          (c1.conn.in_buffer ≡ c.conn.in_buffer)
          × (c1.conn.out_buffer ≡ c.conn.out_buffer)
          × (c1.app ≡ c.app)
    unfolding update_activity_time
    update_activity-same c = ground arith

    -- `readEvent` on a codec whose `Encode` never panics, and whose `Decode` changes nothing of the
    -- connection but the bytes to be read and does with them what a framer says that never panics and
    -- takes a byte at least for each frame, with a pool that leaves the bytes of the buffers handed to it
    -- alone: on an empty write buffer, when the socket has data, with a byte of fuel to spare, and a
    -- close callback that leaves the upper layer as it is, it returns, and the message callback was called with every
    -- frame found in the old bytes and the data, in order, also with those that come behind an answer
    -- whose sending closed the connection, and on a connection that was closed before.
    pub read_event_goes_on :
        (fuel b : ℕ) (bs : List ℕ) (c : Cell R U X Up P)
        → R.is_empty c.conn.out_buffer ≡ true
        → (U.read (update_activity_time c).kernel (update_activity_time c).conn.fd buf_len).0
          ≡ got (b ∷ bs)
        → length (contents c.conn.in_buffer ++ (b ∷ bs)) < fuel
        → (c' : Cell R U X Up P) × (read_event codec fuel c ≡ finished c')
          × (c'.app ≡ after_frames Up codec F c.app (contents c.conn.in_buffer ++ (b ∷ bs)))
    unfolding read_event
    read_event_goes_on fuel b bs c e r h =
        let (i, o, a) = update_activity-same c in
        let (c', ended, kept, told) =
          read_event-told contents rl wire ul codec encodes F productive sound decodes pure fuel b
            bs c e r h in
        let c1 = update_activity_time c in
        let c2 = record c1 { kernel = (U.read c1.kernel c1.conn.fd buf_len).1 } in
        let begun : read_event codec fuel c ≡ after_read codec fuel (got (b ∷ bs)) c2 =
          rw (o, e, r) in
        (
          c',
          ended,
          after_read-app fuel b bs c2 c' (rw i h) (sym begun ∙ ended)
              ∙ ap₂ (after_frames Up codec F) a (ap (λ t. contents t ++ (b ∷ bs)) i),
        )
