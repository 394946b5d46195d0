-- ===== src/Connect/Methods/Messages.antt =====
-- net/connect/connect.go: what `readEvent` does with the bytes that it reads. Every frame at hand is
-- handed to the message callback once and in order, what the callback answers is sent, and the bytes
-- of an unfinished frame are kept.
use zput_net_golang.Prelude.{
  ℕ, ◌<◌, ◌≡◌, ◌≢◌, sym, ap, ap₂, ◌∙◌, arith, List, ◌∷◌, ◌++◌, length, true, false, Bool-cases, inl,
  inr, ◌⊎◌,
}
use zput_net_golang.Outside.RingBuffer.{RingBuffer, RingLaws}
use zput_net_golang.Outside.Unix.{Unix, UnixLaws, got}
use zput_net_golang.Multiplex.{Multiplex}
use zput_net_golang.Protocol.Errors.{panicked}
use zput_net_golang.Protocol.Codec.{ICodec}
use zput_net_golang.Protocol.Framing.{crash, Framer, Decodes, IsProductive}
use zput_net_golang.Protocol.Framing.Stream.{Drained, drained}
use zput_net_golang.Connect.State.{Connect, App, Cell}
use zput_net_golang.Connect.Buffers.Stream.{pending}
use zput_net_golang.Connect.Methods.{
  is_disconnected, finished, after_read, read_event, update_activity_time, buf_len,
}
use zput_net_golang.Connect.Methods.Wire.{IsOpen, queued}
use zput_net_golang.Connect.Methods.Replies.{ReadsOnly, responses}
use zput_net_golang.Connect.Methods.Speaking.{messages-Spoken}

module _ {R : RingBuffer} {U : Unix} {X : Multiplex} {Up : App} {P : Type 0}
    (contents : R.Buf → List ℕ) (rl : RingLaws R contents) (wire : U.Kernel → ℕ → List ℕ)
    (ul : UnixLaws U wire) (codec : ICodec (Connect R.Buf))
    (encodes : (xs : List ℕ) → codec.encode xs ≢ panicked) (F : Framer)
    (productive : IsProductive F) (sound : (xs : List ℕ) (k : ℕ) → F xs ≢ crash k)
    (decodes : Decodes codec (pending R contents rl) F) (pure : ReadsOnly codec) where
  abbrev all_queued : Cell R U X Up P → List ℕ
  all_queued c = queued contents rl wire ul c

  abbrev told : Cell R U X Up P → Drained → Up.A × List ℕ
  told c d = responses Up codec c.app d.frames

  -- `readEvent` behind a read of data.
  pub record Received (c : Cell R U X Up P) (d : Drained) (c' : Cell R U X Up P) : Type 0 where
    pub kept : contents c'.conn.in_buffer ≡ d.rest
    pub open_before : IsOpen c' → IsOpen c
    pub app_after : IsOpen c' → c'.app ≡ (told c d).0
    pub sent_after : IsOpen c' → all_queued c' ≡ all_queued c ++ (told c d).1

  after_read-Received :
      (fuel b : ℕ) (bs : List ℕ) (c : Cell R U X Up P)
      → length (contents c.conn.in_buffer ++ (b ∷ bs)) < fuel
      → (c' : Cell R U X Up P) × (after_read codec fuel (got (b ∷ bs)) c ≡ finished c')
        × Received c (drained F (contents c.conn.in_buffer ++ (b ∷ bs))) c'
  unfolding after_read
  after_read-Received fuel b bs c h =
      let (c', ended, spoken) =
        messages-Spoken contents rl wire ul codec encodes F productive sound decodes pure fuel
          (fill c) h in
      (
        record c' {
          conn = record c'.conn { in_buffer = R.write c'.conn.in_buffer c'.conn.temporary_buf };
        },
        rw ended,
        record {
          kept = rl.write_lem c'.conn.in_buffer c'.conn.temporary_buf ∙ spoken.rest;
          open_before = spoken.was_open;
          app_after = spoken.app_next;
          sent_after = spoken.sent;
        },
      )
    where
      fill : Cell R U X Up P → Cell R U X Up P
      fill e = record e { conn = record e.conn { temporary_buf = b ∷ bs } }

  update_activity-same :
      (c : Cell R U X Up P)
      → let c1 = update_activity_time c in
        (c1.conn.in_buffer ≡ c.conn.in_buffer)
        × (c1.conn.out_buffer ≡ c.conn.out_buffer)
        × (c1.conn.state ≡ c.conn.state)
        × (c1.app ≡ c.app)
        × (all_queued c1 ≡ all_queued c)
  unfolding update_activity_time
  update_activity-same c = ground (arith, ul.now_wire c.kernel c.conn.fd)

  carry-Received :
      (xs : List ℕ) (c0 c : Cell R U X Up P)
      → c.conn.in_buffer ≡ c0.conn.in_buffer
      → c.conn.state ≡ c0.conn.state
      → c.app ≡ c0.app
      → all_queued c ≡ all_queued c0
      → (c' : Cell R U X Up P) → Received c (drained F (contents c.conn.in_buffer ++ xs)) c'
      → Received c0 (drained F (contents c0.conn.in_buffer ++ xs)) c'
  carry-Received xs c0 c i s a q c' v = record {
    kept = v.kept ∙ ap (λ t. (drained F (contents t ++ xs)).rest) i;
    open_before = λ o. ap is_disconnected (sym s) ∙ v.open_before o;
    app_after = λ o. v.app_after o ∙ ap (λ w. w.0) said;
    sent_after = λ o. v.sent_after o ∙ ap₂ ◌++◌ q (ap (λ w. w.1) said);
  }
    where
      said :
          told c (drained F (contents c.conn.in_buffer ++ xs))
          ≡ told c0 (drained F (contents c0.conn.in_buffer ++ xs))
      said = ap₂ (λ t u. responses Up codec t (drained F (contents u ++ xs)).frames) a i

  read_event-Received :
      (fuel b : ℕ) (bs : List ℕ) (c : Cell R U X Up P)
      → R.is_empty c.conn.out_buffer ≡ true
      → (U.read (update_activity_time c).kernel (update_activity_time c).conn.fd buf_len).0
        ≡ got (b ∷ bs)
      → length (contents c.conn.in_buffer ++ (b ∷ bs)) < fuel
      → (c' : Cell R U X Up P) × (read_event codec fuel c ≡ finished c')
        × Received c (drained F (contents c.conn.in_buffer ++ (b ∷ bs))) c'
  unfolding read_event
  read_event-Received fuel b bs c0 e r h =
      let (c', ended, received) = after_read-Received fuel b bs c2 fits in
      (
        c',
        rw (same.1, e, r) ended,
        carry-Received (b ∷ bs) c0 c2 same.0 same.2 same.3 queued_same c' received,
      )
    where
      c1 : Cell R U X Up P
      c1 = update_activity_time c0

      c2 : Cell R U X Up P
      c2 = record c1 { kernel = (U.read c1.kernel c1.conn.fd buf_len).1 }

      same :
          (c1.conn.in_buffer ≡ c0.conn.in_buffer)
          × (c1.conn.out_buffer ≡ c0.conn.out_buffer)
          × (c1.conn.state ≡ c0.conn.state)
          × (c1.app ≡ c0.app)
          × (all_queued c1 ≡ all_queued c0)
      same = update_activity-same c0

      queued_same : all_queued c2 ≡ all_queued c0
      queued_same =
          ap (λ t. t ++ contents c1.conn.out_buffer) (ul.read_wire c1.kernel c1.conn.fd buf_len)
          ∙ same.4

      fits : length (contents c1.conn.in_buffer ++ (b ∷ bs)) < fuel
      fits = rw (same.0) h

  -- `readEvent` on a codec whose `Encode` never panics, and whose `Decode` changes nothing of the
  -- connection but the bytes to be read and does with them what a framer says that never panics and
  -- takes a byte at least for each frame: on an empty write buffer, when the socket has data, with a
  -- byte of fuel to spare, it returns. The bytes kept are what the frames found in the old bytes and the data leave over.
  -- Either the connection is closed then, or it was open before, the callback's state is what exactly
  -- those frames, in order, make of it, and its answers follow what was queued for the socket.
  pub read_event-told :
      (fuel b : ℕ) (bs : List ℕ) (c : Cell R U X Up P)
      → R.is_empty c.conn.out_buffer ≡ true
      → (U.read (update_activity_time c).kernel (update_activity_time c).conn.fd buf_len).0
        ≡ got (b ∷ bs)
      → length (contents c.conn.in_buffer ++ (b ∷ bs)) < fuel
      → let d = drained F (contents c.conn.in_buffer ++ (b ∷ bs)) in
        (c' : Cell R U X Up P) × (read_event codec fuel c ≡ finished c')
        × (contents c'.conn.in_buffer ≡ d.rest)
        × ((is_disconnected c'.conn.state ≡ true)
            ⊎ ((is_disconnected c.conn.state ≡ false)
                × (c'.app ≡ (responses Up codec c.app d.frames).0)
                × (all_queued c' ≡ all_queued c ++ (responses Up codec c.app d.frames).1)))
  read_event-told fuel b bs c e r h =
      let (c', ended, v) = read_event-Received fuel b bs c e r h in
      (
        c',
        ended,
        v.kept,
        elim (Bool-cases (is_disconnected c'.conn.state)) [
          | inl closed ↦ inl closed
          | inr o ↦ inr (v.open_before o, v.app_after o, v.sent_after o)
        ],
      )
