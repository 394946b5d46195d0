-- ===== src/Connect/Methods/Session.antt =====
-- net/connect/connect.go: the handlers of one connection called again and again, as its bytes come in
-- over several reads and its socket becomes writable in between.
pub mod Framed
pub mod Lengths
pub mod Lines
use zput_net_golang.Prelude.{
  ℕ, suc, ◌≡◌, ◌≢◌, ◌<◌, refl, sym, ap, ap₂, subst, ◌∙◌, arith, List, [], ◌∷◌, ◌++◌, append-nil,
  append_assoc, length, true, false, Bool-cases, inl, inr, ◌==◌, ltb, ◌&&◌, Option, none, some,
  Option-cases,
}
use zput_net_golang.Outside.RingBuffer.{RingBuffer, RingLaws}
use zput_net_golang.Outside.Unix.{
  Unix, UnixLaws, got, WriteResult, wrote, write_failed, eagain, eintr, other,
}
use zput_net_golang.Multiplex.{Multiplex}
use zput_net_golang.EventLoop.Event.{enable_reading, enable_writing, disable_all, unregister}
use zput_net_golang.Protocol.Errors.{panicked}
use zput_net_golang.Protocol.Codec.{ICodec}
use zput_net_golang.Protocol.Framing.{Verdict, crash, Framer, Decodes, IsProductive}
use zput_net_golang.Protocol.Framing.Stream.{Drained, drained, feed}
use zput_net_golang.Connect.State.{Connect, App, Cell}
use zput_net_golang.Connect.Buffers.Stream.{pending}
use zput_net_golang.Connect.Methods.{
  is_disconnected, finished, read_event, write_event, write_done, after_first, after_second,
  update_activity_time, buf_len, close_event, retrieve_out, call_write_complete,
}
use zput_net_golang.Connect.Methods.Wire.{
  IsOpen, queued, write_event-queued, close_event-closed, closed_absurd,
}
use zput_net_golang.Connect.Methods.Replies.{ReadsOnly, responses, reply_bytes}
use zput_net_golang.Connect.Methods.Messages.{read_event-told}
use zput_net_golang.Connect.Methods.Leaving.{Leaves, write_event-Leaves}

one_end : {C : Type 0} {c d : C} → finished c ≡ finished d → c ≡ d
one_end h = cc h

-- The callbacks' answers to some messages and then to some more.
responses-append :
    {S : Type 0} (Up : App) (codec : ICodec S) (a : Up.A) (fs gs : List (List ℕ))
    → let first = responses Up codec a fs in
      let second = responses Up codec first.0 gs in
      responses Up codec a (fs ++ gs) ≡ (second.0, first.1 ++ second.1)
responses-append Up codec a [] gs = refl
responses-append Up codec a (f ∷ fs) gs =
    ap (λ t. (t.0, reply_bytes codec (Up.message a f).1 ++ t.1))
      (responses-append Up codec (Up.message a f).0 fs gs)
    ∙ ap (λ t. ((responses Up codec (responses Up codec (Up.message a f).0 fs).0 gs).0, t))
        (sym (append_assoc (reply_bytes codec (Up.message a f).1) _ _))

module _ {R : RingBuffer} {U : Unix} {X : Multiplex} {Up : App} {P : Type 0}
    (contents : R.Buf → List ℕ) (codec : ICodec (Connect R.Buf)) where
  -- The handlers called on a connection as `pieces` come in: `readEvent` on each, with the fuel that
  -- its bytes need, while nothing waits to be written, and `writeEvent` any number of times between.
  pub data Session : Cell R U X Up P → List (List ℕ) → Cell R U X Up P → Type 0 where
    over : {c : Cell R U X Up P} → Session c [] c
    reads :
        {c c1 c' : Cell R U X Up P} {pieces : List (List ℕ)} (b : ℕ) (bs : List ℕ)
        → R.is_empty c.conn.out_buffer ≡ true
        → (U.read (update_activity_time c).kernel (update_activity_time c).conn.fd buf_len).0
          ≡ got (b ∷ bs)
        → read_event codec (suc (length (contents c.conn.in_buffer ++ (b ∷ bs)))) c ≡ finished c1
        → Session c1 pieces c'
        → Session c ((b ∷ bs) ∷ pieces) c'
    writes :
        {c c' : Cell R U X Up P} {pieces : List (List ℕ)}
        → Session (write_event c) pieces c'
        → Session c pieces c'

module _ {R : RingBuffer} {U : Unix} {X : Multiplex} {Up : App} {P : Type 0}
    (contents : R.Buf → List ℕ) (rl : RingLaws R contents) (wire : U.Kernel → ℕ → List ℕ)
    (ul : UnixLaws U wire) (codec : ICodec (Connect R.Buf))
    (encodes : (xs : List ℕ) → codec.encode xs ≢ panicked) (F : Framer)
    (productive : IsProductive F) (sound : (xs : List ℕ) (k : ℕ) → F xs ≢ crash k)
    (decodes : Decodes codec (pending R contents rl) F) (pure : ReadsOnly codec)
    (quiet : (f : Up.A → Up.A) → Up.write_complete ≡ some f → (a : Up.A) → f a ≡ a) where
  -- What a session with the frames and the rest of `d` came to, when the connection is still open.
  pub record Told (c : Cell R U X Up P) (d : Drained) (c' : Cell R U X Up P) : Type 0 where
    pub opened : IsOpen c
    pub kept : contents c'.conn.in_buffer ≡ d.rest
    pub app_after : c'.app ≡ (responses Up codec c.app d.frames).0
    pub sent_after :
        queued contents rl wire ul c'
        ≡ queued contents rl wire ul c ++ (responses Up codec c.app d.frames).1

  -- Some frames before those of `d`.
  join-Told :
      (fs : List (List ℕ)) (d : Drained) (c c1 c' : Cell R U X Up P)
      → IsOpen c
      → c1.app ≡ (responses Up codec c.app fs).0
      → queued contents rl wire ul c1
        ≡ queued contents rl wire ul c ++ (responses Up codec c.app fs).1
      → Told c1 d c'
      → Told c (record d { frames = fs ++ d.frames }) c'
  join-Told fs d c c1 c' o a q t = record {
    opened = o;
    kept = t.kept;
    app_after =
        t.app_after ∙ ap (λ x. (responses Up codec x d.frames).0) a ∙ sym (ap (λ x. x.0) both);
    sent_after =
        t.sent_after
        ∙ ap₂ ◌++◌ q (ap (λ x. (responses Up codec x d.frames).1) a)
        ∙ append_assoc (queued contents rl wire ul c) _ _
        ∙ sym (ap (λ x. queued contents rl wire ul c ++ x.1) both);
  }
    where
      both : responses Up codec c.app (fs ++ d.frames) ≡ (
        (responses Up codec (responses Up codec c.app fs).0 d.frames).0,
        (responses Up codec c.app fs).1
            ++ (responses Up codec (responses Up codec c.app fs).0 d.frames).1,
      )
      both = responses-append Up codec c.app fs d.frames

  -- `writeEvent` before the rest of a session.
  written-Told :
      (pieces : List (List ℕ)) (c c' : Cell R U X Up P)
      → Told (write_event c) (feed F (contents (write_event c).conn.in_buffer) pieces) c'
      → Told c (feed F (contents c.conn.in_buffer) pieces) c'
  written-Told pieces c c' t =
      join-Told [] (feed F (contents c.conn.in_buffer) pieces) c (write_event c) c'
        (left.open_left t.opened) (left.app_left t.opened)
        (write_event-queued contents rl wire ul c t.opened ∙ sym (append-nil _))
        (subst (λ x. Told (write_event c) (feed F x pieces) c') left.in_left t)
    where
      left : Leaves contents rl quiet c (write_event c)
      left = write_event-Leaves contents rl quiet c

  -- `readEvent` before the rest of a session.
  read-Told :
      (b : ℕ) (bs : List ℕ) (pieces : List (List ℕ)) (c c1 c' : Cell R U X Up P)
      → R.is_empty c.conn.out_buffer ≡ true
      → (U.read (update_activity_time c).kernel (update_activity_time c).conn.fd buf_len).0
        ≡ got (b ∷ bs)
      → read_event codec (suc (length (contents c.conn.in_buffer ++ (b ∷ bs)))) c ≡ finished c1
      → Told c1 (feed F (contents c1.conn.in_buffer) pieces) c'
      → Told c (feed F (contents c.conn.in_buffer) ((b ∷ bs) ∷ pieces)) c'
  unfolding feed
  read-Told b bs pieces c c1 c' e r ended t =
      let (c2, ended2, kept, outcome) =
        read_event-told contents rl wire ul codec encodes F productive sound decodes pure
          (suc (length (contents c.conn.in_buffer ++ (b ∷ bs)))) b bs c e r (omega arith) in
      let same : c2 ≡ c1 = one_end (sym ended2 ∙ ended) in
      elim outcome [
        | inl closed ↦ absurd (
            cc (
              sym (ap (λ (x : Cell R U X Up P). is_disconnected x.conn.state) same) ∙ closed,
              t.opened,
            ))
        | inr (o, app, sent) ↦
            join-Told d.frames (feed F d.rest pieces) c c1 c' o
              (subst (λ (x : Cell R U X Up P). x.app ≡ (responses Up codec c.app d.frames).0) same
                app)
              (subst
                (λ (x : Cell R U X Up P).
                  queued contents rl wire ul x
                  ≡ queued contents rl wire ul c ++ (responses Up codec c.app d.frames).1)
                same sent)
              (subst (λ x. Told c1 (feed F x pieces) c')
                (subst (λ (x : Cell R U X Up P). contents x.conn.in_buffer ≡ d.rest) same kept) t)
      ]
    where
      d : Drained
      d = drained F (contents c.conn.in_buffer ++ (b ∷ bs))

  pub Session-Told :
      {c c' : Cell R U X Up P} {pieces : List (List ℕ)}
      → Session contents codec c pieces c'
      → IsOpen c'
      → Told c (feed F (contents c.conn.in_buffer) pieces) c'
  unfolding feed
  Session-Told over o = record {
    opened = o;
    kept = refl;
    app_after = refl;
    sent_after = sym (append-nil _);
  }
  Session-Told {c = c} (writes {pieces = pieces} s) o = written-Told pieces c _ (Session-Told s o)
  Session-Told {c = c} {c' = c'} (reads {c1 = c1} {pieces = pieces} b bs e r ended s) o =
      read-Told b bs pieces c c1 c' e r ended (Session-Told s o)
