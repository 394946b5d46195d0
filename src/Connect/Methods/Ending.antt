-- ===== src/Connect/Methods/Ending.antt =====
-- net/connect/connect.go: `readEvent` always returns.
use zput_net_golang.Prelude.{
  ℕ, ◌+◌, ◌<◌, ◌≡◌, ◌≢◌, refl, arith, List, [], ◌∷◌, length, length-append, true, false, Bool-cases,
  inl, inr,
}
use zput_net_golang.Outside.RingBuffer.{RingBuffer, RingLaws}
use zput_net_golang.Outside.Unix.{
  Unix, UnixLaws, ReadResult, got, read_failed, eagain, eintr, other,
}
use zput_net_golang.Multiplex.{Multiplex}
use zput_net_golang.Protocol.Errors.{panicked}
use zput_net_golang.Protocol.Codec.{ICodec}
use zput_net_golang.Protocol.Framing.{crash, Framer, Decodes, IsProductive}
use zput_net_golang.Connect.State.{Connect, App, Cell}
use zput_net_golang.Connect.Buffers.Stream.{pending}
use zput_net_golang.Connect.Methods.{
  finished, read_event, after_read, update_activity_time, buf_len, close_event, set_reading,
}
use zput_net_golang.Connect.Methods.Replies.{ReadsOnly}
use zput_net_golang.Connect.Methods.Messages.{read_event-told}

update-out :
    {R : RingBuffer} {U : Unix} {X : Multiplex} {Up : App} {P : Type 0} (c : Cell R U X Up P)
    → (update_activity_time c).conn.out_buffer ≡ c.conn.out_buffer
unfolding update_activity_time
update-out c = ground arith

module _ {R : RingBuffer} {U : Unix} {X : Multiplex} {Up : App} {P : Type 0}
    (contents : R.Buf → List ℕ) (rl : RingLaws R contents) (wire : U.Kernel → ℕ → List ℕ)
    (ul : UnixLaws U wire) (codec : ICodec (Connect R.Buf))
    (encodes : (xs : List ℕ) → codec.encode xs ≢ panicked) (F : Framer)
    (productive : IsProductive F) (sound : (xs : List ℕ) (k : ℕ) → F xs ≢ crash k)
    (decodes : Decodes codec (pending R contents rl) F) (pure : ReadsOnly codec) where
  -- `readEvent` returns, whatever the socket answers and whether bytes wait to be written or not, on a
  -- codec whose `Encode` never panics, and whose `Decode` changes nothing of the connection but the bytes
  -- to be read and does with them what a framer says that never panics and takes a byte at least for
  -- each frame: one round of its loop for each byte kept
  -- and each byte of its buffer is more than it makes.
  pub read_event_ends :
      (fuel : ℕ) (c : Cell R U X Up P)
      → length (contents c.conn.in_buffer) + buf_len < fuel
      → (c' : Cell R U X Up P) × (read_event codec fuel c ≡ finished c')
  unfolding read_event after_read
  read_event_ends fuel c h = elim (Bool-cases (R.is_empty c.conn.out_buffer)) [
    | inl e ↦ by_read e (answer c).0 refl
    | inr e ↦ (set_reading false (update_activity_time c), paused e)
  ]
    where
      answer : Cell R U X Up P → ReadResult × U.Kernel
      answer d = U.read (update_activity_time d).kernel (update_activity_time d).conn.fd buf_len

      paused :
          R.is_empty c.conn.out_buffer ≡ false
          → read_event codec fuel c ≡ finished (set_reading false (update_activity_time c))
      paused e = rw (update-out c, e)

      after : (d : Cell R U X Up P) → Cell R U X Up P
      after d = record (update_activity_time d) { kernel = (answer d).1 }

      asked :
          R.is_empty c.conn.out_buffer ≡ true
          → (r : ReadResult) → (answer c).0 ≡ r
          → read_event codec fuel c ≡ after_read codec fuel r (after c)
      asked e r q = rw (update-out c, e, q)

      by_read :
          R.is_empty c.conn.out_buffer ≡ true
          → (r : ReadResult) → (answer c).0 ≡ r
          → (c' : Cell R U X Up P) × (read_event codec fuel c ≡ finished c')
      by_read e (got []) q = (close_event (after c), asked e (got []) q)
      by_read e (got (b ∷ bs)) q =
          let (c', ended, kept, outcome) =
            read_event-told contents rl wire ul codec encodes F productive sound decodes pure fuel b
              bs c e q
              (omega (
                arith,
                length-append (contents c.conn.in_buffer) (b ∷ bs),
                ul.read_bound (update_activity_time c).kernel (update_activity_time c).conn.fd
                    buf_len (b ∷ bs) q,
              )) in
          (c', ended)
      by_read e (read_failed eagain) q = (after c, asked e (read_failed eagain) q)
      by_read e (read_failed eintr) q = (close_event (after c), asked e (read_failed eintr) q)
      by_read e (read_failed (other n)) q =
          (close_event (after c), asked e (read_failed (other n)) q)
