-- ===== src/Connect/Methods/Keeping.antt =====
-- net/connect/connect.go: what the methods that answer a message leave alone.
use zput_net_golang.Prelude.{ℕ, ◌≡◌, refl, arith, List, Bool-cases, inl, inr}
use zput_net_golang.Outside.RingBuffer.{RingBuffer, RingLaws}
use zput_net_golang.Outside.Unix.{Unix, eagain, eintr, other, WriteResult, wrote, write_failed}
use zput_net_golang.Multiplex.{Multiplex}
use zput_net_golang.EventLoop.Event.{enable_writing, disable_all, unregister}
use zput_net_golang.Connect.State.{App, Cell}
use zput_net_golang.Connect.Methods.{close_event, after_write, write}
use zput_net_golang.Connect.Methods.Wire.{IsOpen, close_event-closed}

module _ {R : RingBuffer} {U : Unix} {X : Multiplex} {Up : App} {P : Type 0}
    (contents : R.Buf → List ℕ) (rl : RingLaws R contents) where
  -- What a method that answers a message leaves alone, and that it opens no closed connection.
  pub record Keeps (c c' : Cell R U X Up P) : Type 0 where
    pub in_same : contents c'.conn.in_buffer ≡ contents c.conn.in_buffer
    pub temporary_same : c'.conn.temporary_buf ≡ c.conn.temporary_buf
    pub fd_same : c'.conn.fd ≡ c.conn.fd
    pub was_open : IsOpen c' → IsOpen c
    pub app_same : IsOpen c' → c'.app ≡ c.app

  pub Keeps-self : {c : Cell R U X Up P} → Keeps c c
  Keeps-self = record {
    in_same = refl;
    temporary_same = refl;
    fd_same = refl;
    was_open = λ o. o;
    app_same = λ o. refl;
  }

  close_event-Keeps : (c : Cell R U X Up P) → Keeps c (close_event c)
  unfolding close_event disable_all unregister
  close_event-Keeps c = record {
    in_same = ground (arith, rl.put_lem c.pool c.conn.in_buffer);
    temporary_same = ground arith;
    fd_same = ground arith;
    was_open = λ o. absurd (cc (close_event-closed c));
    app_same = λ o. absurd (cc (close_event-closed c));
  }

  after_write-Keeps :
      (r : WriteResult) (xs : List ℕ) (c : Cell R U X Up P) → Keeps c (after_write xs r c)
  unfolding after_write enable_writing
  after_write-Keeps (wrote n) xs c = ground arith
  after_write-Keeps (write_failed eagain) xs c = ground arith
  after_write-Keeps (write_failed eintr) xs c = close_event-Keeps c
  after_write-Keeps (write_failed (other n)) xs c = close_event-Keeps c

  pub write-Keeps : (xs : List ℕ) (c : Cell R U X Up P) → Keeps c (write xs c)
  unfolding write
  write-Keeps xs c = elim (Bool-cases (R.is_empty c.conn.out_buffer)) [
    | inl e ↦ rw e (record {
      in_same = sent.in_same;
      temporary_same = sent.temporary_same;
      fd_same = sent.fd_same;
      was_open = sent.was_open;
      app_same = sent.app_same;
    })
    | inr e ↦ rw e (record {
      in_same = refl;
      temporary_same = refl;
      fd_same = refl;
      was_open = λ o. o;
      app_same = λ o. refl;
    })
  ]
    where
      now : Cell R U X Up P
      now = record c { kernel = (U.write c.kernel c.conn.fd xs).1 }

      sent : Keeps now (after_write xs (U.write c.kernel c.conn.fd xs).0 now)
      sent = after_write-Keeps (U.write c.kernel c.conn.fd xs).0 xs now
