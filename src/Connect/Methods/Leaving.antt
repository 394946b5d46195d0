-- ===== src/Connect/Methods/Leaving.antt =====
-- net/connect/connect.go: what `writeEvent` leaves alone of a connection.
use zput_net_golang.Prelude.{
  ℕ, ◌≡◌, refl, sym, ap, ◌∙◌, arith, List, length, Bool-cases, inl, inr, ◌==◌, ltb, ◌&&◌, some,
  Option-cases,
}
use zput_net_golang.Outside.RingBuffer.{RingBuffer, RingLaws}
use zput_net_golang.Outside.Unix.{Unix, WriteResult, wrote, write_failed, eagain, eintr, other}
use zput_net_golang.Multiplex.{Multiplex}
use zput_net_golang.EventLoop.Event.{enable_reading, enable_writing, disable_all, unregister}
use zput_net_golang.Connect.State.{App, Cell}
use zput_net_golang.Connect.Methods.{
  is_disconnected, write_event, write_done, after_first, after_second, update_activity_time,
  close_event, retrieve_out,
}
use zput_net_golang.Connect.Methods.Wire.{IsOpen, closed_absurd}

module _ {R : RingBuffer} {U : Unix} {X : Multiplex} {Up : App} {P : Type 0}
    (contents : R.Buf → List ℕ) (rl : RingLaws R contents)
    (quiet : (f : Up.A → Up.A) → Up.write_complete ≡ some f → (a : Up.A) → f a ≡ a) where
  -- What `writeEvent` leaves alone, with a write-complete callback that does nothing.
  pub record Leaves (c c' : Cell R U X Up P) : Type 0 where
    pub in_left : contents c'.conn.in_buffer ≡ contents c.conn.in_buffer
    pub open_left : IsOpen c' → IsOpen c
    pub app_left : IsOpen c' → c'.app ≡ c.app

  close-Leaves : (c : Cell R U X Up P) → Leaves c (close_event c)
  unfolding close_event disable_all unregister
  close-Leaves c = record {
    in_left = ground (arith, rl.put_lem c.pool c.conn.in_buffer);
    open_left = λ o. closed_absurd c o;
    app_left = λ o. closed_absurd c o;
  }

  write_done-Leaves : (c : Cell R U X Up P) → Leaves c (write_done c)
  unfolding write_done enable_writing enable_reading
  write_done-Leaves c = elim (Option-cases Up.write_complete) [
    | inl e ↦ record {
      in_left = ground (arith, e);
      open_left = λ o. ground (arith, e);
      app_left = λ o. ground (arith, e);
    }
    | inr (f, e) ↦ record {
      in_left = ground (arith, e);
      open_left = λ o. ground (arith, e);
      app_left = λ o. ground (arith, e, quiet f e c.app);
    }
  ]

  carry-Leaves : {c d c' : Cell R U X Up P} → Leaves c d → Leaves d c' → Leaves c c'
  carry-Leaves v w = record {
    in_left = w.in_left ∙ v.in_left;
    open_left = λ o. v.open_left (w.open_left o);
    app_left = λ o. w.app_left o ∙ v.app_left (w.open_left o);
  }

  -- A step that touches none of the three comes first.
  rebase-Leaves :
      (c d c' : Cell R U X Up P)
      → d.conn.in_buffer ≡ c.conn.in_buffer
      → d.conn.state ≡ c.conn.state
      → d.app ≡ c.app
      → Leaves d c'
      → Leaves c c'
  rebase-Leaves c d c' i s a v =
      carry-Leaves
        (record {
          in_left = ap contents i;
          open_left = λ o. ap is_disconnected (sym s) ∙ o;
          app_left = λ o. a;
        })
        v

  same-Leaves : (c : Cell R U X Up P) → Leaves c c
  same-Leaves c = record { in_left = refl; open_left = λ o. o; app_left = λ o. refl }

  after_second-Leaves : (r : WriteResult) (c : Cell R U X Up P) → Leaves c (after_second r c)
  unfolding after_second
  after_second-Leaves (wrote n) c =
      rebase-Leaves c (retrieve_out n c) _ refl refl refl (write_done-Leaves (retrieve_out n c))
  after_second-Leaves (write_failed eagain) c = same-Leaves c
  after_second-Leaves (write_failed eintr) c = close-Leaves c
  after_second-Leaves (write_failed (other n)) c = close-Leaves c

  after_first-Leaves :
      (first end : List ℕ) (r : WriteResult) (c : Cell R U X Up P)
      → Leaves c (after_first first end r c)
  unfolding after_first
  after_first-Leaves first end (wrote n) c =
      elim (Bool-cases (n == length first && ltb 0 (length end))) [
        | inl t ↦
            rw (t, after_first)
              (rebase-Leaves c (again c) _ refl refl refl
                (after_second-Leaves (U.write c.kernel c.conn.fd end).0 (again c)))
        | inr f ↦
            rw (f, after_first)
              (rebase-Leaves c (retrieve_out n c) _ refl refl refl
                (write_done-Leaves (retrieve_out n c)))
      ]
    where
      again : Cell R U X Up P → Cell R U X Up P
      again d = record (retrieve_out n d) { kernel = (U.write d.kernel d.conn.fd end).1 }
  after_first-Leaves first end (write_failed eagain) c = same-Leaves c
  after_first-Leaves first end (write_failed eintr) c = close-Leaves c
  after_first-Leaves first end (write_failed (other n)) c = close-Leaves c

  update-Leaves : (c : Cell R U X Up P) → Leaves c (update_activity_time c)
  unfolding update_activity_time
  update-Leaves c = ground arith

  pub write_event-Leaves : (c : Cell R U X Up P) → Leaves c (write_event c)
  unfolding write_event
  write_event-Leaves c = carry-Leaves (update-Leaves c) (
      rebase-Leaves (update_activity_time c) (sending (update_activity_time c)) _ refl refl refl (
        after_first-Leaves (R.peek_all (update_activity_time c).conn.out_buffer).0
          (R.peek_all (update_activity_time c).conn.out_buffer).1 _
          (sending (update_activity_time c))))
    where
      sending : Cell R U X Up P → Cell R U X Up P
      sending d = record d {
        kernel = (U.write d.kernel d.conn.fd (R.peek_all d.conn.out_buffer).0).1;
      }
