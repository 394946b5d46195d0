-- ===== src/Connect/Methods/Interest.antt =====
-- net/connect/connect.go: the events that a connection waits for. Bytes that wait for the socket are
-- never forgotten, and reading is only ever off while there are some.
use zput_net_golang.Prelude.{
  ℕ, zero, suc, ◌≡◌, ◌≢◌, ◌⊎◌, inl, inr, refl, ap, ◌∙◌, arith, List, [], ◌++◌, length, drop, Bool,
  true, false, Bool-cases, nil_of_length, ◌==◌, ltb, ◌&&◌, length-append, ltb_ℤ, pos,
}
use zput_net_golang.Outside.RingBuffer.{RingBuffer, RingLaws}
use zput_net_golang.Outside.Unix.{Unix, eagain, eintr, other, WriteResult, wrote, write_failed}
use zput_net_golang.Multiplex.{Multiplex}
use zput_net_golang.Protocol.EventType.{event_read, event_write, event_err}
use zput_net_golang.Protocol.EventType.Laws.{IsEvents, Sets, read-Sets, write-Sets}
use zput_net_golang.EventLoop.Event.{Event, enable_reading, enable_writing, is_reading, is_writing}
use zput_net_golang.Connect.State.{App, Cell, Handler}
use zput_net_golang.Connect.Methods.{
  after_write, write, write_done, after_second, after_first, write_event, update_activity_time,
  set_writing, set_reading, buffer_out, retrieve_out,
}
use zput_net_golang.Connect.Methods.Wire.{IsOpen, closed_absurd, past_front}

-- An event, and the bytes that wait to be written. With bytes waiting the event waits to write, and
-- it waits to read unless bytes are waiting.
pub record Served (ev : Event Handler) (out : List ℕ) : Type 0 where
  pub bits : IsEvents ev.events
  pub draining : (out ≡ []) ⊎ (is_writing ev ≡ true)
  pub listening : (is_reading ev ≡ true) ⊎ (length out ≢ 0)

more : (xs ys : List ℕ) → length xs ≢ 0 → length (xs ++ ys) ≢ 0
more xs ys h e = h (omega (arith, length-append xs ys))

drop-nil : (n : ℕ) → drop {A = ℕ} n [] ≡ []
drop-nil zero = refl
drop-nil (suc n) = refl

module _ {R : RingBuffer} {U : Unix} {X : Multiplex} {Up : App} {P : Type 0}
    (contents : R.Buf → List ℕ) (rl : RingLaws R contents) where
  abbrev pub out : Cell R U X Up P → List ℕ
  out c = contents c.conn.out_buffer

  -- A connection that is still open is served.
  abbrev pub IsServed : Cell R U X Up P → Type 0
  IsServed c = IsOpen c → Served c.conn.event (out c)

  writing-Served :
      (c : Cell R U X Up P)
      → IsEvents c.conn.event.events
      → (is_reading c.conn.event ≡ true) ⊎ (length (out c) ≢ 0)
      → Served (set_writing true c).conn.event (out c)
  unfolding enable_writing is_writing is_reading
  writing-Served c b l =
      let s = write-Sets c.conn.event.events b in
      record {
        bits = s.set_bound;
        draining = inr s.set_self;
        listening = ground (arith, s.set_other);
      }

  out-write : (c : Cell R U X Up P) (xs : List ℕ) → out (buffer_out xs c) ≡ out c ++ xs
  out-write c xs = rl.write_lem c.conn.out_buffer xs

  -- The bytes that `write` could not send are appended.
  buffered-Served :
      (c : Cell R U X Up P) (xs : List ℕ)
      → Served c.conn.event (out c)
      → Served (set_writing true (buffer_out xs c)).conn.event (out (buffer_out xs c))
  buffered-Served c xs s =
      writing-Served (buffer_out xs c) s.bits
        (elim s.listening [ inl e ↦ inl e | inr e ↦ inr (rw (out-write c xs) (more (out c) xs e)) ])

  after_write-IsServed :
      (r : WriteResult) (xs : List ℕ) (c : Cell R U X Up P)
      → Served c.conn.event (out c)
      → IsServed (after_write xs r c)
  unfolding after_write enable_writing
  after_write-IsServed (wrote n) xs c s o = elim (Bool-cases (ltb n (length xs))) [
    | inl e ↦ rw e (buffered-Served c (drop n xs) s)
    | inr e ↦ rw e s
  ]
  after_write-IsServed (write_failed eagain) xs c s o = buffered-Served c xs s
  after_write-IsServed (write_failed eintr) xs c s o = closed_absurd c o
  after_write-IsServed (write_failed (other n)) xs c s o = closed_absurd c o

  pub write-IsServed :
      (xs : List ℕ) (c : Cell R U X Up P) → Served c.conn.event (out c) → IsServed (write xs c)
  unfolding write
  write-IsServed xs c s = elim (Bool-cases (R.is_empty c.conn.out_buffer)) [
    | inl e ↦ rw e (after_write-IsServed (U.write c.kernel c.conn.fd xs).0 xs _ s)
    | inr e ↦ rw e (λ o. record {
      bits = s.bits;
      draining = elim s.draining [ inl n ↦ absurd (nonempty e n) | inr w ↦ inr w ];
      listening = elim s.listening [
        | inl l ↦ inl l
        | inr l ↦ inr (rw (out-write c xs) (more (out c) xs l))
      ];
    })
  ]
    where
      nonempty : R.is_empty c.conn.out_buffer ≡ false → out c ≢ []
      nonempty e n = ground (arith, rl.is_empty_lem c.conn.out_buffer, ap length n)

  -- `write` on a served connection leaves it served, unless it closes it.
  pub write-Served :
      (xs : List ℕ) (c : Cell R U X Up P)
      → Served c.conn.event (contents c.conn.out_buffer)
      → IsOpen (write xs c)
      → Served (write xs c).conn.event (contents (write xs c).conn.out_buffer)
  write-Served xs c s o = write-IsServed xs c s o

  -- The end of `writeEvent`: it asks for what the invariant wants, whatever was asked for reading.
  write_done-IsServed :
      (c : Cell R U X Up P)
      → IsEvents c.conn.event.events
      → (out c ≡ []) ⊎ (is_writing c.conn.event ≡ true)
      → IsServed (write_done c)
  unfolding write_done enable_writing enable_reading is_writing is_reading
  write_done-IsServed c b d o = elim (Bool-cases (R.size c.conn.out_buffer == 0)) [
    | inl e ↦ rw e (record {
      bits =
          ground
            (arith, clear.clear_bound, (read-Sets _ clear.clear_bound).set_bound, unset.set_bound);
      draining = inl (ground (arith, none_left e));
      listening = inl (ground (arith, (read-Sets _ clear.clear_bound).set_self, unset.set_self));
    })
    | inr e ↦ rw e (record {
      bits = b;
      draining = d;
      listening = inr (λ q. ground (arith, rl.size_lem c.conn.out_buffer));
    })
  ]
    where
      clear : Sets event_write event_read event_err c.conn.event.events
      clear = write-Sets c.conn.event.events b

      unset : Sets event_read event_write event_err c.conn.event.events
      unset = read-Sets c.conn.event.events b

      none_left : (R.size c.conn.out_buffer == 0) ≡ true → out c ≡ []
      none_left e = nil_of_length (out c) (ground (arith, rl.size_lem c.conn.out_buffer))

  -- Bytes leave the buffer: what is left is drained as before.
  drain_half :
      (n : ℕ) (c : Cell R U X Up P)
      → (out c ≡ []) ⊎ (is_writing c.conn.event ≡ true)
      → (out (retrieve_out n c) ≡ []) ⊎ (is_writing c.conn.event ≡ true)
  drain_half n c (inl e) = inl (rl.retrieve_lem c.conn.out_buffer n ∙ rw e (drop-nil n))
  drain_half n c (inr w) = inr w

  after_second-IsServed :
      (r : WriteResult) (c : Cell R U X Up P)
      → Served c.conn.event (out c)
      → IsServed (after_second r c)
  unfolding after_second
  after_second-IsServed (wrote n) c s =
      write_done-IsServed (retrieve_out n c) s.bits (drain_half n c s.draining)
  after_second-IsServed (write_failed eagain) c s = λ o. s
  after_second-IsServed (write_failed eintr) c s = closed_absurd c
  after_second-IsServed (write_failed (other n)) c s = closed_absurd c

  after_first-IsServed :
      (first end : List ℕ) (r : WriteResult) (c : Cell R U X Up P)
      → first ++ end ≡ out c
      → Served c.conn.event (out c)
      → IsServed (after_first first end r c)
  unfolding after_first
  after_first-IsServed first end (wrote n) c e s = elim (Bool-cases again) [
    | inl t ↦ rw t (
        after_second-IsServed (U.write c.kernel c.conn.fd end).0 _ (record {
          bits = s.bits;
          draining = drain_half n c s.draining;
          listening = inr (left t);
        }))
    | inr f ↦ rw f (write_done-IsServed (retrieve_out n c) s.bits (drain_half n c s.draining))
  ]
    where
      again : Bool
      again = n == length first && ltb 0 (length end)

      left : again ≡ true → length (out (retrieve_out n c)) ≢ 0
      left t =
          rw (rl.retrieve_lem c.conn.out_buffer n, ← e, past_front n first end (ground (arith, t)))
            (λ z. ground (arith, t))
  after_first-IsServed first end (write_failed eagain) c e s = λ o. s
  after_first-IsServed first end (write_failed eintr) c e s = closed_absurd c
  after_first-IsServed first end (write_failed (other n)) c e s = closed_absurd c

  pub update_activity-Served :
      (c : Cell R U X Up P)
      → Served c.conn.event (out c)
      → Served (update_activity_time c).conn.event (out (update_activity_time c))
  unfolding update_activity_time
  update_activity-Served c s = elim (Bool-cases (ltb_ℤ (pos 0) c.conn.idle_time)) [
    | inl e ↦ rw e s
    | inr e ↦ rw e s
  ]

  -- `writeEvent` on a served connection leaves it served, unless it closes it.
  pub write_event-Served :
      (c : Cell R U X Up P)
      → Served c.conn.event (contents c.conn.out_buffer)
      → IsOpen (write_event c)
      → Served (write_event c).conn.event (contents (write_event c).conn.out_buffer)
  unfolding write_event
  write_event-Served c0 s =
      after_first-IsServed (R.peek_all c.conn.out_buffer).0 (R.peek_all c.conn.out_buffer).1 _ _
        (rl.peek_all_lem c.conn.out_buffer) (update_activity-Served c0 s)
    where
      c : Cell R U X Up P
      c = update_activity_time c0

  -- `readEvent` turns reading off only while bytes wait to be written.
  pub stop_reading-Served :
      (c : Cell R U X Up P)
      → R.is_empty c.conn.out_buffer ≡ false
      → Served c.conn.event (out c)
      → Served (set_reading false c).conn.event (out c)
  unfolding enable_reading is_reading is_writing
  stop_reading-Served c e s =
      let r = read-Sets c.conn.event.events s.bits in
      record {
        bits = r.clear_bound;
        draining = elim s.draining [ inl n ↦ inl n | inr w ↦ inr (r.clear_other ∙ w) ];
        listening = inr (λ q. ground (arith, rl.is_empty_lem c.conn.out_buffer));
      }
