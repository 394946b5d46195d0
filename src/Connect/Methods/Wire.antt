-- ===== src/Connect/Methods/Wire.antt =====
-- net/connect/connect.go: bytes handed to `write` reach the socket once and in order.
use zput_net_golang.Prelude.{
  ℕ, ◌≤◌, ◌≡◌, refl, sym, ap, subst, ltb, ◌&&◌, ◌∙◌, arith, List, [], ◌++◌, append_assoc,
  append-nil, length, take, drop, take-append-drop, take_all, drop-append_le, Bool, true, false,
  Bool-cases, inl, inr, nil_of_length, ◌==◌,
}
use zput_net_golang.Outside.RingBuffer.{RingBuffer, RingLaws}
use zput_net_golang.Outside.Unix.{
  Unix, UnixLaws, eagain, eintr, other, WriteResult, wrote, write_failed,
}
use zput_net_golang.Multiplex.{Multiplex}
use zput_net_golang.Protocol.Framing.RoundTrip.{drop-length}
use zput_net_golang.EventLoop.Event.{enable_reading, enable_writing}
use zput_net_golang.Connect.State.{App, Cell}
use zput_net_golang.Connect.Methods.{
  is_disconnected, close_event, after_write, write, write_done, after_second, after_first,
  write_event, update_activity_time, retrieve_out,
}

module _ {R : RingBuffer} {U : Unix} {X : Multiplex} {Up : App} {P : Type 0} where
  abbrev pub IsOpen : Cell R U X Up P → Type 0
  IsOpen c = is_disconnected c.conn.state ≡ false

  -- Closing leaves the connection disconnected, whatever its state was.
  pub close_event-closed : (c : Cell R U X Up P) → is_disconnected (close_event c).conn.state ≡ true
  unfolding close_event
  close_event-closed c = ground arith

  pub closed_absurd {κ} : {T : Type κ} (c : Cell R U X Up P) → IsOpen (close_event c) → T
  closed_absurd c h = absurd (cc (close_event-closed c))

-- What a call of `unix.Write` with `xs` did to the socket, which had accepted `before`.
abbrev Did : WriteResult → List ℕ → List ℕ → List ℕ → Type 0
Did (wrote n) xs before after = (n ≤ length xs) × (after ≡ before ++ take n xs)
Did (write_failed e) xs before after = after ≡ before

pub past_front : (n : ℕ) (xs ys : List ℕ) → n ≡ length xs → drop n (xs ++ ys) ≡ ys
past_front n xs ys e = rw e (drop-length xs ys)

module _ (U : Unix) (wire : U.Kernel → ℕ → List ℕ) (ul : UnixLaws U wire) where
  did :
      (k : U.Kernel) (fd : ℕ) (xs : List ℕ)
      → Did (U.write k fd xs).0 xs (wire k fd) (wire (U.write k fd xs).1 fd)
  did k fd xs = by_result (U.write k fd xs).0 refl
    where
      by_result :
          (r : WriteResult)
          → (U.write k fd xs).0 ≡ r
          → Did r xs (wire k fd) (wire (U.write k fd xs).1 fd)
      by_result (wrote n) e = ul.write_front k fd n xs e
      by_result (write_failed n) e = ul.write_none k fd xs n e

module _ {R : RingBuffer} {U : Unix} {X : Multiplex} {Up : App} {P : Type 0}
    (contents : R.Buf → List ℕ) (rl : RingLaws R contents) (wire : U.Kernel → ℕ → List ℕ)
    (ul : UnixLaws U wire) where
  -- The bytes accepted by the socket, then those that wait in the write buffer.
  abbrev pub queued : Cell R U X Up P → List ℕ
  queued c = wire c.kernel c.conn.fd ++ contents c.conn.out_buffer

  out_nil :
      (c : Cell R U X Up P) → R.is_empty c.conn.out_buffer ≡ true → contents c.conn.out_buffer ≡ []
  out_nil c h = nil_of_length _ (ground (arith, rl.is_empty_lem c.conn.out_buffer))

  after_write-queued :
      (r : WriteResult) (xs before : List ℕ) (c : Cell R U X Up P)
      → contents c.conn.out_buffer ≡ []
      → Did r xs before (wire c.kernel c.conn.fd)
      → IsOpen (after_write xs r c)
      → queued (after_write xs r c) ≡ before ++ xs
  unfolding after_write enable_writing
  after_write-queued (wrote n) xs before c e h o = ground (
    arith,
    rl.write_lem c.conn.out_buffer (drop n xs),
    take-append-drop n xs,
    append_assoc before (take n xs) (drop n xs),
    take_all n xs,
    append-nil (before ++ xs),
  )
  after_write-queued (write_failed eagain) xs before c e h o =
      ground (arith, rl.write_lem c.conn.out_buffer xs)
  after_write-queued (write_failed eintr) xs before c e h o = closed_absurd c o
  after_write-queued (write_failed (other n)) xs before c e h o = closed_absurd c o

  -- Unless `write` closes the connection, the bytes accepted by the socket and those that wait are what
  -- they were, with the data at the end.
  pub write-queued :
      (xs : List ℕ) (c : Cell R U X Up P)
      → IsOpen (write xs c)
      → queued (write xs c) ≡ queued c ++ xs
  unfolding write
  write-queued xs c o = elim (Bool-cases (R.is_empty c.conn.out_buffer)) [
    | inl e ↦
        subst (λ (c' : Cell R U X Up P). IsOpen c' → queued c' ≡ queued c ++ xs) (sym (opened e))
          (λ o'.
            after_write-queued (U.write c.kernel c.conn.fd xs).0 xs (wire c.kernel c.conn.fd) _
              (out_nil c e) (did U wire ul c.kernel c.conn.fd xs) o'
            ∙ rw (out_nil c e, append-nil))
          o
    | inr e ↦ rw e (
        rw (rl.write_lem c.conn.out_buffer xs)
          (sym (append_assoc (wire c.kernel c.conn.fd) (contents c.conn.out_buffer) xs)))
  ]
    where
      opened :
          R.is_empty c.conn.out_buffer ≡ true
          → write xs c
            ≡ after_write xs
                (U.write c.kernel c.conn.fd xs).0
                (record c { kernel = (U.write c.kernel c.conn.fd xs).1 })
      opened e = rw e

  write_done-queued : (c : Cell R U X Up P) → queued (write_done c) ≡ queued c
  unfolding write_done enable_writing enable_reading
  write_done-queued c = ground arith

  -- Bytes that leave the write buffer for the socket.
  retrieve-queued :
      (n : ℕ) (xs rest before : List ℕ) (c : Cell R U X Up P)
      → Did (wrote n) xs before (wire c.kernel c.conn.fd)
      → contents c.conn.out_buffer ≡ xs ++ rest
      → queued (retrieve_out n c) ≡ before ++ contents c.conn.out_buffer
  retrieve-queued n xs rest before c h e =
      rw (rl.retrieve_lem c.conn.out_buffer n, e, h.1, drop-append_le n xs rest h.0)
        (ground (
          arith,
          append_assoc before (take n xs) (drop n xs ++ rest),
          append_assoc (take n xs) (drop n xs) rest,
          take-append-drop n xs,
        ))

  after_second-queued :
      (r : WriteResult) (before : List ℕ) (c : Cell R U X Up P)
      → Did r (contents c.conn.out_buffer) before (wire c.kernel c.conn.fd)
      → IsOpen (after_second r c)
      → queued (after_second r c) ≡ before ++ contents c.conn.out_buffer
  unfolding after_second
  after_second-queued (wrote n) before c h o =
      write_done-queued (retrieve_out n c)
      ∙ retrieve-queued n (contents c.conn.out_buffer) [] before c h (sym (append-nil _))
  after_second-queued (write_failed eagain) before c h o =
      ap (λ t. t ++ contents c.conn.out_buffer) h
  after_second-queued (write_failed eintr) before c h o = closed_absurd c o
  after_second-queued (write_failed (other n)) before c h o = closed_absurd c o

  after_first-queued :
      (first end : List ℕ) (r : WriteResult) (before : List ℕ) (c : Cell R U X Up P)
      → first ++ end ≡ contents c.conn.out_buffer
      → Did r first before (wire c.kernel c.conn.fd)
      → IsOpen (after_first first end r c)
      → queued (after_first first end r c) ≡ before ++ contents c.conn.out_buffer
  unfolding after_first
  after_first-queued first end (wrote n) before c e h o = elim (Bool-cases again) [
    | inl t ↦
        subst kept (sym (second t))
          (λ o'. after_second-queued r2 (wire c1.kernel c1.conn.fd) c2 (did2 t) o' ∙ retrieved) o
    | inr f ↦ subst kept (sym (single f)) (λ _. write_done-queued c1 ∙ retrieved) o
  ]
    where
      again : Bool
      again = n == length first && ltb 0 (length end)

      c1 : Cell R U X Up P
      c1 = retrieve_out n c

      r2 : WriteResult
      r2 = (U.write c1.kernel c1.conn.fd end).0

      c2 : Cell R U X Up P
      c2 = record c1 { kernel = (U.write c1.kernel c1.conn.fd end).1 }

      kept : Cell R U X Up P → Type 0
      kept c' = IsOpen c' → queued c' ≡ before ++ contents c.conn.out_buffer

      second : again ≡ true → after_first first end (wrote n) c ≡ after_second r2 c2
      second t = rw t

      single : again ≡ false → after_first first end (wrote n) c ≡ write_done c1
      single f = rw f

      retrieved : queued c1 ≡ before ++ contents c.conn.out_buffer
      retrieved = retrieve-queued n first end before c h (sym e)

      did2 :
          again ≡ true
          → Did r2
              (contents c1.conn.out_buffer)
              (wire c1.kernel c1.conn.fd)
              (wire c2.kernel c1.conn.fd)
      did2 t =
          rw (rl.retrieve_lem c.conn.out_buffer n, ← e, past_front n first end (ground (arith, t)))
            (did U wire ul c1.kernel c1.conn.fd end)
  after_first-queued first end (write_failed eagain) before c e h o =
      ap (λ t. t ++ contents c.conn.out_buffer) h
  after_first-queued first end (write_failed eintr) before c e h o = closed_absurd c o
  after_first-queued first end (write_failed (other n)) before c e h o = closed_absurd c o

  update_activity-queued :
      (c : Cell R U X Up P)
      → (queued (update_activity_time c) ≡ queued c)
        × (wire (update_activity_time c).kernel c.conn.fd ≡ wire c.kernel c.conn.fd)
  unfolding update_activity_time
  update_activity-queued c = ground (arith, ul.now_wire c.kernel c.conn.fd)

  -- Unless `writeEvent` closes the connection, the bytes accepted by the socket and those that wait, taken
  -- together, are what they were.
  pub write_event-queued :
      (c : Cell R U X Up P) → IsOpen (write_event c) → queued (write_event c) ≡ queued c
  unfolding write_event
  write_event-queued c0 o =
      after_first-queued (R.peek_all c.conn.out_buffer).0 (R.peek_all c.conn.out_buffer).1 _
        (wire c.kernel c.conn.fd) _ (rl.peek_all_lem c.conn.out_buffer)
        (did U wire ul c.kernel c.conn.fd (R.peek_all c.conn.out_buffer).0) o
      ∙ (update_activity-queued c0).0
    where
      c : Cell R U X Up P
      c = update_activity_time c0
