-- ===== src/Connect/Lifecycle/Tasks.antt =====
-- net/connect/connect.go with the queue of net/event_loop/event_loop.go: what other goroutines asked of a
-- connection, done by its loop.
use zput_net_golang.Prelude.{
  ℕ, ◌≡◌, refl, sym, ap, ◌∙◌, arith, List, [], ◌∷◌, ◌++◌, append-nil, append_assoc, true,
}
use zput_net_golang.Outside.RingBuffer.{RingBuffer, RingLaws}
use zput_net_golang.Outside.Unix.{
  Unix, UnixLaws, WriteResult, wrote, write_failed, eagain, eintr, other,
}
use zput_net_golang.Multiplex.{Multiplex}
use zput_net_golang.EventLoop.Event.{enable_writing}
use zput_net_golang.EventLoop.Queue.{EventLoop, new_loop, Steps}
use zput_net_golang.EventLoop.Queue.Fifo.{outstanding, Steps-outstanding}
use zput_net_golang.Connect.State.{App, Cell}
use zput_net_golang.Connect.Methods.{is_disconnected, close_event, write, after_write}
use zput_net_golang.Connect.Methods.Wire.{
  IsOpen, queued, write-queued, close_event-closed, closed_absurd,
}
use zput_net_golang.Connect.Methods.Keeping.{write-Keeps}
use zput_net_golang.Connect.Lifecycle.{Task, closes, writes, run_task}

-- The bytes that some tasks write.
abbrev pub written_by : List Task → List ℕ
written_by [] = []
written_by (closes ∷ ts) = written_by ts
written_by (writes xs ∷ ts) = xs ++ written_by ts

written_by-append : (ts us : List Task) → written_by (ts ++ us) ≡ written_by ts ++ written_by us
written_by-append [] us = refl
written_by-append (closes ∷ ts) us = written_by-append ts us
written_by-append (writes xs ∷ ts) us =
    ap (λ l. xs ++ l) (written_by-append ts us)
    ∙ sym (append_assoc xs (written_by ts) (written_by us))

module _ {R : RingBuffer} {U : Unix} {X : Multiplex} {Up : App} {P : Type 0} where
  abbrev pub run_tasks : List Task → Cell R U X Up P → Cell R U X Up P
  run_tasks [] c = c
  run_tasks (t ∷ ts) c = run_tasks ts (run_task t c)

module _ {R : RingBuffer} {U : Unix} {X : Multiplex} {Up : App} {P : Type 0}
    (contents : R.Buf → List ℕ) (rl : RingLaws R contents) (wire : U.Kernel → ℕ → List ℕ)
    (ul : UnixLaws U wire) where
  run_task-IsOpen : (t : Task) (c : Cell R U X Up P) → IsOpen (run_task t c) → IsOpen c
  unfolding run_task
  run_task-IsOpen closes c o = closed_absurd c o
  run_task-IsOpen (writes xs) c o = (write-Keeps contents rl xs c).was_open o

  run_tasks-IsOpen : (ts : List Task) (c : Cell R U X Up P) → IsOpen (run_tasks ts c) → IsOpen c
  run_tasks-IsOpen [] c o = o
  run_tasks-IsOpen (t ∷ ts) c o = run_task-IsOpen t c (run_tasks-IsOpen ts (run_task t c) o)

  run_tasks-queued :
      (ts : List Task) (c : Cell R U X Up P)
      → IsOpen (run_tasks ts c)
      → queued contents rl wire ul (run_tasks ts c) ≡ queued contents rl wire ul c ++ written_by ts
  unfolding run_task
  run_tasks-queued [] c o = sym (append-nil _)
  run_tasks-queued (closes ∷ ts) c o = closed_absurd c (run_tasks-IsOpen ts (run_task closes c) o)
  run_tasks-queued (writes xs ∷ ts) c o =
      run_tasks-queued ts (write xs c) o
      ∙ ap (λ l. l ++ written_by ts)
          (write-queued contents rl wire ul xs c (run_tasks-IsOpen ts (run_task (writes xs) c) o))
      ∙ append_assoc (queued contents rl wire ul c) xs (written_by ts)

  -- A loop starts with nothing to do, `added` is what goroutines handed to `RunInLoop` for a connection
  -- up to some point, in any interleaving with the loop's own steps, and `ran` is what the loop called.
  -- If the connection is open then, everything handed to `WriteInSelfLoop` is, in the order in which it
  -- was handed over, behind what was queued for the socket, or else in a function that is outstanding.
  pub sent_in_order :
      (c : Cell R U X Up P) (l : EventLoop Task) (added ran : List Task)
      → Steps new_loop added ran l
      → IsOpen (run_tasks ran c)
      → queued contents rl wire ul (run_tasks ran c) ++ written_by (outstanding l)
        ≡ queued contents rl wire ul c ++ written_by added
  sent_in_order c l added ran s o =
      ap (λ q. q ++ written_by (outstanding l)) (run_tasks-queued ran c o)
      ∙ append_assoc (queued contents rl wire ul c) (written_by ran) (written_by (outstanding l))
      ∙ ap (λ q. queued contents rl wire ul c ++ q)
          (sym (written_by-append ran (outstanding l)) ∙ ap written_by (sym (Steps-outstanding s)))

module _ {R : RingBuffer} {U : Unix} {X : Multiplex} {Up : App} {P : Type 0} where
  after_closed :
      (r : WriteResult) (xs : List ℕ) (c : Cell R U X Up P)
      → is_disconnected c.conn.state ≡ true
      → (after_write xs r c).kernel ≡ c.kernel
  unfolding after_write close_event enable_writing
  after_closed (wrote n) xs c d = ground arith
  after_closed (write_failed eagain) xs c d = refl
  after_closed (write_failed eintr) xs c d = rw d refl
  after_closed (write_failed (other n)) xs c d = rw d refl

  -- A task that writes and that the loop calls behind one that closes still makes its call of
  -- `unix.Write`, on the descriptor that was closed: `write` does not look at the state.
  pub written_after_close :
      (xs : List ℕ) (c : Cell R U X Up P)
      → R.is_empty (close_event c).conn.out_buffer ≡ true
      → (run_tasks (closes ∷ writes xs ∷ []) c).kernel
        ≡ (U.write (close_event c).kernel (close_event c).conn.fd xs).1
  unfolding run_task write
  written_after_close xs c e = rw e (
      after_closed (U.write (close_event c).kernel (close_event c).conn.fd xs).0 xs
        (record (close_event c) {
          kernel = (U.write (close_event c).kernel (close_event c).conn.fd xs).1;
        })
        (close_event-closed c))
