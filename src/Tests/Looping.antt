-- ===== src/Tests/Looping.antt =====
-- The theorems about the event loop, the two multiplexers and the life of a connection, at concrete
-- inputs.
use zput_net_golang.Prelude.{
  ℕ, ◌+◌, ◌≡◌, ◌≢◌, ◌<◌, ◌≤◌, refl, [], ◌∷◌, ◌++◌, ◌⊎◌, true, false, Bool, Option, none, some, pos,
  arith, ◌==◌, if◌then◌else◌, Option-cases, inl, inr,
}
use zput_net_golang.Outside.Unix
use zput_net_golang.Outside.Unix.{Errno}
use zput_net_golang.Outside.EpollKernel.{
  EpollKernel, EpollLaws, is_some, Op, ctl_add, ctl_del, ctl_mod,
}
use zput_net_golang.EventLoop.Event.{
  EventCtrl, new_event, register, enable_reading, enable_writing, enable_error_event, disable_all,
  unregister, lookup,
}
use zput_net_golang.EventLoop.Queue.{
  EventLoop, new_loop, run_in_loop, waiting, adds, Steps, none_yet, then_step,
}
use zput_net_golang.EventLoop.Queue.Fifo.{outstanding, Steps-outstanding, late-Steps, too_late}
use zput_net_golang.Multiplex.Kqueue.{add_event, Kqueue, Filter, filter_read, filter_write, kqueues}
use zput_net_golang.Multiplex.Kqueue.Sync.{
  for_reading, for_writing, IsWatched, watched, registered-IsWatched, run_calls,
}
use zput_net_golang.Multiplex.Epoll.{Epoll, epolls}
use zput_net_golang.Multiplex.Epoll.Registered.{HasMask, asked, event-HasMask}
use zput_net_golang.Connect.State.{Connect, connected, disconnected, Handler}
use zput_net_golang.Connect.Methods.{close_event, second}
use zput_net_golang.Connect.Methods.Closing.{close_event-unwatched}
use zput_net_golang.Connect.Methods.Interest.{Served}
use zput_net_golang.Connect.Lifecycle.{
  new_connect, connected_handle, close_timeout_conn, set_no_delay,
}
use zput_net_golang.Connect.Lifecycle.Birth.{connected_handle-Served}
use zput_net_golang.Connect.Lifecycle.Timeout.{close_timeout-bounds}
use zput_net_golang.Tests.Fixtures.{EchoCell, established, ring, held, ring-RingLaws, Socket}

-- A loop in its wait, with the functions 4 and 5 in the queue.
abbrev queue_of_two : EventLoop ℕ
queue_of_two = record { functions = 4 ∷ 5 ∷ []; running = true; place = waiting }

two_added : Steps (new_loop {F = ℕ}) (4 ∷ 5 ∷ []) [] (run_in_loop 5 (run_in_loop 4 new_loop))
two_added =
    then_step (4 ∷ []) [] (5 ∷ []) [] (then_step [] [] (4 ∷ []) [] none_yet (adds 4)) (adds 5)

Steps-outstanding_example :
    outstanding (new_loop {F = ℕ}) ++ (4 ∷ 5 ∷ [])
    ≡ [] ++ outstanding (run_in_loop 5 (run_in_loop 4 (new_loop {F = ℕ})))
Steps-outstanding_example = Steps-outstanding two_added

late-Steps_example : Steps queue_of_two (6 ∷ []) (4 ∷ 5 ∷ []) (too_late 6 queue_of_two)
late-Steps_example = late-Steps 6 queue_of_two refl refl

abbrev empty_ctrl : EventCtrl ℕ Kqueue
empty_ctrl = record { event_pool = []; multi = record { changes = []; wait_events = 1024 } }

registered-IsWatched_example :
    IsWatched
      (λ f. false)
      (run_calls
        (for_reading true ∷ for_writing true ∷ for_reading false ∷ [])
        (register kqueues 70 (new_event {H = Handler} 7) empty_ctrl))
registered-IsWatched_example =
    registered-IsWatched Handler 7 70 empty_ctrl
      (for_reading true ∷ for_writing true ∷ for_reading false ∷ []) (λ f. refl)

abbrev calm : EchoCell
calm = established (record { incoming = []; room = 0; accepted = []; time = 0 })

-- The kernel watches the connection for reading, which its event waits for.
abbrev reads_only : Filter → Bool
reads_only filter_read = true
reads_only filter_write = false

calm-IsWatched : IsWatched {P = ℕ} reads_only (none, calm.conn.event, calm.ctrl)
calm-IsWatched filter_read = refl
calm-IsWatched filter_write = refl

close_event-unwatched_example :
    (lookup 7 (close_event calm).ctrl.event_pool ≡ none)
    × ((f : Filter) → watched 7 f (reads_only f) (close_event calm).ctrl.multi.changes ≡ false)
close_event-unwatched_example = close_event-unwatched reads_only calm refl calm-IsWatched

-- A kernel that keeps a list of masks and always answers without an error.
abbrev pub set_mask : ℕ → Option ℕ → (ℕ → Option ℕ) → ℕ → Option ℕ
set_mask fd m k x = if x == fd then m else k x

-- epoll_ctl(2), with EEXIST and ENOENT.
abbrev pub controlled : Op → ℕ → ℕ → (ℕ → Option ℕ) → Option Errno × (ℕ → Option ℕ)
controlled ctl_add fd m k = elim (k fd) [
  | none ↦ (none, set_mask fd (some m) k)
  | some old ↦ (some (Unix.other 17), k)
]
controlled ctl_mod fd m k = elim (k fd) [
  | none ↦ (some (Unix.other 2), k)
  | some old ↦ (none, set_mask fd (some m) k)
]
controlled ctl_del fd m k = elim (k fd) [
  | none ↦ (some (Unix.other 2), k)
  | some old ↦ (none, set_mask fd none k)
]

abbrev masks : EpollKernel
masks = record {
  Kernel = ℕ → Option ℕ;
  ctl = λ k op fd m. controlled op fd m k;
  read_eventfd = λ k fd. k;
  write_eventfd = λ k fd. (none, k);
  epoll_create = λ k. (none, k);
  eventfd = λ k. (none, k);
  close = λ k fd. k;
}

-- A kernel that answers as `controlled` over its masks keeps the laws.
module _ (k : ℕ → Option ℕ) (fd m : ℕ) where
  pub controlled_sets :
      ((controlled ctl_add fd m k).0 ≡ none → (controlled ctl_add fd m k).1 fd ≡ some m)
      × ((controlled ctl_mod fd m k).0 ≡ none → (controlled ctl_mod fd m k).1 fd ≡ some m)
      × ((controlled ctl_del fd m k).0 ≡ none → (controlled ctl_del fd m k).1 fd ≡ none)
  controlled_sets = elim (Option-cases (k fd)) [
    | inl e ↦ ground (arith, e)
    | inr (o, e) ↦ ground (arith, e)
  ]

  pub controlled_asks :
      ((controlled ctl_add fd m k).0 ≡ none → is_some (k fd) ≡ false)
      × ((controlled ctl_mod fd m k).0 ≡ none → is_some (k fd) ≡ true)
      × ((controlled ctl_del fd m k).0 ≡ none → is_some (k fd) ≡ true)
  controlled_asks = elim (Option-cases (k fd)) [
    | inl e ↦ ground (arith, e)
    | inr (o, e) ↦ ground (arith, e)
  ]

  pub controlled_others : (op : Op) (x : ℕ) → x ≢ fd → (controlled op fd m k).1 x ≡ k x
  controlled_others ctl_add x h = elim (Option-cases (k fd)) [
    | inl e ↦ ground (arith, e)
    | inr (o, e) ↦ ground (arith, e)
  ]
  controlled_others ctl_mod x h = elim (Option-cases (k fd)) [
    | inl e ↦ ground (arith, e)
    | inr (o, e) ↦ ground (arith, e)
  ]
  controlled_others ctl_del x h = elim (Option-cases (k fd)) [
    | inl e ↦ ground (arith, e)
    | inr (o, e) ↦ ground (arith, e)
  ]

  pub controlled_failed :
      (op : Op) (e : Errno) → (controlled op fd m k).0 ≡ some e → (controlled op fd m k).1 fd ≡ k fd
  controlled_failed ctl_add n h = elim (Option-cases (k fd)) [
    | inl e ↦ ground (arith, e)
    | inr (o, e) ↦ ground (arith, e)
  ]
  controlled_failed ctl_mod n h = elim (Option-cases (k fd)) [
    | inl e ↦ ground (arith, e)
    | inr (o, e) ↦ ground (arith, e)
  ]
  controlled_failed ctl_del n h = elim (Option-cases (k fd)) [
    | inl e ↦ ground (arith, e)
    | inr (o, e) ↦ ground (arith, e)
  ]

masks-EpollLaws : EpollLaws masks (λ k fd. k fd)
masks-EpollLaws = record {
  add_mask = λ k fd m. (controlled_sets k fd m).0;
  mod_mask = λ k fd m. (controlled_sets k fd m).1;
  del_mask = λ k fd m. (controlled_sets k fd m).2;
  add_new = λ k fd m. (controlled_asks k fd m).0;
  mod_known = λ k fd m. (controlled_asks k fd m).1;
  del_known = λ k fd m. (controlled_asks k fd m).2;
  other_mask = λ k op fd x m h. controlled_others k fd m op x h;
  failed_mask = λ k op fd m e h. controlled_failed k fd m op e h;
}

abbrev epoll_ctrl : EventCtrl ℕ (Epoll masks)
epoll_ctrl = record {
  event_pool = [];
  multi = record { kernel = λ fd. none; epoll_fd = 5; wake_event_fd = 3; wait_events = 1024 };
}

-- The event waits to read and for errors.
event-HasMask_example :
    HasMask
      (λ k fd. k fd)
      masks-EpollLaws
      false
      (some 0xB)
      9
      epoll_ctrl
      (register (epolls masks) 70 calm.conn.event epoll_ctrl)
    × ((b : Bool)
        → HasMask
            (λ k fd. k fd)
            masks-EpollLaws
            true
            (some (asked b false true))
            9
            epoll_ctrl
            (enable_reading (epolls masks) b calm.conn.event epoll_ctrl))
    × ((b : Bool)
        → HasMask
            (λ k fd. k fd)
            masks-EpollLaws
            true
            (some (asked true b true))
            9
            epoll_ctrl
            (enable_writing (epolls masks) b calm.conn.event epoll_ctrl))
    × ((b : Bool)
        → HasMask
            (λ k fd. k fd)
            masks-EpollLaws
            true
            (some (asked true false b))
            9
            epoll_ctrl
            (enable_error_event (epolls masks) b calm.conn.event epoll_ctrl))
    × HasMask
        (λ k fd. k fd)
        masks-EpollLaws
        true
        (some 0)
        9
        epoll_ctrl
        (disable_all (epolls masks) calm.conn.event epoll_ctrl)
    × HasMask
        (λ k fd. k fd)
        masks-EpollLaws
        true
        none
        9
        epoll_ctrl
        (unregister (epolls masks) calm.conn.event epoll_ctrl)
event-HasMask_example =
    event-HasMask (λ k fd. k fd) masks-EpollLaws calm.conn.event 70 epoll_ctrl 9 (ground arith)
      (λ e. ground (arith, e))

-- A connection as `New` makes it, with 5 s allowed for being idle, at the time 6.2 s.
abbrev clock : Socket
clock = record { incoming = []; room = 0; accepted = []; time = 6200000000 }

abbrev made : Connect ring.Buf
made = record calm.conn {
  event = record calm.conn.event { events = 0; old_events = 0 };
  state = disconnected;
  idle_time = pos 5000000000;
  active_time = 6;
}

abbrev born : EchoCell
born = record calm { conn = made; ctrl = empty_ctrl }

connected_handle-Served_example :
    let c' = (connected_handle born).1 in
    (c'.conn.state ≡ connected)
    × Served c'.conn.event (held c'.conn.out_buffer)
    × (c'.conn.event.events ≡ 0x81)
    × (held c'.conn.out_buffer ≡ [])
    × (held c'.conn.in_buffer ++ c'.conn.temporary_buf ≡ [])
unfolding new_connect set_no_delay new_event register add_event
connected_handle-Served_example =
    connected_handle-Served held ring-RingLaws clock [] 7 "10.0.0.1:4000" (pos 5000000000) made born
      refl refl refl

-- Last active at 6.2 s, the connection is closed at 11.1 s, 0.1 s before its time.
close_timeout-bounds_example :
    ((close_timeout_conn 11100000000 born ≡ none)
      × (6200000000 + 5000000000 < 11100000000 + second))
    ⊎ ((d : ℕ) × (close_timeout_conn 11100000000 born ≡ some d)
        × (0 < d)
        × (11100000000 + d ≤ 6200000000 + 5000000000)
        × (close_timeout_conn (11100000000 + d) born ≡ none))
close_timeout-bounds_example = close_timeout-bounds 11100000000 6200000000 5000000000 born refl refl
