-- ===== src/Tests/Tasks.antt =====
-- The theorems about a connection's tasks and about the reports that reach it, at concrete inputs.
use zput_net_golang.Prelude.{◌≡◌, refl, [], ◌∷◌, ◌++◌, true, false, some, pos}
use zput_net_golang.EventLoop.Event.{new_event, handle_event}
use zput_net_golang.EventLoop.Queue.{
  EventLoop, new_loop, start, take_functions, called, run_in_loop, Steps, adds, starts, takes,
  calls, none_yet, then_step,
}
use zput_net_golang.Multiplex.Kqueue
use zput_net_golang.Multiplex.Kqueue.{Ready, filter_read, is_read, is_write}
use zput_net_golang.Multiplex.Epoll
use zput_net_golang.Multiplex.Epoll.{meets}
use zput_net_golang.Connect.State.{Connect, disconnected, on_write, on_error}
use zput_net_golang.Connect.Methods.{write, after_write}
use zput_net_golang.Connect.Lifecycle.{Task, writes, new_connect, set_no_delay, run_task}
use zput_net_golang.Connect.Lifecycle.Tasks.{run_tasks, sent_in_order}
use zput_net_golang.Connect.Lifecycle.Reports.{epoll_handled, kqueue_handled}
use zput_net_golang.Tests.Fixtures.{
  EchoCell, established, ring, held, ring-RingLaws, Socket, sockets, accepted_by, sockets-UnixLaws,
}

abbrev socket : Socket
socket = record { incoming = []; room = 2; accepted = []; time = 0 }

abbrev idle : EchoCell
idle = established socket

-- The loop has started and called the first of two functions; the second came while it was busy.
abbrev busy : EventLoop Task
busy = called [] (
    run_in_loop (writes (2 ∷ 3 ∷ []))
      (take_functions (start (run_in_loop (writes (1 ∷ [])) new_loop))))

to_busy : Steps new_loop (writes (1 ∷ []) ∷ writes (2 ∷ 3 ∷ []) ∷ []) (writes (1 ∷ []) ∷ []) busy
unfolding called run_in_loop take_functions start
to_busy =
    then_step _ [] [] (writes (1 ∷ []) ∷ [])
      (then_step (writes (1 ∷ []) ∷ []) [] (writes (2 ∷ 3 ∷ []) ∷ []) []
        (then_step (writes (1 ∷ []) ∷ []) [] [] []
          (then_step (writes (1 ∷ []) ∷ []) [] [] []
            (then_step [] [] (writes (1 ∷ []) ∷ []) [] none_yet (adds (writes (1 ∷ []))))
            (starts tt))
          (takes refl))
        (adds (writes (2 ∷ 3 ∷ []))))
      (calls (writes (1 ∷ [])) [] refl)

sent_in_order_example :
    (accepted_by (run_tasks (writes (1 ∷ []) ∷ []) idle).kernel 7
        ++ held (run_tasks (writes (1 ∷ []) ∷ []) idle).conn.out_buffer)
      ++ (2 ∷ 3 ∷ [])
    ≡ 1 ∷ 2 ∷ 3 ∷ []
unfolding called run_in_loop take_functions start run_task write after_write
sent_in_order_example =
    sent_in_order held ring-RingLaws accepted_by sockets-UnixLaws idle busy
      (writes (1 ∷ []) ∷ writes (2 ∷ 3 ∷ []) ∷ []) (writes (1 ∷ []) ∷ []) to_busy refl

abbrev fresh : Connect ring.Buf
fresh = record idle.conn {
  event = record idle.conn.event { events = 0; old_events = 0 };
  state = disconnected;
}

-- Data and the end of the peer's data, with room to write.
epoll_handled_example : handle_event fresh.event (Epoll.ready_events 0x2005) ≡ some on_write
unfolding new_connect set_no_delay new_event
epoll_handled_example =
    epoll_handled ring sockets socket [] 7 "10.0.0.1:4000" (pos 0) fresh 0x2005 refl

abbrev last_data : Ready
last_data = record { ready_ident = 7; ready_filter = some filter_read; failed = false; eof = true }

kqueue_handled_example : handle_event fresh.event (Kqueue.ready_events last_data) ≡ some on_error
unfolding new_connect set_no_delay new_event
kqueue_handled_example =
    kqueue_handled ring sockets socket [] 7 "10.0.0.1:4000" (pos 0) fresh last_data refl
