-- ===== src/Tests/Serving.antt =====
-- The theorems about the server, the listener and the options, at concrete inputs.
use Prim.Native.String.{String}
use zput_net_golang.Prelude.{
  ℕ, suc, ◌≡◌, ◌⊎◌, refl, [], ◌∷◌, true, false, ◌==◌, get_elem?, if◌then◌else◌, none, some,
}
use zput_net_golang.Outside.Listening.{Listening, file, accepted}
use zput_net_golang.Protocol.Options.{NetWorkAndAddressAndOption}
use zput_net_golang.EventLoop.Event.{EventCtrl, new_event, register, lookup}
use zput_net_golang.EventLoop.Queue.{EventLoop, new_loop, waiting, ended, Steps}
use zput_net_golang.Multiplex.Kqueue.{Kqueue, Filter, filter_read, filter_write, kqueues, add_event}
use zput_net_golang.Multiplex.Kqueue.Sync.{watched}
use zput_net_golang.Server.Handling.{Job, closes, Connections, World, new_connected, stop_server}
use zput_net_golang.Server.Handling.Draining.{stop_server_drains}
use zput_net_golang.Server.Handling.Stopping.{stop_server_queues}
use zput_net_golang.Server.Handling.Entering.{IsEntered, new_connected_cases}
use zput_net_golang.Accept.{Accept, accept_handle, set_fd, new_accept, listen, close_accept}
use zput_net_golang.Accept.Listened.{listen_watched}

-- Connections as their descriptor and loop, named by their address; 9 is the one that is closed, and
-- from 20 on `connect.New` fails.
abbrev simple : Connections
simple = record {
  C = (ℕ × ℕ) × String;
  K = ℕ;
  make = λ k l fd sa. (if fd == 20 then none else some ((fd, l), sa), suc k);
  peer_addr = λ c. c.1;
  own_loop = λ c. c.0.1;
  is_closed = λ k c. c.0.0 == 9;
  connected_handle = λ k c. (false, suc k);
  connect_callback = λ k c. k;
  connect_close_callback = λ k c. k;
}

abbrev first : simple.C
first = ((8, 4), "a")

abbrev second : simple.C
second = ((9, 5), "b")

abbrev serving : World simple
serving = record {
  server = record {
    main_loop = 3;
    sub_loops = 4 ∷ 5 ∷ [];
    next_loop_index = 1;
    connect_pool = ("a", first) ∷ ("b", second) ∷ [];
  };
  loops = λ n. new_loop;
  kernel = 0;
}

-- Of the two connections only the open one is closed, on its loop, and the loop is stopped.
stop_server_queues_example :
    (((stop_server simple (first ∷ second ∷ []) serving).loops 4).functions ≡ closes first ∷ [])
    × (((stop_server simple (first ∷ second ∷ []) serving).loops 4).running ≡ false)
stop_server_queues_example = stop_server_queues simple (first ∷ second ∷ []) serving 4

abbrev running : World simple
running = record serving { loops = λ n. record { functions = []; running = true; place = waiting } }

stop_server_drains_example :
    (l : EventLoop (Job simple.C)) × Steps
      ((stop_server simple (first ∷ second ∷ []) running).loops 4)
      []
      (closes first ∷ [])
      l
    × (l.place ≡ ended)
    × (l.functions ≡ [])
stop_server_drains_example = stop_server_drains simple (first ∷ second ∷ []) running 4 refl refl

new_connected_cases_example :
    ((get_elem? serving.server.sub_loops 1 ≡ none) × (new_connected simple 7 "c" serving ≡ none))
    ⊎ ((l : ℕ) × (w' : World simple) × (get_elem? serving.server.sub_loops 1 ≡ some l)
        × (new_connected simple 7 "c" serving ≡ some w')
        × (w'.server.next_loop_index ≡ 0)
        × (((simple.make 0 l 7 "c").0 ≡ none)
              × (w'.server.connect_pool ≡ serving.server.connect_pool)
              × (w'.loops ≡ serving.loops)
            ⊎ ((c : simple.C) × ((simple.make 0 l 7 "c").0 ≡ some c)
                × IsEntered simple c l serving w')))
new_connected_cases_example = new_connected_cases simple 7 "c" serving

-- A host where a listener is a descriptor and everything succeeds.
abbrev pub host : Listening
host = record {
  Kernel = ℕ;
  Listener = ℕ;
  listen = λ k n a. (some 6, suc k);
  listen_reuse = λ k n a. (some 6, suc k);
  listener_file = λ k l. (file l, k);
  close_listener = λ k l. k;
  accept = λ k fd. (accepted 7 "a", k);
}

abbrev options : NetWorkAndAddressAndOption
options = record { network = "tcp"; address = ":1"; reuse_port = false }

abbrev bare : EventCtrl ℕ Kqueue
bare = record { event_pool = []; multi = record { changes = []; wait_events = 1024 } }

abbrev pub listener : Accept host
listener = record {
  listener = 6;
  fd = 6;
  event = record (new_event 6) { read_handle = some accept_handle };
}

listen_watched_example :
    let ctrl0 = (register kqueues 60 (new_event {H = ℕ} 6) bare).2 in
    let (err, ev, ctrl1) = listen host kqueues listener ctrl0 in
    let ((err2, ev2, ctrl2), k2) =
      close_accept host kqueues (record listener { event = ev }) 1 ctrl1 in
    (lookup 6 ctrl1.event_pool ≡ some 60)
    × (watched 6 filter_read false ctrl1.multi.changes ≡ true)
    × (watched 6 filter_write false ctrl1.multi.changes ≡ false)
    × (lookup 6 ctrl2.event_pool ≡ none)
    × ((f : Filter) → watched 6 f false ctrl2.multi.changes ≡ false)
unfolding new_accept set_fd register add_event new_event
listen_watched_example =
    listen_watched host 60 options 0 1 listener bare
      (register kqueues 60 (new_event {H = ℕ} 6) bare).2 refl (λ f. refl)
