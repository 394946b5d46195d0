-- ===== src/Tests/Opening.antt =====
-- The theorems about the multiplexers' descriptors and about `New` and `Start` of the server, at
-- concrete inputs.
use zput_net_golang.EventLoop.Queue.{start}
use zput_net_golang.EventLoop.Event.{lookup}
use zput_net_golang.Outside.EpollKernel.{EpollLaws, epollin}
use zput_net_golang.Server.Opening.{started, start_server}
use zput_net_golang.Server.Opening.Starting.{AreWaiting, start_listens}
use zput_net_golang.Tests.Looping.{
  set_mask, controlled, controlled_sets, controlled_asks, controlled_others, controlled_failed,
}
use zput_net_golang.Outside.Unix.{Errno, eagain}
use zput_net_golang.Outside.KqueueKernel.{KqueueKernel, KqueueLaws}
use zput_net_golang.Multiplex.Kqueue.{Kqueue}
use zput_net_golang.Multiplex.Kqueue.Opening.{new_kqueue, close_kqueue, new_kqueue-held}
use zput_net_golang.Prelude.{
  ℕ, suc, ◌<◌, map, ◌≡◌, ◌⊎◌, refl, arith, List, [], ◌∷◌, Bool, true, false, ◌||◌, ◌==◌, length,
  if◌then◌else◌, Option, none, some, pos,
}
use zput_net_golang.Outside.EpollKernel.{EpollKernel, DescriptorLaws}
use zput_net_golang.Protocol.Options.{
  new_options, num_loops, loops_wanted, apply_all, fill_defaults,
}
use zput_net_golang.EventLoop.Event.{new_event, register, assign, erase}
use zput_net_golang.EventLoop.Queue.{new_loop}
use zput_net_golang.Multiplex.Epoll.{Epoll, new_wake_fd, new_epoll, close_epoll}
use zput_net_golang.Multiplex.Epoll.Opening.{FailsCleanly, new_epoll-held}
use zput_net_golang.Server.Pool.{Server, new_server}
use zput_net_golang.Server.Pool.Turns.{dealt}
use zput_net_golang.Server.Opening.{Loop, Opened, new_event_ctrl, new_event_loop, make_loops, new}
use zput_net_golang.Server.Opening.Loops.{AreOpen, make_loops_cases}
use zput_net_golang.Server.Opening.Dealing.{new_deals}
use zput_net_golang.Multiplex.Epoll
use zput_net_golang.Accept.{set_fd, new_accept}
use zput_net_golang.Tests.Serving.{host, listener}

-- A kernel that hands out the descriptors 3 and 4 where they are free.
abbrev opened : ℕ → (ℕ → Bool) → Option ℕ × (ℕ → Bool)
opened fd k = if k fd then (none, k) else (some fd, λ x. if x == fd then true else k x)

abbrev descriptors : EpollKernel
descriptors = record {
  Kernel = ℕ → Bool;
  ctl = λ k op fd m. (none, k);
  read_eventfd = λ k fd. k;
  write_eventfd = λ k fd. (none, k);
  epoll_create = opened 3;
  eventfd = opened 4;
  close = λ k fd x. if x == fd then false else k x;
}

opened_fresh : (n fd : ℕ) (k : ℕ → Bool) → (opened n k).0 ≡ some fd → k fd ≡ false
opened_fresh n fd k e = ground (arith, e)

opened_held :
    (n fd x : ℕ) (k : ℕ → Bool)
    → (opened n k).0 ≡ some fd
    → (opened n k).1 x ≡ (if x == fd then true else k x)
opened_held n fd x k e = ground (arith, e)

opened_failed : (n x : ℕ) (k : ℕ → Bool) → (opened n k).0 ≡ none → (opened n k).1 x ≡ k x
opened_failed n x k e = ground (arith, e)

descriptors-DescriptorLaws : DescriptorLaws descriptors (λ k fd. k fd)
descriptors-DescriptorLaws = record {
  create_fresh = λ k fd e. opened_fresh 3 fd k e;
  create_held = λ k fd x e. opened_held 3 fd x k e;
  create_failed = λ k x e. opened_failed 3 x k e;
  eventfd_fresh = λ k fd e. opened_fresh 4 fd k e;
  eventfd_held = λ k fd x e. opened_held 4 fd x k e;
  eventfd_failed = λ k x e. opened_failed 4 x k e;
  ctl_held = λ k op fd m x. refl;
  close_held = λ k fd x. refl;
}

abbrev nothing_open : ℕ → Bool
nothing_open x = false

new_epoll-held_example :
    ((m : Epoll descriptors) × ((new_epoll descriptors nothing_open).0 ≡ some m)
      × ((new_epoll descriptors nothing_open).1 5
          ≡ (5 == m.epoll_fd || 5 == m.wake_event_fd || false))
      × (close_epoll m 5 ≡ false))
    ⊎ (FailsCleanly (λ k fd. k fd) descriptors-DescriptorLaws nothing_open
        × ((new_epoll descriptors nothing_open).0 ≡ none)
        × ((new_epoll descriptors nothing_open).1 5 ≡ false))
    ⊎ ((fd : ℕ) × ((new_epoll descriptors nothing_open).0 ≡ none)
        × ((opened 3 nothing_open).0 ≡ some fd)
        × ((opened 4 (opened 3 nothing_open).1).0 ≡ none)
        × (false ≡ false)
        × ((new_epoll descriptors nothing_open).1 fd ≡ true))
new_epoll-held_example = new_epoll-held (λ k fd. k fd) descriptors-DescriptorLaws nothing_open 5

-- Descriptors for one loop, where two are wanted.
make_loops_cases_example :
    ((ls : List (Loop descriptors ℕ ℕ)) × ((make_loops descriptors {F = ℕ} {P = ℕ} 2 []
          nothing_open).0
        ≡ some ls)
      × (length ls ≡ 2)
      × AreOpen
          (λ k fd. k fd)
          descriptors-DescriptorLaws
          (make_loops descriptors {F = ℕ} {P = ℕ} 2 [] nothing_open).1
          ls)
    ⊎ ((j : ℕ) × (ls : List (Loop descriptors ℕ ℕ)) × (j < 2)
        × ((make_loops descriptors {F = ℕ} {P = ℕ} 2 [] nothing_open).0 ≡ none)
        × ((make_loops descriptors {F = ℕ} {P = ℕ} j [] nothing_open).0 ≡ some ls)
        × ((new_event_loop descriptors {F = ℕ} {P = ℕ}
              (make_loops descriptors {F = ℕ} {P = ℕ} j [] nothing_open).1).0
            ≡ none)
        × (length ls ≡ j)
        × AreOpen
            (λ k fd. k fd)
            descriptors-DescriptorLaws
            (make_loops descriptors {F = ℕ} {P = ℕ} 2 [] nothing_open).1
            ls)
make_loops_cases_example = make_loops_cases (λ k fd. k fd) descriptors-DescriptorLaws 2 nothing_open

-- A kernel that never runs out of descriptors.
abbrev counting : EpollKernel
counting = record {
  Kernel = ℕ;
  ctl = λ k op fd m. (none, k);
  read_eventfd = λ k fd. k;
  write_eventfd = λ k fd. (none, k);
  epoll_create = λ k. (some k, suc k);
  eventfd = λ k. (some k, suc k);
  close = λ k fd. k;
}

abbrev loop_at : ℕ → List (ℕ × ℕ) → Loop counting ℕ ℕ
loop_at fd pool = record {
  queue = new_loop;
  ctrl = record {
    event_pool = pool;
    multi = record {
      kernel = suc (suc fd);
      epoll_fd = fd;
      wake_event_fd = suc fd;
      wait_events = 1024;
    };
  };
}

abbrev two_loops : Opened counting host ℕ ℕ ℕ ℕ
two_loops = record {
  server = new_server (loop_at 10 ((6, 60) ∷ [])) (loop_at 12 [] ∷ loop_at 14 [] ∷ []);
  tcp_accept = listener;
  options = new_options 1 (num_loops (pos 2) ∷ []);
}

new_deals_example :
    (length two_loops.server.sub_loops ≡ 2)
    × ((ls : List (Loop counting ℕ ℕ)) × (s' : Server (Loop counting ℕ ℕ) ℕ) × (dealt 3
            two_loops.server
          ≡ some (ls, s'))
        × (map some ls ≡ some (loop_at 12 []) ∷ some (loop_at 14 []) ∷ some (loop_at 12 []) ∷ []))
unfolding new new_event_loop new_event_ctrl make_loops new_epoll new_wake_fd new_accept set_fd
    register Epoll.add_event new_event new_options apply_all fill_defaults num_loops loops_wanted
    assign erase
new_deals_example =
    new_deals {K = counting} {Ls = host} 8 1 60 (num_loops (pos 2) ∷ []) 10 16 0 1 two_loops 3
      (ground arith) refl

-- A kernel that hands out the descriptor 3 where it is free, and cannot add the event of the wake-ups.
abbrev kqueue_only : KqueueKernel
kqueue_only = record {
  Kernel = ℕ → Bool;
  kqueue = opened 3;
  add_user = λ k fd. (some eagain, k);
  trigger = λ k fd. (none, k);
  close = λ k fd x. if x == fd then false else k x;
}

kqueue_only-KqueueLaws : KqueueLaws kqueue_only (λ k fd. k fd)
kqueue_only-KqueueLaws = record {
  kqueue_fresh = λ k fd e. opened_fresh 3 fd k e;
  kqueue_held = λ k fd x e. opened_held 3 fd x k e;
  kqueue_failed = λ k x e. opened_failed 3 x k e;
  add_user_held = λ k fd x. refl;
  close_held = λ k fd x. refl;
}

new_kqueue-held_example :
    ((fd : ℕ) × (q : Kqueue) × ((new_kqueue kqueue_only nothing_open).0 ≡ some (fd, q))
      × (q.changes ≡ [])
      × ((new_kqueue kqueue_only nothing_open).1 5 ≡ (5 == fd || false))
      × (close_kqueue kqueue_only fd (new_kqueue kqueue_only nothing_open).1 5 ≡ false))
    ⊎ (((new_kqueue kqueue_only nothing_open).0 ≡ none)
        × ((opened 3 nothing_open).0 ≡ none)
        × ((new_kqueue kqueue_only nothing_open).1 5 ≡ false))
    ⊎ ((fd : ℕ) × (e : Errno) × ((new_kqueue kqueue_only nothing_open).0 ≡ none)
        × (some eagain ≡ some e)
        × (false ≡ false)
        × ((new_kqueue kqueue_only nothing_open).1 fd ≡ true))
new_kqueue-held_example = new_kqueue-held (λ k fd. k fd) kqueue_only-KqueueLaws nothing_open 5

-- A kernel that never runs out of descriptors and keeps the masks.
abbrev keeping : EpollKernel
keeping = record {
  Kernel = ℕ × (ℕ → Option ℕ);
  ctl = λ k op fd m. let (e, t) = controlled op fd m k.1 in (e, (k.0, t));
  read_eventfd = λ k fd. k;
  write_eventfd = λ k fd. (none, k);
  epoll_create = λ k. (some k.0, (suc k.0, k.1));
  eventfd = λ k. (some k.0, (suc k.0, k.1));
  close = λ k fd. k;
}

keeping-EpollLaws : EpollLaws keeping (λ k fd. k.1 fd)
keeping-EpollLaws = record {
  add_mask = λ k fd m. (controlled_sets k.1 fd m).0;
  mod_mask = λ k fd m. (controlled_sets k.1 fd m).1;
  del_mask = λ k fd m. (controlled_sets k.1 fd m).2;
  add_new = λ k fd m. (controlled_asks k.1 fd m).0;
  mod_known = λ k fd m. (controlled_asks k.1 fd m).1;
  del_known = λ k fd m. (controlled_asks k.1 fd m).2;
  other_mask = λ k op fd x m h. controlled_others k.1 fd m op x h;
  failed_mask = λ k op fd m e h. controlled_failed k.1 fd m op e h;
}

abbrev no_masks : ℕ → Option ℕ
no_masks fd = none

-- What `event_loop.New` makes of the kernel in which `fd` is the next descriptor.
abbrev kept_loop : ℕ → (ℕ → Option ℕ) → Loop keeping ℕ ℕ
kept_loop fd before = record {
  queue = new_loop;
  ctrl = record {
    event_pool = [];
    multi = record {
      kernel = (suc (suc fd), set_mask (suc fd) (some epollin) before);
      epoll_fd = fd;
      wake_event_fd = suc fd;
      wait_events = 1024;
    };
  };
}

abbrev main_masks : ℕ → Option ℕ
main_masks = set_mask 6 (some 0) (set_mask 11 (some epollin) no_masks)

abbrev main_loop : Loop keeping ℕ ℕ
main_loop = record (kept_loop 10 no_masks) {
  ctrl = record {
    event_pool = (6, 60) ∷ [];
    multi = record (kept_loop 10 no_masks).ctrl.multi { kernel = (12, main_masks) };
  };
}

abbrev one_loop : Opened keeping host ℕ ℕ ℕ ℕ
one_loop = record {
  server = new_server main_loop (kept_loop 12 main_masks ∷ []);
  tcp_accept = listener;
  options = new_options 1 (num_loops (pos 1) ∷ []);
}

abbrev listening : Opened keeping host ℕ ℕ ℕ ℕ
listening = record one_loop {
  server =
      new_server
        (started (record main_loop {
          ctrl = record main_loop.ctrl {
            multi = record main_loop.ctrl.multi {
              kernel = (14, set_mask 6 (some 3) (kept_loop 12 main_masks).ctrl.multi.kernel.1);
            };
          };
        }))
        (started (kept_loop 12 main_masks) ∷ []);
  tcp_accept = record listener { event = record listener.event { events = 1 } };
}

start_listens_example :
    let main = listening.server.main_loop in
    (lookup 6 main.ctrl.event_pool ≡ some 60)
    × (main.ctrl.multi.kernel.1 6 ≡ some 3)
    × AreWaiting (main ∷ listening.server.sub_loops)
unfolding new new_event_loop new_event_ctrl make_loops new_epoll new_wake_fd new_accept set_fd
    register Epoll.add_event new_event new_options apply_all fill_defaults num_loops loops_wanted
    assign erase start_server start Epoll.modify_event
start_listens_example =
    start_listens (λ k fd. k.1 fd) keeping-EpollLaws {Ls = host} 8 1 60 (num_loops (pos 1) ∷ [])
      (10, no_masks) (kept_loop 12 main_masks).ctrl.multi.kernel
      (kept_loop 12 main_masks).ctrl.multi.kernel 0 1 one_loop listening refl refl
