-- ===== src/Server/Opening/Starting.antt =====
-- net/server/server.go: a server that `New` makes and `Start` starts listens, and its loops wait.
use zput_net_golang.Prelude.{
  ℕ, ◌≡◌, refl, sym, ap, subst, ◌∙◌, arith, List, [], ◌∷◌, true, All, Option, none, some,
  Option-cases, inl, inr, map,
}
use zput_net_golang.Outside.EpollKernel.{EpollKernel, EpollLaws, ctl_mod}
use zput_net_golang.Outside.Unix.{Errno}
use zput_net_golang.Outside.Listening.{Listening}
use zput_net_golang.Protocol.EventType.{event_read, with_event}
use zput_net_golang.Protocol.Options.{
  Options, NetWorkAndAddressAndOption, new_options, loops_wanted,
}
use zput_net_golang.Multiplex.Epoll.{
  Epoll, epolls, get_epoll_events_from_io_event, modify_event, epoll_ctrl,
}
use zput_net_golang.EventLoop.Event.{
  EventCtrl, new_event, register, enable_reading, update, lookup, assign,
}
use zput_net_golang.EventLoop.Queue.{waiting, start}
use zput_net_golang.Accept.{Accept, set_fd, new_accept, listen}
use zput_net_golang.Server.Opening.{
  Loop, Opened, new_event_loop, make_loops, new, start_server, started,
}

module _ {K : EpollKernel} {Ls : Listening} {P : Type 0} where
  -- The listener that `New` makes has an event that waits for nothing and that the table finds.
  record IsReady (p : P) (tcp : Accept Ls) (ctrl : EventCtrl P (Epoll K)) : Type 0 where
    own_fd : tcp.event.event_fd ≡ tcp.fd
    no_events : tcp.event.events ≡ 0
    found : lookup tcp.fd ctrl.event_pool ≡ some p

  accepting-IsReady :
      (p : P) (option : NetWorkAndAddressAndOption) (a : Ls.Kernel) (ctrl : EventCtrl P (Epoll K))
      (tcp : Accept Ls)
      → (new_accept Ls (epolls K) p option a ctrl).0 ≡ some tcp
      → IsReady p tcp (new_accept Ls (epolls K) p option a ctrl).2
  unfolding new_accept set_fd register new_event assign lookup
  accepting-IsReady p option a ctrl tcp h = record {
    own_fd = ground (arith, h);
    no_events = ground (arith, h);
    found = ground (arith, h);
  }

module _ {K : EpollKernel} {Ls : Listening} {F P C Codec : Type 0} where
  new-IsReady :
      (num_cpu : ℕ) (codec : Codec) (p : P) (os : List (Options Codec → Options Codec))
      (k k' : K.Kernel) (a a' : Ls.Kernel) (s : Opened K Ls F P C Codec)
      → new K Ls num_cpu codec p os k a ≡ (some s, k', a')
      → IsReady p s.tcp_accept s.server.main_loop.ctrl
  unfolding new
  new-IsReady num_cpu codec p os k k' a a' s h =
      elim (Option-cases (new_event_loop K {F = F} {P = P} k).0) [
        | inl e ↦ absurd (ground (arith, e, h))
        | inr (main, e) ↦ elim (Option-cases (accepting main).0) [
          | inl f ↦ absurd (ground (arith, e, f, h))
          | inr (tcp, f) ↦ elim (Option-cases (loops (accepting main).2.multi.kernel)) [
            | inl g ↦ absurd (ground (arith, e, f, g, h))
            | inr (ls, g) ↦
                ready main tcp (accepting-IsReady p (new_options codec os).net a main.ctrl tcp f)
                  (ground (arith, e, f, g, h)) (ground (arith, e, f, g, h))
          ]
        ]
      ]
    where
      accepting : Loop K F P → Option (Accept Ls) × Ls.Kernel × EventCtrl P (Epoll K)
      accepting main = new_accept Ls (epolls K) p (new_options codec os).net a main.ctrl

      loops : K.Kernel → Option (List (Loop K F P))
      loops k0 = (make_loops K (loops_wanted num_cpu (new_options codec os)) [] k0).0

      ready :
          (main : Loop K F P) (tcp : Accept Ls)
          → IsReady p tcp (accepting main).2
          → tcp ≡ s.tcp_accept
          → (accepting main).2 ≡ s.server.main_loop.ctrl
          → IsReady p s.tcp_accept s.server.main_loop.ctrl
      ready main tcp r e f =
          subst (λ (t : Accept Ls). IsReady p t s.server.main_loop.ctrl) e
            (subst (λ (c : EventCtrl P (Epoll K)). IsReady p tcp c) f r)

-- Loops whose goroutines are in their wait.
abbrev pub AreWaiting : {K : EpollKernel} {F P : Type 0} → List (Loop K F P) → Type 0
AreWaiting ls = All (λ l. (l.queue.running ≡ true) × (l.queue.place ≡ waiting)) ls

started-AreWaiting :
    {K : EpollKernel} {F P : Type 0} (ls : List (Loop K F P)) → AreWaiting (map started ls)
unfolding start
started-AreWaiting [] = tt
started-AreWaiting (l ∷ ls) = ((refl, refl), started-AreWaiting ls)

module _ {K : EpollKernel} (mask : K.Kernel → ℕ → Option ℕ) (laws : EpollLaws K mask)
    {Ls : Listening} {F P C Codec : Type 0} where
  -- A server that `New` makes and that `Start` starts, in whatever kernel, without a panic: the table
  -- of the main loop finds the listener's event, epoll has the listener's descriptor with the mask for
  -- reading, and the main loop and all others are in their wait.
  pub start_listens :
      (num_cpu : ℕ) (codec : Codec) (p : P) (os : List (Options Codec → Options Codec))
      (k k' k1 : K.Kernel) (a a' : Ls.Kernel) (s s' : Opened K Ls F P C Codec)
      → new K Ls num_cpu codec p os k a ≡ (some s, k', a')
      → start_server k1 s ≡ some s'
      → let main = s'.server.main_loop in
        (lookup s'.tcp_accept.fd main.ctrl.event_pool ≡ some p)
        × (mask main.ctrl.multi.kernel s'.tcp_accept.fd
            ≡ some (get_epoll_events_from_io_event event_read))
        × AreWaiting (main ∷ s'.server.sub_loops)
  unfolding start_server listen enable_reading update modify_event epoll_ctrl start
  start_listens num_cpu codec p os k k' k1 a a' s s' h e = elim (Option-cases answer.0) [
    | inl f ↦ subst Listens (begun f) (
      ready.found,
      ap (mask answer.1) (sym ready.own_fd)
          ∙ laws.mod_mask k1 fd wanted f
          ∙ ap (λ n. some (get_epoll_events_from_io_event (with_event n event_read)))
              ready.no_events,
      ((refl, refl), started-AreWaiting s.server.sub_loops),
    )
    | inr (n, f) ↦ absurd (ground (arith, e, f))
  ]
    where
      fd : ℕ
      fd = s.tcp_accept.event.event_fd

      wanted : ℕ
      wanted = get_epoll_events_from_io_event (with_event s.tcp_accept.event.events event_read)

      answer : Option Errno × K.Kernel
      answer = K.ctl k1 ctl_mod fd wanted

      ready : IsReady p s.tcp_accept s.server.main_loop.ctrl
      ready = new-IsReady num_cpu codec p os k k' a a' s h

      Listens : Opened K Ls F P C Codec → Type 0
      Listens t =
          (lookup t.tcp_accept.fd t.server.main_loop.ctrl.event_pool ≡ some p)
          × (mask t.server.main_loop.ctrl.multi.kernel t.tcp_accept.fd
              ≡ some (get_epoll_events_from_io_event event_read))
          × AreWaiting (t.server.main_loop ∷ t.server.sub_loops)

      after : Opened K Ls F P C Codec
      after =
          let main = s.server.main_loop in
          let ev = record s.tcp_accept.event {
            old_events = s.tcp_accept.event.events;
            events = with_event s.tcp_accept.event.events event_read;
          } in
          record s {
            server = record s.server {
              main_loop = started (record main {
                ctrl = record main.ctrl { multi = record main.ctrl.multi { kernel = answer.1 } };
              });
              sub_loops = map started s.server.sub_loops;
            };
            tcp_accept = record s.tcp_accept { event = ev };
          }

      begun : answer.0 ≡ none → after ≡ s'
      begun f = ground (arith, e, f)
