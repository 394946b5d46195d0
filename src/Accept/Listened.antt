-- ===== src/Accept/Listened.antt =====
-- net/accept/accept.go over a kqueue: from `New` to the function that `Close` queues.
use zput_net_golang.Prelude.{
  ℕ, ◌≡◌, refl, sym, ap, subst, ◌∙◌, arith, true, false, none, some, ==_refl,
}
use zput_net_golang.Outside.Listening.{Listening}
use zput_net_golang.Protocol.EventType.{event_read, event_write, event_none, has, with_event}
use zput_net_golang.Protocol.Options.{NetWorkAndAddressAndOption}
use zput_net_golang.EventLoop.Event.{
  Event, EventCtrl, Updated, new_event, lookup, assign, register, enable_reading, disable_all,
  unregister,
}
use zput_net_golang.Multiplex.Kqueue.{
  Kqueue, Filter, filter_read, filter_write, kqueues, add_event, modify_event,
}
use zput_net_golang.Multiplex.Kqueue.Sync.{
  IsWatched, watched, forget, forget-unwatched, register-IsWatched, enable_reading-IsWatched,
}
use zput_net_golang.Accept.{
  Accept, Handler, accept_handle, set_fd, new_accept, listen, close_accept,
}

module _ (Ls : Listening) {P : Type 0} where
  -- What `New` comes to when it makes a listener.
  made :
      (p : P) (option : NetWorkAndAddressAndOption) (k k' : Ls.Kernel) (a : Accept Ls)
      (ctrl ctrl' : EventCtrl P Kqueue)
      → new_accept Ls kqueues p option k ctrl ≡ (some a, k', ctrl')
      → (a.event ≡ record (new_event a.fd) { read_handle = some accept_handle })
        × (ctrl' ≡ (register kqueues p (new_event {H = Handler} a.fd) ctrl).2)
  unfolding new_accept set_fd register add_event new_event
  made p option k k' a ctrl ctrl' h = ground arith

  -- The same of a listener whose event is registered and waits for nothing yet.
  abbrev Lived : P → Ls.Kernel → Accept Ls → EventCtrl P Kqueue → ℕ → Type 0
  Lived p k a ctrl fd =
      let (err, ev, ctrl1) = listen Ls kqueues a ctrl in
      let ((err2, ev2, ctrl2), k2) = close_accept Ls kqueues (record a { event = ev }) k ctrl1 in
      (lookup fd ctrl1.event_pool ≡ some p)
      × (watched fd filter_read false ctrl1.multi.changes ≡ true)
      × (watched fd filter_write false ctrl1.multi.changes ≡ false)
      × (lookup fd ctrl2.event_pool ≡ none)
      × ((f : Filter) → watched fd f false ctrl2.multi.changes ≡ false)

  lived :
      (p : P) (k : Ls.Kernel) (a : Accept Ls) (ctrl : EventCtrl P Kqueue)
      → a.event.events ≡ event_none
      → IsWatched (λ f. false) (none, a.event, ctrl)
      → lookup a.event.event_fd ctrl.event_pool ≡ some p
      → Lived p k a ctrl a.event.event_fd
  unfolding listen close_accept enable_reading disable_all unregister modify_event
  lived p k a ctrl z w found = (
    found,
    on filter_read ∙ ap (λ x. has (with_event x event_read) event_read) z,
    on filter_write ∙ ap (λ x. has (with_event x event_read) event_write) z,
    off.0,
    off.1,
  )
    where
      u : Updated kqueues Handler P
      u = enable_reading kqueues true a.event ctrl

      on : IsWatched (λ f. false) u
      on = enable_reading-IsWatched (λ f. false) true a.event ctrl w

      off :
          (lookup a.event.event_fd (forget u.1 u.2).2.event_pool ≡ none)
          × ((f : Filter)
              → watched a.event.event_fd f false (forget u.1 u.2).2.multi.changes ≡ false)
      off = forget-unwatched (λ f. false) u.1 u.2 on

  -- A listener that `New` makes over a kqueue that does not watch its descriptor: after `Listen` the
  -- table finds its event, and with the pending changes the kernel watches the descriptor for reading
  -- and for nothing else; after the function that `Close` queues the table has it no more, and with
  -- the pending changes the kernel watches the descriptor for nothing.
  pub listen_watched :
      (p : P) (option : NetWorkAndAddressAndOption) (k k' : Ls.Kernel) (a : Accept Ls)
      (ctrl ctrl' : EventCtrl P Kqueue)
      → new_accept Ls kqueues p option k ctrl ≡ (some a, k', ctrl')
      → ((f : Filter) → watched a.fd f false ctrl.multi.changes ≡ false)
      → let (err, ev, ctrl1) = listen Ls kqueues a ctrl' in
        let ((err2, ev2, ctrl2), k2) = close_accept Ls kqueues (record a { event = ev }) k' ctrl1 in
        (lookup a.fd ctrl1.event_pool ≡ some p)
        × (watched a.fd filter_read false ctrl1.multi.changes ≡ true)
        × (watched a.fd filter_write false ctrl1.multi.changes ≡ false)
        × (lookup a.fd ctrl2.event_pool ≡ none)
        × ((f : Filter) → watched a.fd f false ctrl2.multi.changes ≡ false)
  unfolding register new_event assign lookup
  listen_watched p option k k' a ctrl ctrl' h u =
      let (e, c) = made p option k k' a ctrl ctrl' h in
      subst (Lived p k' a ctrl') (ap (λ (v : Event Handler). v.event_fd) e) (
        lived p k' a ctrl' (ap (λ (v : Event Handler). v.events) e)
          (subst (λ (v : Event Handler). IsWatched (λ f. false) (none, v, ctrl')) (sym e)
            (subst
              (λ (x : EventCtrl P Kqueue).
                IsWatched {H = Handler} (λ f. false)
                  (none, record (new_event a.fd) { read_handle = some accept_handle }, x))
              (sym c) (register-IsWatched Handler a.fd p ctrl u)))
          (ap (λ (v : Event Handler). lookup v.event_fd ctrl'.event_pool) e
            ∙ ap (λ (x : EventCtrl P Kqueue). lookup a.fd x.event_pool) c
            ∙ rw (==_refl a.fd) refl))
