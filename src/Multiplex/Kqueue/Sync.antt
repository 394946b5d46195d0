-- ===== src/Multiplex/Kqueue/Sync.antt =====
-- net/multiplex/kqueue.go against kevent(2): the pending changes bring the kernel's filters of a
-- descriptor to the set that its event waits for.
use zput_net_golang.Prelude.{
  ℕ, ◌≡◌, ◌≢◌, refl, ap, ◌∙◌, arith, List, [], ◌∷◌, ◌++◌, Bool, true, false, ◌==◌, ◌&&◌,
  if◌then◌else◌, none,
}
use zput_net_golang.Protocol.EventType.{event_read, event_write, event_none, has}
use zput_net_golang.EventLoop.Event.{
  Event, EventCtrl, Updated, new_event, lookup, erase, enable_reading, enable_writing,
  enable_error_event, disable_all, register, unregister,
}
use zput_net_golang.Multiplex.Kqueue.{
  Flag, ev_add, ev_delete, Filter, filter_read, filter_write, Kevent, Kqueue, k_events, add_event,
  remove_event, modify_event, kqueues,
}

abbrev same_filter : Filter → Filter → Bool
same_filter filter_read filter_read = true
same_filter filter_read filter_write = false
same_filter filter_write filter_read = false
same_filter filter_write filter_write = true

abbrev adds : Flag → Bool
adds ev_add = true
adds ev_delete = false

-- kevent(2): the changes are taken in order, `EV_ADD` registers a filter and `EV_DELETE` removes it.
-- Whether the filter is there after the changes, `was` being whether it was there before.
abbrev pub watched : ℕ → Filter → Bool → List Kevent → Bool
watched fd f was [] = was
watched fd f was (c ∷ cs) =
    watched fd f (if c.ident == fd && same_filter c.filter f then adds c.flag else was) cs

abbrev pub filter_event : Filter → ℕ
filter_event filter_read = event_read
filter_event filter_write = event_write

watched-append :
    (fd : ℕ) (f : Filter) (was : Bool) (cs ds : List Kevent)
    → watched fd f was (cs ++ ds) ≡ watched fd f (watched fd f was cs) ds
watched-append fd f was [] ds = refl
watched-append fd f was (c ∷ cs) ds =
    watched-append fd f (if c.ident == fd && same_filter c.filter f then adds c.flag else was) cs ds

-- The changes of `kEvents` take the descriptor from its old set to its new one.
watched-k_events :
    (old new fd : ℕ) (f : Filter)
    → watched fd f (has old (filter_event f)) (k_events old new fd) ≡ has new (filter_event f)
unfolding k_events
watched-k_events old new fd filter_read = ground arith
watched-k_events old new fd filter_write = ground arith

-- From none of its filters they add those of the set, and to none they remove them.
watched-off :
    (old fd : ℕ) (f : Filter) (was : Bool)
    → (has old (filter_event f) ≡ false → was ≡ false)
    → watched fd f was (k_events old event_none fd) ≡ false
unfolding k_events
watched-off old fd filter_read was h = ground arith
watched-off old fd filter_write was h = ground arith

-- They change no other descriptor.
pub watched_other :
    (old new fd other : ℕ) (f : Filter) (was : Bool)
    → other ≢ fd
    → watched other f was (k_events old new fd) ≡ was
unfolding k_events
watched_other old new fd other filter_read was h = ground arith
watched_other old new fd other filter_write was h = ground arith

module _ {H P : Type 0} where
  -- With the pending changes the kernel watches the descriptor for what the event waits for; `was` says
  -- what it watches now.
  abbrev pub IsWatched : (Filter → Bool) → Updated kqueues H P → Type 0
  IsWatched was (err, ev, ctrl) =
      (f : Filter)
      → watched ev.event_fd f (was f) ctrl.multi.changes ≡ has ev.events (filter_event f)

  step-IsWatched :
      (was : Filter → Bool) (ev : Event H) (ctrl : EventCtrl P Kqueue) (new : ℕ)
      → IsWatched was (none, ev, ctrl)
      → (f : Filter)
      → watched ev.event_fd f (was f) (ctrl.multi.changes ++ k_events ev.events new ev.event_fd)
        ≡ has new (filter_event f)
  step-IsWatched was ev ctrl new h f =
      watched-append ev.event_fd f (was f) ctrl.multi.changes _
      ∙ ap (λ b. watched ev.event_fd f b (k_events ev.events new ev.event_fd)) (h f)
      ∙ watched-k_events ev.events new ev.event_fd f

  -- Each method that changes what an event waits for, on the pending changes of a kqueue.
  pub enable_reading-IsWatched :
      (was : Filter → Bool) (enable : Bool) (ev : Event H) (ctrl : EventCtrl P Kqueue)
      → IsWatched was (none, ev, ctrl)
      → IsWatched was (enable_reading kqueues enable ev ctrl)
  unfolding enable_reading modify_event
  enable_reading-IsWatched was enable ev ctrl h = step-IsWatched was ev ctrl _ h

  pub enable_writing-IsWatched :
      (was : Filter → Bool) (enable : Bool) (ev : Event H) (ctrl : EventCtrl P Kqueue)
      → IsWatched was (none, ev, ctrl)
      → IsWatched was (enable_writing kqueues enable ev ctrl)
  unfolding enable_writing modify_event
  enable_writing-IsWatched was enable ev ctrl h = step-IsWatched was ev ctrl _ h

  pub enable_error_event-IsWatched :
      (was : Filter → Bool) (enable : Bool) (ev : Event H) (ctrl : EventCtrl P Kqueue)
      → IsWatched was (none, ev, ctrl)
      → IsWatched was (enable_error_event kqueues enable ev ctrl)
  unfolding enable_error_event modify_event
  enable_error_event-IsWatched was enable ev ctrl h = step-IsWatched was ev ctrl _ h

  pub disable_all-IsWatched :
      (was : Filter → Bool) (ev : Event H) (ctrl : EventCtrl P Kqueue)
      → IsWatched was (none, ev, ctrl)
      → IsWatched was (disable_all kqueues ev ctrl)
  unfolding disable_all modify_event
  disable_all-IsWatched was ev ctrl h = step-IsWatched was ev ctrl _ h

lookup-erase : {P : Type 0} (fd : ℕ) (m : List (ℕ × P)) → lookup fd (erase fd m) ≡ none
unfolding lookup erase
lookup-erase fd [] = refl
lookup-erase fd ((k, p) ∷ m) = ground (arith, lookup-erase fd m)

-- The methods of an event that change what it waits for.
pub data Call : Type 0 where
  for_reading for_writing for_errors : Bool → Call
  for_nothing : Call

module _ {H P : Type 0} where
  abbrev pub call : Call → Event H → EventCtrl P Kqueue → Updated kqueues H P
  call (for_reading b) ev ctrl = enable_reading kqueues b ev ctrl
  call (for_writing b) ev ctrl = enable_writing kqueues b ev ctrl
  call (for_errors b) ev ctrl = enable_error_event kqueues b ev ctrl
  call for_nothing ev ctrl = disable_all kqueues ev ctrl

  abbrev pub run_calls : List Call → Updated kqueues H P → Updated kqueues H P
  run_calls [] u = u
  run_calls (c ∷ cs) u = run_calls cs (call c u.1 u.2)

  call-IsWatched :
      (was : Filter → Bool) (c : Call) (u : Updated kqueues H P)
      → IsWatched was u
      → IsWatched was (call c u.1 u.2)
  call-IsWatched was (for_reading b) u h = enable_reading-IsWatched was b u.1 u.2 h
  call-IsWatched was (for_writing b) u h = enable_writing-IsWatched was b u.1 u.2 h
  call-IsWatched was (for_errors b) u h = enable_error_event-IsWatched was b u.1 u.2 h
  call-IsWatched was for_nothing u h = disable_all-IsWatched was u.1 u.2 h

  run_calls-IsWatched :
      (was : Filter → Bool) (cs : List Call) (u : Updated kqueues H P)
      → IsWatched was u
      → IsWatched was (run_calls cs u)
  run_calls-IsWatched was [] u h = h
  run_calls-IsWatched was (c ∷ cs) u h =
      run_calls-IsWatched was cs (call c u.1 u.2) (call-IsWatched was c u h)

  -- `DisableAll`, then `UnRegister`, as `closeEvent` calls them.
  abbrev pub forget : Event H → EventCtrl P Kqueue → Updated kqueues H P
  forget ev ctrl =
      let (err, ev1, ctrl1) = disable_all kqueues ev ctrl in unregister kqueues ev1 ctrl1

  -- An event that the kernel watches as it wants is, after `DisableAll` and `UnRegister`, not in the
  -- table, and with the pending changes no filter watches its descriptor.
  pub forget-unwatched :
      (was : Filter → Bool) (ev : Event H) (ctrl : EventCtrl P Kqueue)
      → IsWatched was (none, ev, ctrl)
      → (lookup ev.event_fd (forget ev ctrl).2.event_pool ≡ none)
        × ((f : Filter) → watched ev.event_fd f (was f) (forget ev ctrl).2.multi.changes ≡ false)
  unfolding disable_all unregister remove_event modify_event
  forget-unwatched was ev ctrl h = (
    lookup-erase ev.event_fd ctrl.event_pool,
    λ f.
        watched-append ev.event_fd f (was f)
          (ctrl.multi.changes ++ k_events ev.events event_none ev.event_fd) _
        ∙ watched-off ev.events ev.event_fd f _
            (λ _. step-IsWatched was ev ctrl event_none h f ∙ none_has f),
  )
    where
      none_has : (g : Filter) → has event_none (filter_event g) ≡ false
      none_has filter_read = refl
      none_has filter_write = refl

pub register-IsWatched :
    (H : Type 0) {P : Type 0} (fd : ℕ) (p : P) (ctrl : EventCtrl P Kqueue)
    → ((f : Filter) → watched fd f false ctrl.multi.changes ≡ false)
    → IsWatched {H = H} (λ f. false) (register kqueues p (new_event {H = H} fd) ctrl)
unfolding register add_event new_event
register-IsWatched H fd p ctrl h f =
    watched-append fd f false ctrl.multi.changes _
    ∙ ap (λ b. watched fd f b (k_events event_none event_none fd)) (h f)
    ∙ watched-off event_none fd f false (λ _. refl)
    ∙ none_has f
  where
    none_has : (g : Filter) → false ≡ has event_none (filter_event g)
    none_has filter_read = refl
    none_has filter_write = refl

-- An event registered on a descriptor that no filter watches, whatever methods are then called:
-- handed to the kernel, the pending changes make it watch the descriptor for exactly what the event
-- waits for.
pub registered-IsWatched :
    (H : Type 0) {P : Type 0} (fd : ℕ) (p : P) (ctrl : EventCtrl P Kqueue) (cs : List Call)
    → ((f : Filter) → watched fd f false ctrl.multi.changes ≡ false)
    → IsWatched {H = H} (λ f. false) (run_calls cs (register kqueues p (new_event {H = H} fd) ctrl))
registered-IsWatched H fd p ctrl cs h =
    run_calls-IsWatched (λ f. false) cs _ (register-IsWatched H fd p ctrl h)
