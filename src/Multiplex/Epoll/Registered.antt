-- ===== src/Multiplex/Epoll/Registered.antt =====
-- net/multiplex/epoll.go under net/event_loop/event.go: the mask that the kernel keeps for an event.
use zput_net_golang.Protocol.EventType.Laws.{IsEvents, read-Sets, write-Sets, err-Sets}
use zput_net_golang.Protocol.EventType.{
  event_none, with_event, without_event, has, event_read, event_write, event_err,
}
use zput_net_golang.Prelude.{
  arith, Bool, true, false, not, bit_and, bit_or, ltb, ◌==◌, if◌then◌else◌, ◌+◌, ap, ◌∙◌, ℕ, ◌≡◌,
  ◌≢◌, ◌⊎◌, inl, inr, refl, Option, none, some,
}
use zput_net_golang.Outside.Unix.{Errno}
use zput_net_golang.Outside.EpollKernel.{
  EpollKernel, EpollLaws, is_some, epollout, epollerr, ctl_add, ctl_del, ctl_mod,
}
use zput_net_golang.EventLoop.Event.{
  Event, EventCtrl, Updated, update, enable_reading, enable_writing, enable_error_event,
  disable_all, register, unregister,
}
use zput_net_golang.Multiplex.Epoll.{
  Epoll, read_mask, epolls, epoll_ctrl, add_event, remove_event, modify_event,
  get_epoll_events_from_io_event,
}

-- The mask of a set that asks for reading, writing or errors: EPOLLIN and EPOLLPRI, EPOLLOUT, EPOLLERR.
abbrev pub asked : Bool → Bool → Bool → ℕ
asked reads writes errors =
    (if reads then 0x1 + 0x2 else 0) + ((if writes then 0x4 else 0) + (if errors then 0x8 else 0))

abbrev pub asked_by : ℕ → ℕ
asked_by events = asked (has events event_read) (has events event_write) (has events event_err)

mask_of :
    (reads writes errors : Bool)
    → (let m0 = if errors then bit_or 0 epollerr else 0 in
        let m1 = if reads then bit_or m0 read_mask else m0 in
        if writes then bit_or m1 epollout else m1)
      ≡ asked reads writes errors
mask_of false false false = refl
mask_of false false true = refl
mask_of false true false = refl
mask_of false true true = refl
mask_of true false false = refl
mask_of true false true = refl
mask_of true true false = refl
mask_of true true true = refl

positive_test : (n : ℕ) → ltb 0 n ≡ not (n == 0)
positive_test n = ground arith

get_epoll_events-asked_by : (events : ℕ) → get_epoll_events_from_io_event events ≡ asked_by events
unfolding get_epoll_events_from_io_event
get_epoll_events-asked_by events =
    rw
      (
        positive_test (bit_and events event_read),
        positive_test (bit_and events event_write),
        positive_test (bit_and events event_err),
      )
      (mask_of (has events event_read) (has events event_write) (has events event_err))

reading_asked :
    (b : Bool) (x : ℕ)
    → IsEvents x
    → asked_by (if b then with_event x event_read else without_event x event_read)
      ≡ asked b (has x event_write) (has x event_err)
reading_asked true x i = let t = read-Sets x i in rw (t.set_self, t.set_other, t.set_third) refl
reading_asked false x i =
    let t = read-Sets x i in rw (t.clear_self, t.clear_other, t.clear_third) refl

writing_asked :
    (b : Bool) (x : ℕ)
    → IsEvents x
    → asked_by (if b then with_event x event_write else without_event x event_write)
      ≡ asked (has x event_read) b (has x event_err)
writing_asked true x i = let t = write-Sets x i in rw (t.set_self, t.set_other, t.set_third) refl
writing_asked false x i =
    let t = write-Sets x i in rw (t.clear_self, t.clear_other, t.clear_third) refl

errors_asked :
    (b : Bool) (x : ℕ)
    → IsEvents x
    → asked_by (if b then with_event x event_err else without_event x event_err)
      ≡ asked (has x event_read) (has x event_write) b
errors_asked true x i = let t = err-Sets x i in rw (t.set_self, t.set_other, t.set_third) refl
errors_asked false x i =
    let t = err-Sets x i in rw (t.clear_self, t.clear_other, t.clear_third) refl

-- The event that an `Enable…` of the bit `e` updates.
abbrev asking : {H : Type 0} → ℕ → Bool → Event H → Event H
asking e b ev = record ev {
  old_events = ev.events;
  events = if b then with_event ev.events e else without_event ev.events e;
}

by_error :
    (err : Option Errno) (after wanted before : Option ℕ) (known : Bool)
    → (err ≡ none → is_some before ≡ known)
    → (err ≡ none → after ≡ wanted)
    → ((e : Errno) → err ≡ some e → after ≡ before)
    → ((err ≡ none) × (is_some before ≡ known) × (after ≡ wanted))
      ⊎ ((err ≢ none) × (after ≡ before))
by_error none after wanted before known b h k = inl (refl, b refl, h refl)
by_error (some e) after wanted before known b h k = inr ((λ q. cc q), k e refl)

module _ {K : EpollKernel} (mask : K.Kernel → ℕ → Option ℕ) (laws : EpollLaws K mask)
    {H P : Type 0} where
  -- What became of the masks: where no error was answered the descriptor was registered or not, as
  -- `known` says, and its mask is `wanted`; where one was, its mask is what it was; the mask of `other`
  -- is what it was.
  abbrev pub HasMask : Bool → Option ℕ → ℕ → EventCtrl P (Epoll K) → Updated (epolls K) H P → Type 0
  HasMask known wanted other before (err, ev, ctrl) =
      (((err ≡ none)
          × (is_some (mask before.multi.kernel ev.event_fd) ≡ known)
          × (mask ctrl.multi.kernel ev.event_fd ≡ wanted))
        ⊎ ((err ≢ none)
            × (mask ctrl.multi.kernel ev.event_fd ≡ mask before.multi.kernel ev.event_fd)))
      × (mask ctrl.multi.kernel other ≡ mask before.multi.kernel other)

  registered :
      (ev : Event H) (p : P) (ctrl : EventCtrl P (Epoll K)) (other : ℕ)
      → other ≢ ev.event_fd
      → HasMask false (some (asked_by ev.events)) other ctrl (register (epolls K) p ev ctrl)
  unfolding register add_event epoll_ctrl
  registered ev p ctrl other h = (
    by_error _ _ _ _ _ (laws.add_new ctrl.multi.kernel ev.event_fd _)
        (λ e.
          laws.add_mask ctrl.multi.kernel ev.event_fd _ e
          ∙ ap some (get_epoll_events-asked_by ev.events))
        (laws.failed_mask ctrl.multi.kernel ctl_add ev.event_fd _),
    laws.other_mask ctrl.multi.kernel ctl_add ev.event_fd other _ h,
  )

  updated :
      (ev : Event H) (ctrl : EventCtrl P (Epoll K)) (other wanted : ℕ)
      → other ≢ ev.event_fd
      → asked_by ev.events ≡ wanted
      → HasMask true (some wanted) other ctrl (update (epolls K) ev ctrl)
  unfolding update modify_event epoll_ctrl
  updated ev ctrl other wanted h q = (
    by_error _ _ _ _ _ (laws.mod_known ctrl.multi.kernel ev.event_fd _)
        (λ e.
          laws.mod_mask ctrl.multi.kernel ev.event_fd _ e
          ∙ ap some (get_epoll_events-asked_by ev.events ∙ q))
        (laws.failed_mask ctrl.multi.kernel ctl_mod ev.event_fd _),
    laws.other_mask ctrl.multi.kernel ctl_mod ev.event_fd other _ h,
  )

  -- Over epoll, of an event whose set holds no other bits than the package's: where `Register` answers
  -- no error, the descriptor was not registered, and then has the bits EPOLLIN and EPOLLPRI, EPOLLOUT,
  -- and EPOLLERR exactly for what the set asks for; where one of the `Enable…` answers none, it was
  -- registered, and then has the bits of its kind or not, as was asked, and those of the two other
  -- kinds as the set had them; where `DisableAll` answers none, it was registered and then has no bit;
  -- and where `UnRegister` answers none, it was registered and is not any more. On an error the
  -- descriptor keeps the mask that it had. Another descriptor keeps its own.
  pub event-HasMask :
      (ev : Event H) (p : P) (ctrl : EventCtrl P (Epoll K)) (other : ℕ)
      → IsEvents ev.events
      → other ≢ ev.event_fd
      → let reads = has ev.events event_read in
        let writes = has ev.events event_write in
        let errors = has ev.events event_err in
        HasMask false (some (asked reads writes errors)) other ctrl (register (epolls K) p ev ctrl)
        × ((b : Bool)
            → HasMask true
                (some (asked b writes errors))
                other
                ctrl
                (enable_reading (epolls K) b ev ctrl))
        × ((b : Bool)
            → HasMask true
                (some (asked reads b errors))
                other
                ctrl
                (enable_writing (epolls K) b ev ctrl))
        × ((b : Bool)
            → HasMask true
                (some (asked reads writes b))
                other
                ctrl
                (enable_error_event (epolls K) b ev ctrl))
        × HasMask true (some 0) other ctrl (disable_all (epolls K) ev ctrl)
        × HasMask true none other ctrl (unregister (epolls K) ev ctrl)
  unfolding unregister remove_event epoll_ctrl enable_reading enable_writing enable_error_event
      disable_all
  event-HasMask ev p ctrl other i h = (
    registered ev p ctrl other h,
    (λ b. updated (asking event_read b ev) ctrl other _ h (reading_asked b ev.events i)),
    (λ b. updated (asking event_write b ev) ctrl other _ h (writing_asked b ev.events i)),
    (λ b. updated (asking event_err b ev) ctrl other _ h (errors_asked b ev.events i)),
    updated (record ev { old_events = ev.events; events = event_none }) ctrl other 0 h refl,
    (
      by_error _ _ _ _ _ (laws.del_known ctrl.multi.kernel ev.event_fd _)
          (laws.del_mask ctrl.multi.kernel ev.event_fd _)
          (laws.failed_mask ctrl.multi.kernel ctl_del ev.event_fd _),
      laws.other_mask ctrl.multi.kernel ctl_del ev.event_fd other _ h,
    ),
  )
