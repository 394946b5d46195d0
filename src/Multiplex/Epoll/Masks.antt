-- ===== src/Multiplex/Epoll/Masks.antt =====
-- net/multiplex/epoll.go: what an event waits for survives the translation into a mask and back.
use zput_net_golang.Prelude.{
  ℕ, ◌<◌, ◌≡◌, refl, Bool, true, false, not, ◌||◌, ◌==◌, bit_and, all_below, all_below_sound,
  ==_iff,
}
use zput_net_golang.Protocol.EventType.Laws.{IsEvents}
use zput_net_golang.Multiplex.Epoll.{get_epoll_events_from_io_event, ready_events}

-- The bits that are translated: reading, writing and errors.
abbrev pub translated : ℕ
translated = 0x83

abbrev comes_back : ℕ → Bool
unfolding get_epoll_events_from_io_event ready_events
comes_back events =
    ready_events (get_epoll_events_from_io_event events) == bit_and events translated

-- A report of everything that a set of events asks for is translated back to its bits for reading,
-- writing and errors.
pub ready_events-get_epoll_events :
    (events : ℕ)
    → IsEvents events
    → ready_events (get_epoll_events_from_io_event events) ≡ bit_and events translated
unfolding get_epoll_events_from_io_event ready_events
ready_events-get_epoll_events events h =
    (==_iff _ _).0 (all_below_sound 512 comes_back events refl h)

abbrev within : ℕ → ℕ → Bool
unfolding get_epoll_events_from_io_event ready_events
within events mask =
    not (bit_and mask (get_epoll_events_from_io_event events) == mask)
    || (bit_and (ready_events mask) events == ready_events mask)

or-true : (a b : Bool) → (not a || b) ≡ true → a ≡ true → b ≡ true
or-true true b h e = h
or-true false b h e = absurd (cc (e))

-- Whatever part of what was asked for the kernel reports, no event is delivered that the set does not
-- hold.
pub ready_events-wanted :
    (events mask : ℕ)
    → IsEvents events
    → mask < 16
    → bit_and mask (get_epoll_events_from_io_event events) ≡ mask
    → bit_and (ready_events mask) events ≡ ready_events mask
unfolding get_epoll_events_from_io_event ready_events
ready_events-wanted events mask h b part = (==_iff _ _).0 (
    or-true _ _
      (all_below_sound 16 (within events) mask
        (all_below_sound 512 (λ e. all_below 16 (within e)) events refl h) b)
      ((==_iff _ _).1 part))
