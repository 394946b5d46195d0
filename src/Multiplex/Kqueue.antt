-- ===== src/Multiplex/Kqueue.antt =====
-- net/multiplex/kqueue.go: interest in a descriptor as a list of changes that the next wait hands to
-- the kernel, and the calls that a wait makes.
pub mod Opening
pub mod Sync
use zput_net_golang.Prelude.{
  ℕ, Bool, true, false, ◌==◌, not, if◌then◌else◌, List, [], ◌∷◌, ◌++◌, Option, none, some, length,
  ◌*◌, ◌||◌, map,
}
use zput_net_golang.Protocol.EventType.{
  event_read, event_write, event_err, event_none, has, with_event,
}
use zput_net_golang.Outside.Unix.{Errno, eagain, eintr, other}
use zput_net_golang.Multiplex.{Multiplex}

-- `EV_ADD` and `EV_DELETE`
pub data Flag : Type 0 where
  ev_add ev_delete : Flag

-- `EVFILT_READ` and `EVFILT_WRITE`
pub data Filter : Type 0 where
  filter_read filter_write : Filter

pub record Kevent : Type 0 where
  pub ident : ℕ
  pub flag : Flag
  pub filter : Filter

pub record Kqueue : Type 0 where
  pub changes : List Kevent
  pub wait_events : ℕ  -- the length of `waitEvents`

-- One of the two branches of `kEvents`, for the event `e` and its filter.
abbrev filter_change : ℕ → Filter → ℕ → ℕ → ℕ → List Kevent
filter_change e f old new fd =
    if has new e
    then (if has old e then [] else record { ident = fd; flag = ev_add; filter = f } ∷ [])
    else (if has old e then record { ident = fd; flag = ev_delete; filter = f } ∷ [] else [])

unfoldable pub k_events : ℕ → ℕ → ℕ → List Kevent
k_events old new fd =
    filter_change event_read filter_read old new fd
    ++ filter_change event_write filter_write old new fd

unfoldable pub add_event : Kqueue → ℕ → ℕ → ℕ → Option Errno × Kqueue
unfolding k_events
add_event q fd events old =
    (none, record q { changes = q.changes ++ k_events event_none events fd })

unfoldable pub remove_event : Kqueue → ℕ → ℕ → Option Errno × Kqueue
unfolding k_events
remove_event q fd old = (none, record q { changes = q.changes ++ k_events old event_none fd })

unfoldable pub modify_event : Kqueue → ℕ → ℕ → ℕ → Option Errno × Kqueue
unfolding k_events
modify_event q fd events old = (none, record q { changes = q.changes ++ k_events old events fd })

abbrev pub kqueues : Multiplex
kqueues = record {
  Multi = Kqueue;
  add_event = add_event;
  remove_event = remove_event;
  modify_event = modify_event;
}

-- What the kernel reports: `failed` and `eof` for `EV_ERROR` and `EV_EOF`, and `filter` is `none` for
-- the filter of `Wake`, whose ident is 0.
pub record Ready : Type 0 where
  pub ready_ident : ℕ
  pub failed : Bool
  pub eof : Bool
  pub ready_filter : Option Filter

abbrev pub is_write : Option Filter → Bool
is_write (some filter_write) = true
is_write (some filter_read) = false
is_write none = false

abbrev pub is_read : Option Filter → Bool
is_read (some filter_read) = true
is_read (some filter_write) = false
is_read none = false

-- `rEvents` of `WaitEvent`.
unfoldable pub ready_events : Ready → ℕ
ready_events r =
    let e0 = if r.failed || r.eof then with_event event_none event_err else event_none in
    let e1 = if is_write r.ready_filter then with_event e0 event_write else e0 in
    if is_read r.ready_filter then with_event e1 event_read else e1

-- The calls of `embedHandler` in the loop, and whether `wake` was set. `none` stands for -1.
unfoldable pub ready_calls : List Ready → List (Option ℕ × ℕ) × Bool
unfolding ready_events
ready_calls [] = ([], false)
ready_calls (r ∷ rs) =
    let (calls, wake) = ready_calls rs in
    if r.ready_ident == 0
    then (calls, true)
    else ((some r.ready_ident, ready_events r) ∷ calls, wake)

-- `n, err := unix.Kevent(...)`: the events reported, or the error with no event.
pub data Polled (A : Type 0) : Type 0 where
  polled : List A → Polled A
  poll_failed : Errno → Polled A

-- The room for reports doubles when it was used up.
abbrev pub grown : ℕ → ℕ → ℕ
grown n room = if n == room then n * 2 else room

-- `WaitEvent` behind the call of `unix.Kevent`.
unfoldable pub wait_event : Kqueue → Polled Ready → List (Option ℕ × ℕ) × Kqueue
unfolding ready_calls
wait_event q (polled rs) =
    let (calls, wake) = ready_calls rs in
    (
      if wake then calls ++ ((none, event_none) ∷ []) else calls,
      record { changes = []; wait_events = grown (length rs) q.wait_events },
    )
wait_event q (poll_failed eintr) = ([], record q { changes = [] })
wait_event q (poll_failed eagain) = ([], q)
wait_event q (poll_failed (other n)) = ([], q)
