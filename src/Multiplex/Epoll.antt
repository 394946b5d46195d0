-- ===== src/Multiplex/Epoll.antt =====
-- net/multiplex/epoll.go: the masks that a descriptor is registered with, and the calls that a wait
-- makes.
pub mod Masks
pub mod Registered
pub mod Opening
use zput_net_golang.Prelude.{
  ℕ, ◌*◌, ◌^◌, ◌-◌, bit_and, bit_or, ltb, Bool, true, false, ◌==◌, not, ◌&&◌, if◌then◌else◌, List,
  [], ◌∷◌, Option, none, some, length,
}
use zput_net_golang.Protocol.EventType.{
  event_read, event_write, event_err, event_close, event_none, with_event,
}
use zput_net_golang.Outside.Unix.{Errno, eagain, eintr, other}
use zput_net_golang.Outside.EpollKernel.{
  EpollKernel, Op, ctl_add, ctl_del, ctl_mod, epollin, epollpri, epollout, epollerr, epollhup,
  epollrdhup,
}
use zput_net_golang.Multiplex.{Multiplex}
use zput_net_golang.Multiplex.Kqueue.{Polled, polled, poll_failed, grown}

abbrev pub read_mask : ℕ
read_mask = bit_or epollin epollpri

-- `(eventType & e) > 0`
abbrev holds : ℕ → ℕ → Bool
holds events e = ltb 0 (bit_and events e)

unfoldable pub get_epoll_events_from_io_event : ℕ → ℕ
get_epoll_events_from_io_event events =
    let m0 = if holds events event_err then bit_or 0 epollerr else 0 in
    let m1 = if holds events event_read then bit_or m0 read_mask else m0 in
    if holds events event_write then bit_or m1 epollout else m1

-- `mask & bits != 0`
abbrev pub meets : ℕ → ℕ → Bool
meets mask bits = not (bit_and mask bits == 0)

-- `rEvents` of `WaitEvent`.
unfoldable pub ready_events : ℕ → ℕ
ready_events mask =
    let e0 =
      if meets mask epollhup && not (meets mask epollin)
      then with_event event_none event_close
      else event_none in
    let e1 = if meets mask epollerr then with_event e0 event_err else e0 in
    let e2 =
      if meets mask (bit_or epollin (bit_or epollpri epollrdhup))
      then with_event e1 event_read
      else e1 in
    if meets mask epollout then with_event e2 event_write else e2

pub record Epoll (K : EpollKernel) : Type 0 where
  pub kernel : K.Kernel
  pub epoll_fd : ℕ
  pub wake_event_fd : ℕ
  pub wait_events : ℕ  -- the length of `waitEvents`

module _ (K : EpollKernel) where
  -- `newWakeFd`, and the kernel with the descriptor or the error.
  unfoldable pub new_wake_fd : K.Kernel → ℕ → Option ℕ × K.Kernel
  new_wake_fd k epoll_fd =
      let (r, k1) = K.eventfd k in
      elim r [
        | none ↦ (none, k1)
        | some fd ↦
            let (err, k2) = K.ctl k1 ctl_add fd epollin in
            elim err [ none ↦ (some fd, k2) | some e ↦ (none, K.close (K.close k2 epoll_fd) fd) ]
      ]

  -- `New`, and `Close` with the descriptors that it leaves.
  unfoldable pub new_epoll : K.Kernel → Option (Epoll K) × K.Kernel
  unfolding new_wake_fd
  new_epoll k =
      let (r, k1) = K.epoll_create k in
      elim r [
        | none ↦ (none, k1)
        | some fd ↦
            let (w, k2) = new_wake_fd k1 fd in
            elim w [
              | none ↦ (none, k2)
              | some wake ↦ (
                some (record {
                  kernel = k2;
                  epoll_fd = fd;
                  wake_event_fd = wake;
                  wait_events = 1024;
                }),
                k2,
              )
            ]
      ]

module _ {K : EpollKernel} where
  unfoldable pub close_epoll : Epoll K → K.Kernel
  close_epoll m = K.close (K.close m.kernel m.epoll_fd) m.wake_event_fd

  unfoldable pub wake : Epoll K → Option Errno × Epoll K
  wake m = let (err, k) = K.write_eventfd m.kernel m.wake_event_fd in (err, record m { kernel = k })

  unfoldable pub epoll_ctrl : Epoll K → Op → ℕ → ℕ → Option Errno × Epoll K
  unfolding get_epoll_events_from_io_event
  epoll_ctrl m op fd events =
      let (err, k) = K.ctl m.kernel op fd (get_epoll_events_from_io_event events) in
      (err, record m { kernel = k })

  unfoldable pub add_event : Epoll K → ℕ → ℕ → ℕ → Option Errno × Epoll K
  unfolding epoll_ctrl
  add_event m fd events old = epoll_ctrl m ctl_add fd events

  unfoldable pub remove_event : Epoll K → ℕ → ℕ → Option Errno × Epoll K
  unfolding epoll_ctrl
  remove_event m fd old = epoll_ctrl m ctl_del fd event_none

  unfoldable pub modify_event : Epoll K → ℕ → ℕ → ℕ → Option Errno × Epoll K
  unfolding epoll_ctrl
  modify_event m fd events old = epoll_ctrl m ctl_mod fd events

  -- The loop over the `n` reports, each a descriptor and its mask: the calls of `embedHandler`, where
  -- `none` stands for -1. A wake reads the eventfd first.
  unfoldable pub ready_calls : Epoll K → List (ℕ × ℕ) → List (Option ℕ × ℕ) × Epoll K
  unfolding ready_events
  ready_calls m [] = ([], m)
  ready_calls m ((fd, mask) ∷ rs) = elim (fd == m.wake_event_fd) [
    | false ↦ let (calls, m1) = ready_calls m rs in ((some fd, ready_events mask) ∷ calls, m1)
    | true ↦
        let (calls, m1) =
          ready_calls (record m { kernel = K.read_eventfd m.kernel m.wake_event_fd }) rs in
        ((none, event_none) ∷ calls, m1)
  ]

  -- `WaitEvent` behind the call of `unix.EpollWait`.
  unfoldable pub wait_event : Epoll K → Polled (ℕ × ℕ) → List (Option ℕ × ℕ) × Epoll K
  unfolding ready_calls
  wait_event m (polled rs) =
      let (calls, m1) = ready_calls m rs in
      (calls, record m1 { wait_events = grown (length rs) m1.wait_events })
  wait_event m (poll_failed eintr) = ([], m)
  wait_event m (poll_failed eagain) = ([], m)
  wait_event m (poll_failed (other n)) = ([], m)

abbrev pub epolls : EpollKernel → Multiplex
epolls K = record {
  Multi = Epoll K;
  add_event = add_event;
  remove_event = remove_event;
  modify_event = modify_event;
}
