-- ===== src/Outside/EpollKernel.antt =====
-- epoll_ctl(2) and the eventfd of net/multiplex/epoll.go, as a parameter, and the documented constants.
use zput_net_golang.Prelude.{
  ℕ, ◌≡◌, ◌≢◌, Option, none, some, Bool, true, false, ◌==◌, if◌then◌else◌,
}
use zput_net_golang.Outside.Unix.{Errno}

abbrev pub epollin : ℕ
epollin = 0x1

abbrev pub epollpri : ℕ
epollpri = 0x2

abbrev pub epollout : ℕ
epollout = 0x4

abbrev pub epollerr : ℕ
epollerr = 0x8

abbrev pub epollhup : ℕ
epollhup = 0x10

abbrev pub epollrdhup : ℕ
epollrdhup = 0x2000

-- `EPOLL_CTL_ADD`, `EPOLL_CTL_DEL` and `EPOLL_CTL_MOD`
pub data Op : Type 0 where
  ctl_add ctl_del ctl_mod : Op

-- `ctl` takes the operation, the descriptor and the mask.
pub record EpollKernel : Type 1 where
  pub Kernel : Type 0
  pub ctl : Kernel → Op → ℕ → ℕ → Option Errno × Kernel
  pub read_eventfd : Kernel → ℕ → Kernel
  pub write_eventfd : Kernel → ℕ → Option Errno × Kernel
  pub epoll_create : Kernel → Option ℕ × Kernel  -- `none` is an error
  pub eventfd : Kernel → Option ℕ × Kernel
  pub close : Kernel → ℕ → Kernel

abbrev pub is_some : {A : Type 0} → Option A → Bool
is_some none = false
is_some (some a) = true

-- The mask that a descriptor is registered with: a call that succeeds sets or removes it, one that
-- fails changes nothing, and no call changes another descriptor. `EPOLL_CTL_ADD` fails on a descriptor
-- that is registered (EEXIST), the others on one that is not (ENOENT).
pub record EpollLaws (K : EpollKernel) (mask : K.Kernel → ℕ → Option ℕ) : Type 0 where
  pub add_mask :
      (k : K.Kernel) (fd m : ℕ)
      → (K.ctl k ctl_add fd m).0 ≡ none
      → mask (K.ctl k ctl_add fd m).1 fd ≡ some m
  pub mod_mask :
      (k : K.Kernel) (fd m : ℕ)
      → (K.ctl k ctl_mod fd m).0 ≡ none
      → mask (K.ctl k ctl_mod fd m).1 fd ≡ some m
  pub del_mask :
      (k : K.Kernel) (fd m : ℕ)
      → (K.ctl k ctl_del fd m).0 ≡ none
      → mask (K.ctl k ctl_del fd m).1 fd ≡ none
  pub add_new :
      (k : K.Kernel) (fd m : ℕ) → (K.ctl k ctl_add fd m).0 ≡ none → is_some (mask k fd) ≡ false
  pub mod_known :
      (k : K.Kernel) (fd m : ℕ) → (K.ctl k ctl_mod fd m).0 ≡ none → is_some (mask k fd) ≡ true
  pub del_known :
      (k : K.Kernel) (fd m : ℕ) → (K.ctl k ctl_del fd m).0 ≡ none → is_some (mask k fd) ≡ true
  pub other_mask :
      (k : K.Kernel) (op : Op) (fd other m : ℕ)
      → other ≢ fd
      → mask (K.ctl k op fd m).1 other ≡ mask k other
  pub failed_mask :
      (k : K.Kernel) (op : Op) (fd m : ℕ) (e : Errno)
      → (K.ctl k op fd m).0 ≡ some e
      → mask (K.ctl k op fd m).1 fd ≡ mask k fd

-- Which descriptors are open: a call that makes one opens one that was not, and closing closes it.
pub record DescriptorLaws (K : EpollKernel) (held : K.Kernel → ℕ → Bool) : Type 0 where
  pub create_fresh : (k : K.Kernel) (fd : ℕ) → (K.epoll_create k).0 ≡ some fd → held k fd ≡ false
  pub create_held :
      (k : K.Kernel) (fd x : ℕ)
      → (K.epoll_create k).0 ≡ some fd
      → held (K.epoll_create k).1 x ≡ (if x == fd then true else held k x)
  pub create_failed :
      (k : K.Kernel) (x : ℕ) → (K.epoll_create k).0 ≡ none → held (K.epoll_create k).1 x ≡ held k x
  pub eventfd_fresh : (k : K.Kernel) (fd : ℕ) → (K.eventfd k).0 ≡ some fd → held k fd ≡ false
  pub eventfd_held :
      (k : K.Kernel) (fd x : ℕ)
      → (K.eventfd k).0 ≡ some fd
      → held (K.eventfd k).1 x ≡ (if x == fd then true else held k x)
  pub eventfd_failed :
      (k : K.Kernel) (x : ℕ) → (K.eventfd k).0 ≡ none → held (K.eventfd k).1 x ≡ held k x
  pub ctl_held : (k : K.Kernel) (op : Op) (fd m x : ℕ) → held (K.ctl k op fd m).1 x ≡ held k x
  pub close_held :
      (k : K.Kernel) (fd x : ℕ) → held (K.close k fd) x ≡ (if x == fd then false else held k x)
