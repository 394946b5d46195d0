-- ===== src/Outside/KqueueKernel.antt =====
-- kqueue(2) and kevent(2) as net/multiplex/kqueue.go calls them, but for its waits: a parameter.
use zput_net_golang.Prelude.{ℕ, ◌≡◌, Option, none, some, Bool, true, false, ◌==◌, if◌then◌else◌}
use zput_net_golang.Outside.Unix.{Errno}

-- `add_user` adds the event of the wake-ups to the queue, and `trigger` makes it happen.
pub record KqueueKernel : Type 1 where
  pub Kernel : Type 0
  pub kqueue : Kernel → Option ℕ × Kernel  -- `none` is an error
  pub add_user : Kernel → ℕ → Option Errno × Kernel
  pub trigger : Kernel → ℕ → Option Errno × Kernel
  pub close : Kernel → ℕ → Kernel

-- Which descriptors are open: kqueue(2) opens one that was not, and closing closes it.
pub record KqueueLaws (K : KqueueKernel) (held : K.Kernel → ℕ → Bool) : Type 0 where
  pub kqueue_fresh : (k : K.Kernel) (fd : ℕ) → (K.kqueue k).0 ≡ some fd → held k fd ≡ false
  pub kqueue_held :
      (k : K.Kernel) (fd x : ℕ)
      → (K.kqueue k).0 ≡ some fd
      → held (K.kqueue k).1 x ≡ (if x == fd then true else held k x)
  pub kqueue_failed :
      (k : K.Kernel) (x : ℕ) → (K.kqueue k).0 ≡ none → held (K.kqueue k).1 x ≡ held k x
  pub add_user_held : (k : K.Kernel) (fd x : ℕ) → held (K.add_user k fd).1 x ≡ held k x
  pub close_held :
      (k : K.Kernel) (fd x : ℕ) → held (K.close k fd) x ≡ (if x == fd then false else held k x)
