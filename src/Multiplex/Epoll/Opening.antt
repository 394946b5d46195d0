-- ===== src/Multiplex/Epoll/Opening.antt =====
-- net/multiplex/epoll.go: the descriptors that `New` opens and `Close` closes, errors included.
use zput_net_golang.Prelude.{
  ℕ, ◌≡◌, ◌⊎◌, inl, inr, sym, ◌∙◌, arith, Bool, true, false, ◌==◌, ◌||◌, none, some, Option-cases,
}
use zput_net_golang.Outside.Unix.{Errno}
use zput_net_golang.Outside.EpollKernel.{EpollKernel, DescriptorLaws, ctl_add, epollin}
use zput_net_golang.Multiplex.Epoll.{Epoll, new_wake_fd, new_epoll, close_epoll}

module _ {K : EpollKernel} (held : K.Kernel → ℕ → Bool) (laws : DescriptorLaws K held) where
  abbrev added : K.Kernel → ℕ → K.Kernel
  added k wake = (K.ctl (K.eventfd (K.epoll_create k).1).1 ctl_add wake epollin).1

  abbrev opened : K.Kernel → ℕ → ℕ → Epoll K
  opened k fd wake = record {
    kernel = added k wake;
    epoll_fd = fd;
    wake_event_fd = wake;
    wait_events = 1024;
  }

  -- Both calls succeed.
  both :
      (k : K.Kernel) (x fd wake : ℕ)
      → (K.epoll_create k).0 ≡ some fd
      → (K.eventfd (K.epoll_create k).1).0 ≡ some wake
      → held (added k wake) x ≡ (x == fd || x == wake || held k x)
  both k x fd wake e f = ground (
    arith,
    laws.ctl_held (K.eventfd (K.epoll_create k).1).1 ctl_add wake epollin x,
    laws.eventfd_held (K.epoll_create k).1 wake x f,
    laws.create_held k fd x e,
  )

  fresh :
      (k : K.Kernel) (fd wake : ℕ)
      → (K.epoll_create k).0 ≡ some fd
      → (K.eventfd (K.epoll_create k).1).0 ≡ some wake
      → (held k fd ≡ false) × (held k wake ≡ false)
  fresh k fd wake e f = ground (
    arith,
    laws.create_fresh k fd e,
    laws.eventfd_fresh (K.epoll_create k).1 wake f,
    laws.create_held k fd wake e,
  )

  -- What the two calls of `unix.Close` leave.
  closed :
      (k : K.Kernel) (x fd wake : ℕ)
      → (K.epoll_create k).0 ≡ some fd
      → (K.eventfd (K.epoll_create k).1).0 ≡ some wake
      → held (K.close (K.close (added k wake) fd) wake) x ≡ held k x
  closed k x fd wake e f = ground (
    arith,
    laws.close_held (K.close (added k wake) fd) wake x,
    laws.close_held (added k wake) fd x,
    both k x fd wake e f,
    fresh k fd wake e f,
  )

  -- Only the first call succeeds.
  one :
      (k : K.Kernel) (x fd : ℕ)
      → (K.epoll_create k).0 ≡ some fd
      → (K.eventfd (K.epoll_create k).1).0 ≡ none
      → held (K.eventfd (K.epoll_create k).1).1 x ≡ (x == fd || held k x)
  one k x fd e f =
      ground (arith, laws.eventfd_failed (K.epoll_create k).1 x f, laws.create_held k fd x e)

  -- The call for the epoll descriptor fails, or that which adds the eventfd to it.
  abbrev pub FailsCleanly : K.Kernel → Type 0
  FailsCleanly k =
      ((K.epoll_create k).0 ≡ none)
      ⊎ ((fd : ℕ) × (wake : ℕ) × (err : Errno) × ((K.epoll_create k).0 ≡ some fd)
          × ((K.eventfd (K.epoll_create k).1).0 ≡ some wake)
          × ((K.ctl (K.eventfd (K.epoll_create k).1).1 ctl_add wake epollin).0 ≡ some err))

  -- `New`, with the descriptor `x`: where it succeeds, its two descriptors are open beside those that
  -- were, and `Close` closes them and no other; where the call for the epoll descriptor or that which
  -- adds the eventfd fails, it fails and exactly those descriptors are open that were; where the call
  -- for the eventfd fails, it fails and the epoll descriptor, which was not open, stays open.
  pub new_epoll-held :
      (k : K.Kernel) (x : ℕ)
      → ((m : Epoll K) × ((new_epoll K k).0 ≡ some m)
          × (held (new_epoll K k).1 x ≡ (x == m.epoll_fd || x == m.wake_event_fd || held k x))
          × (held (close_epoll m) x ≡ held k x))
        ⊎ (FailsCleanly k × ((new_epoll K k).0 ≡ none) × (held (new_epoll K k).1 x ≡ held k x))
        ⊎ ((fd : ℕ) × ((new_epoll K k).0 ≡ none)
            × ((K.epoll_create k).0 ≡ some fd)
            × ((K.eventfd (K.epoll_create k).1).0 ≡ none)
            × (held k fd ≡ false)
            × (held (new_epoll K k).1 fd ≡ true))
  unfolding new_epoll new_wake_fd close_epoll
  new_epoll-held k x = elim (Option-cases (K.epoll_create k).0) [
    | inl e ↦ inr (inl (inl e, ground (arith, e), ground (arith, e, laws.create_failed k x e)))
    | inr (fd, e) ↦ elim (Option-cases (K.eventfd (K.epoll_create k).1).0) [
      | inl f ↦ inr (
          inr (
            fd,
            ground (arith, e, f),
            e,
            f,
            laws.create_fresh k fd e,
            ground (arith, e, f, one k fd fd e f),
          ))
      | inr (wake, f) ↦
          elim (Option-cases (K.ctl (K.eventfd (K.epoll_create k).1).1 ctl_add wake epollin).0) [
            | inl g ↦ inl (
              opened k fd wake,
              ground (arith, e, f, g),
              ground (arith, e, f, g, both k x fd wake e f),
              closed k x fd wake e f,
            )
            | inr (n, g) ↦ inr (
                inl (
                  inr (fd, wake, n, e, f, g),
                  ground (arith, e, f, g),
                  ground (arith, e, f, g, closed k x fd wake e f),
                ))
          ]
    ]
  ]

  -- No call of `New` closes a descriptor that was open.
  pub new_epoll-keeps : (k : K.Kernel) (x : ℕ) → held k x ≡ true → held (new_epoll K k).1 x ≡ true
  unfolding new_epoll new_wake_fd
  new_epoll-keeps k x h = elim (Option-cases (K.epoll_create k).0) [
    | inl e ↦ ground (arith, e, laws.create_failed k x e)
    | inr (fd, e) ↦ elim (Option-cases (K.eventfd (K.epoll_create k).1).0) [
      | inl f ↦ ground (arith, e, f, one k x fd e f)
      | inr (wake, f) ↦
          elim (Option-cases (K.ctl (K.eventfd (K.epoll_create k).1).1 ctl_add wake epollin).0) [
            | inl g ↦ ground (arith, e, f, g, both k x fd wake e f)
            | inr (n, g) ↦ ground (arith, e, f, g, closed k x fd wake e f)
          ]
    ]
  ]

  pub new_epoll-opens :
      (k : K.Kernel) (m : Epoll K)
      → (new_epoll K k).0 ≡ some m
      → (held (new_epoll K k).1 m.epoll_fd ≡ true) × (held (new_epoll K k).1 m.wake_event_fd ≡ true)
  new_epoll-opens k m h = (opens m.epoll_fd (ground arith), opens m.wake_event_fd (ground arith))
    where
      opens :
          (x : ℕ)
          → (x == m.epoll_fd || x == m.wake_event_fd) ≡ true
          → held (new_epoll K k).1 x ≡ true
      opens x b = elim (new_epoll-held k x) [
        | inl (n, e, at, left) ↦ ground (arith, e, at, h)
        | inr (inl (c, e, at)) ↦ absurd (cc (sym e ∙ h))
        | inr (inr (fd, e, c, f, at, left)) ↦ absurd (cc (sym e ∙ h))
      ]
