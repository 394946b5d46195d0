-- ===== src/Multiplex/Kqueue/Opening.antt =====
-- net/multiplex/kqueue.go: `New`, `Close` and `Wake`, and the descriptor that they open and close. The
-- descriptor stands beside the rest of the multiplexer.
use zput_net_golang.Prelude.{
  ℕ, ◌≡◌, ◌⊎◌, inl, inr, refl, arith, [], Bool, true, false, ◌==◌, ◌||◌, Option, none, some,
  Option-cases,
}
use zput_net_golang.Outside.Unix.{Errno}
use zput_net_golang.Outside.KqueueKernel.{KqueueKernel, KqueueLaws}
use zput_net_golang.Multiplex.Kqueue.{Kqueue}

module _ (K : KqueueKernel) where
  unfoldable pub new_kqueue : K.Kernel → Option (ℕ × Kqueue) × K.Kernel
  new_kqueue k =
      let (r, k1) = K.kqueue k in
      elim r [
        | none ↦ (none, k1)
        | some fd ↦
            let (err, k2) = K.add_user k1 fd in
            elim err [
              | none ↦ (some (fd, record { changes = []; wait_events = 1024 }), k2)
              | some e ↦ (none, k2)
            ]
      ]

  unfoldable pub close_kqueue : ℕ → K.Kernel → K.Kernel
  close_kqueue fd k = K.close k fd

  unfoldable pub wake_kqueue : ℕ → K.Kernel → Option Errno × K.Kernel
  wake_kqueue fd k = K.trigger k fd

module _ {K : KqueueKernel} (held : K.Kernel → ℕ → Bool) (laws : KqueueLaws K held) where
  -- `New`, with the descriptor `x`. Where it succeeds, no change is pending, its descriptor is open
  -- beside those that were, and `Close` closes it and no other. Where kqueue(2) fails, those are open
  -- that were. Where the event of the wake-ups cannot be added, `New` fails, but a descriptor is open
  -- that was not.
  pub new_kqueue-held :
      (k : K.Kernel) (x : ℕ)
      → ((fd : ℕ) × (q : Kqueue) × ((new_kqueue K k).0 ≡ some (fd, q))
          × (q.changes ≡ [])
          × (held (new_kqueue K k).1 x ≡ (x == fd || held k x))
          × (held (close_kqueue K fd (new_kqueue K k).1) x ≡ held k x))
        ⊎ (((new_kqueue K k).0 ≡ none)
            × ((K.kqueue k).0 ≡ none)
            × (held (new_kqueue K k).1 x ≡ held k x))
        ⊎ ((fd : ℕ) × (e : Errno) × ((new_kqueue K k).0 ≡ none)
            × ((K.add_user (K.kqueue k).1 fd).0 ≡ some e)
            × (held k fd ≡ false)
            × (held (new_kqueue K k).1 fd ≡ true))
  unfolding new_kqueue close_kqueue
  new_kqueue-held k x = elim (Option-cases (K.kqueue k).0) [
    | inl e ↦ inr (inl (ground (arith, e), e, ground (arith, e, laws.kqueue_failed k x e)))
    | inr (fd, e) ↦ elim (Option-cases (K.add_user (K.kqueue k).1 fd).0) [
      | inl f ↦ inl (
        fd,
        record { changes = []; wait_events = 1024 },
        ground (arith, e, f),
        refl,
        ground (arith, e, f, opened fd x e),
        ground (
          arith,
          e,
          f,
          opened fd x e,
          laws.kqueue_fresh k fd e,
          laws.close_held (K.add_user (K.kqueue k).1 fd).1 fd x,
        ),
      )
      | inr (n, f) ↦ inr (
          inr (
            fd,
            n,
            ground (arith, e, f),
            f,
            laws.kqueue_fresh k fd e,
            ground (arith, e, f, opened fd fd e),
          ))
    ]
  ]
    where
      opened :
          (fd y : ℕ)
          → (K.kqueue k).0 ≡ some fd
          → held (K.add_user (K.kqueue k).1 fd).1 y ≡ (y == fd || held k y)
      opened fd y e =
          ground (arith, laws.add_user_held (K.kqueue k).1 fd y, laws.kqueue_held k fd y e)
