-- ===== src/Server/Opening/Loops.antt =====
-- net/server/server.go: the loops that `New` makes, and what is left open when it fails.
use zput_net_golang.Prelude.{
  ℕ, zero, suc, ◌+◌, ◌<◌, ◌≡◌, refl, arith, List, [], ◌∷◌, ◌++◌, length, length-append, All, Bool,
  true, false, inl, inr, ◌⊎◌, none, some, Option-cases,
}
use zput_net_golang.Outside.EpollKernel.{EpollKernel, DescriptorLaws}
use zput_net_golang.Multiplex.Epoll.{new_epoll}
use zput_net_golang.Multiplex.Epoll.Opening.{new_epoll-keeps, new_epoll-opens}
use zput_net_golang.EventLoop.Queue.{stop}
use zput_net_golang.Server.Opening.{
  Loop, new_event_ctrl, new_event_loop, stop_event_loop, stop_made, make_loops,
}

module _ {K : EpollKernel} (held : K.Kernel → ℕ → Bool) (laws : DescriptorLaws K held) where
  still_open :
      (F P : Type 0) (k : K.Kernel) (x : ℕ)
      → held k x ≡ true
      → held (new_event_loop K {F = F} {P = P} k).1 x ≡ true
  unfolding new_event_loop new_event_ctrl
  still_open F P k x h = ground (arith, new_epoll-keeps held laws k x h)

module _ {K : EpollKernel} {F P : Type 0} (held : K.Kernel → ℕ → Bool)
    (laws : DescriptorLaws K held) where
  -- Loops that have not been started and whose two descriptors are open.
  abbrev pub AreOpen : K.Kernel → List (Loop K F P) → Type 0
  AreOpen k ls =
      All
        (λ l.
          (l.queue.running ≡ false)
          × (held k l.ctrl.multi.epoll_fd ≡ true)
          × (held k l.ctrl.multi.wake_event_fd ≡ true))
        ls

  stop_made-AreOpen :
      (ls : List (Loop K F P)) (k0 k : K.Kernel) → AreOpen k0 ls → stop_made K ls k ≡ k
  unfolding stop_made stop_event_loop stop
  stop_made-AreOpen [] k0 k h = refl
  stop_made-AreOpen (l ∷ ls) k0 k (h, hs) = rw h.0 (stop_made-AreOpen ls k0 k hs)

  still-AreOpen :
      (ls : List (Loop K F P)) (k : K.Kernel)
      → AreOpen k ls
      → AreOpen (new_event_loop K {F = F} {P = P} k).1 ls
  still-AreOpen [] k h = tt
  still-AreOpen (l ∷ ls) k (h, hs) = (
    (
      h.0,
      still_open held laws F P k l.ctrl.multi.epoll_fd h.1,
      still_open held laws F P k l.ctrl.multi.wake_event_fd h.2,
    ),
    still-AreOpen ls k hs,
  )

  new-AreOpen :
      (k : K.Kernel) (l : Loop K F P)
      → (new_event_loop K {F = F} {P = P} k).0 ≡ some l
      → AreOpen (new_event_loop K {F = F} {P = P} k).1 (l ∷ [])
  unfolding new_event_loop new_event_ctrl
  new-AreOpen k l h = elim (Option-cases (new_epoll K k).0) [
    | inl e ↦ absurd (ground (arith, e, h))
    | inr (m, e) ↦ ground (arith, e, h, new_epoll-opens held laws k m e)
  ]

  append-AreOpen :
      (ls ms : List (Loop K F P)) (k : K.Kernel)
      → AreOpen k ls
      → AreOpen k ms
      → AreOpen k (ls ++ ms)
  append-AreOpen [] ms k h hs = hs
  append-AreOpen (l ∷ ls) ms k (h, hs) g = (h, append-AreOpen ls ms k hs g)

  -- The loops made and those that are returned, or those that were when a call failed.
  abbrev Came : ℕ → List (Loop K F P) → K.Kernel → Type 0
  Came n made k =
      ((ls : List (Loop K F P)) × ((make_loops K n made k).0 ≡ some ls)
        × (length ls ≡ length made + n)
        × AreOpen (make_loops K n made k).1 ls)
      ⊎ ((j : ℕ) × (ls : List (Loop K F P)) × (j < n)
          × ((make_loops K n made k).0 ≡ none)
          × ((make_loops K j made k).0 ≡ some ls)
          × ((new_event_loop K {F = F} {P = P} (make_loops K j made k).1).0 ≡ none)
          × (length ls ≡ length made + j)
          × AreOpen (make_loops K n made k).1 ls)

  one_more :
      (n : ℕ) (made : List (Loop K F P)) (k : K.Kernel) (l : Loop K F P)
      → (new_event_loop K {F = F} {P = P} k).0 ≡ some l
      → Came n (made ++ (l ∷ [])) (new_event_loop K {F = F} {P = P} k).1
      → Came (suc n) made k
  unfolding make_loops
  one_more n made k l e t = elim t [
    | inl (ls, r, c, h) ↦ inl (
      ls,
      rw (e, make_loops) r,
      omega (arith, c, length-append made (l ∷ [])),
      rw (e, make_loops) h,
    )
    | inr (j, ls, b, r, q, f, c, h) ↦ inr (
      suc j,
      ls,
      omega (arith, b),
      rw (e, make_loops) r,
      rw (e, make_loops) q,
      rw (e, make_loops) f,
      omega (arith, c, length-append made (l ∷ [])),
      rw (e, make_loops) h,
    )
  ]

  came : (n : ℕ) (made : List (Loop K F P)) (k : K.Kernel) → AreOpen k made → Came n made k
  unfolding make_loops
  came zero made k h = inl (made, refl, omega arith, h)
  came (suc n) made k h = elim (Option-cases (new_event_loop K {F = F} {P = P} k).0) [
    | inl e ↦ inr (
      zero,
      made,
      omega arith,
      rw (e, make_loops) refl,
      refl,
      e,
      omega arith,
      rw (e, make_loops, stop_made-AreOpen made k _ h) (still-AreOpen made k h),
    )
    | inr (l, e) ↦ one_more n made k l e (
        came n (made ++ (l ∷ [])) (new_event_loop K {F = F} {P = P} k).1
          (append-AreOpen made (l ∷ []) _ (still-AreOpen made k h) (new-AreOpen k l e)))
  ]

  -- `New` makes its `n` loops one after the other. Either it gets all of them, none is running, and
  -- their descriptors are open; or a call of `event_loop.New` fails behind `j` of them, `New` returns the
  -- error, and the descriptors of those `j` loops are open still: `Stop` does nothing to a loop that is
  -- not running.
  pub make_loops_cases :
      (n : ℕ) (k : K.Kernel)
      → ((ls : List (Loop K F P)) × ((make_loops K {F = F} {P = P} n [] k).0 ≡ some ls)
          × (length ls ≡ n)
          × AreOpen (make_loops K {F = F} {P = P} n [] k).1 ls)
        ⊎ ((j : ℕ) × (ls : List (Loop K F P)) × (j < n)
            × ((make_loops K {F = F} {P = P} n [] k).0 ≡ none)
            × ((make_loops K {F = F} {P = P} j [] k).0 ≡ some ls)
            × ((new_event_loop K {F = F} {P = P} (make_loops K {F = F} {P = P} j [] k).1).0 ≡ none)
            × (length ls ≡ j)
            × AreOpen (make_loops K {F = F} {P = P} n [] k).1 ls)
  make_loops_cases n k = elim (came n [] k tt) [
    | inl (ls, r, c, h) ↦ inl (ls, r, omega (arith, c), h)
    | inr (j, ls, b, r, q, f, c, h) ↦ inr (j, ls, b, r, q, f, omega (arith, c), h)
  ]
