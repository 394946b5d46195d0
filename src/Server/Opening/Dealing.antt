-- ===== src/Server/Opening/Dealing.antt =====
-- net/server/server.go: a server that `New` makes has a loop for every connection.
use zput_net_golang.Prelude.{
  ℕ, zero, suc, ◌+◌, ◌<◌, ◌≡◌, ap, ◌∙◌, arith, List, [], ◌∷◌, ◌++◌, length, length-append, inl, inr,
  Option, some, Option-cases, if◌then◌else◌, ltb_ℤ, pos_part, pos, negsuc, ℤ, map,
}
use zput_net_golang.Outside.EpollKernel.{EpollKernel}
use zput_net_golang.Outside.Listening.{Listening}
use zput_net_golang.Protocol.Options.{Options, new_options, loops_wanted}
use zput_net_golang.Accept.{Accept, new_accept}
use zput_net_golang.EventLoop.Event.{EventCtrl}
use zput_net_golang.Multiplex.Epoll.{Epoll, epolls}
use zput_net_golang.Server.Opening.{Loop, Opened, new_event_loop, make_loops, new}
use zput_net_golang.Server.Pool.{Server}
use zput_net_golang.Server.Pool.Turns.{dealt, dealt-turns, turns}

loops_wanted_positive :
    {Codec : Type 0} (num_cpu : ℕ) (o : Options Codec) → 0 < num_cpu → 0 < loops_wanted num_cpu o
unfolding loops_wanted
loops_wanted_positive num_cpu o h = positive num_cpu o.num_loops h
  where
    positive :
        (num_cpu : ℕ) (z : ℤ) → 0 < num_cpu → 0 < (if ltb_ℤ (pos 0) z then pos_part z else num_cpu)
    positive num_cpu (pos n) h = ground arith
    positive num_cpu (negsuc n) h = ground arith

module _ {K : EpollKernel} {F P : Type 0} where
  length-make_loops :
      (n : ℕ) (made ls : List (Loop K F P)) (k : K.Kernel)
      → (make_loops K n made k).0 ≡ some ls
      → length ls ≡ length made + n
  unfolding make_loops
  length-make_loops zero made ls k h = ground (arith, h)
  length-make_loops (suc n) made ls k h =
      elim (Option-cases (new_event_loop K {F = F} {P = P} k).0) [
        | inl e ↦ ground (arith, e, h)
        | inr (l, e) ↦ omega (
          arith,
          length-append made (l ∷ []),
          length-make_loops n (made ++ (l ∷ [])) ls (new_event_loop K {F = F} {P = P} k).1
              (ground (arith, e, h)),
        )
      ]

module _ {K : EpollKernel} {Ls : Listening} {F P C Codec : Type 0} where
  -- What `New` comes to when it makes a server.
  opened :
      (num_cpu : ℕ) (codec : Codec) (p : P) (os : List (Options Codec → Options Codec))
      (k k' : K.Kernel) (a a' : Ls.Kernel) (s : Opened K Ls F P C Codec)
      → new K Ls num_cpu codec p os k a ≡ (some s, k', a')
      → (k0 : K.Kernel) × ((make_loops K (loops_wanted num_cpu (new_options codec os)) [] k0).0
          ≡ some s.server.sub_loops)
        × (s.server.next_loop_index ≡ 0)
        × (s.server.connect_pool ≡ [])
  unfolding new
  opened num_cpu codec p os k k' a a' s h =
      elim (Option-cases (new_event_loop K {F = F} {P = P} k).0) [
        | inl e ↦ absurd (ground (arith, e, h))
        | inr (main, e) ↦ elim (Option-cases (accepting main).0) [
          | inl f ↦ absurd (ground (arith, e, f, h))
          | inr (tcp, f) ↦ elim (Option-cases (loops (accepting main).2.multi.kernel)) [
            | inl g ↦ absurd (ground (arith, e, f, g, h))
            | inr (ls, g) ↦ (
              (accepting main).2.multi.kernel,
              ground (arith, e, f, g, h),
              ground (arith, e, f, g, h),
              ground (arith, e, f, g, h),
            )
          ]
        ]
      ]
    where
      accepting : Loop K F P → Option (Accept Ls) × Ls.Kernel × EventCtrl P (Epoll K)
      accepting main = new_accept Ls (epolls K) p (new_options codec os).net a main.ctrl

      loops : K.Kernel → Option (List (Loop K F P))
      loops k0 = (make_loops K (loops_wanted num_cpu (new_options codec os)) [] k0).0

  -- On a machine with at least one processor, a server that `New` makes has as many loops as the
  -- options ask for, and from then on no connection makes `getOneLoopFromPool` panic: any number of
  -- them get the loops in turn, from the first one on.
  pub new_deals :
      (num_cpu : ℕ) (codec : Codec) (p : P) (os : List (Options Codec → Options Codec))
      (k k' : K.Kernel) (a a' : Ls.Kernel) (s : Opened K Ls F P C Codec) (t : ℕ)
      → 0 < num_cpu
      → new K Ls num_cpu codec p os k a ≡ (some s, k', a')
      → (length s.server.sub_loops ≡ loops_wanted num_cpu (new_options codec os))
        × ((ls : List (Loop K F P)) × (s' : Server (Loop K F P) C) × (dealt t s.server
              ≡ some (ls, s'))
            × (map some ls ≡ turns s.server.sub_loops t 0))
  new_deals num_cpu codec p os k k' a a' s t h e =
      let (k0, made, zeroth, empty) = opened num_cpu codec p os k k' a a' s e in
      let counted = length-make_loops _ [] s.server.sub_loops k0 made in
      let (ls, s', took, same, index, given) =
        dealt-turns t s.server (
          omega (arith, zeroth, counted, loops_wanted_positive num_cpu (new_options codec os) h)) in
      (omega (arith, counted), (ls, s', took, given ∙ ap (turns s.server.sub_loops t) zeroth))
