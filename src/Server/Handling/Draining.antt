-- ===== src/Server/Handling/Draining.antt =====
-- net/server/server.go with net/event_loop/event_loop.go: what a loop still does when `Stop` has asked
-- for its end.
use zput_net_golang.Prelude.{
  ℕ, ◌≡◌, refl, subst, ◌∙◌, arith, List, [], ◌∷◌, ◌++◌, true, ◌||◌, ◌==◌, if◌then◌else◌,
}
use zput_net_golang.EventLoop.Queue.{EventLoop, waiting, ended, run_in_loop, stop, Steps}
use zput_net_golang.EventLoop.Queue.Fifo.{round, round-Steps}
use zput_net_golang.Server.Handling.{
  Job, closes_accept, Connections, World, at_loop, close_connect, close_all, stop_loop, stop_loops,
  stop_server,
}
use zput_net_golang.Server.Handling.Stopping.{among, closing, stop_server_queues}

module _ (N : Connections) where
  open N use {C}

  close_connect-place :
      (c : C) (w : World N) (m : ℕ) → ((close_connect N c w).loops m).place ≡ (w.loops m).place
  unfolding close_connect run_in_loop
  close_connect-place c w m = ground arith

  close_all-place :
      (cs : List C) (w : World N) (m : ℕ) → ((close_all N cs w).loops m).place ≡ (w.loops m).place
  unfolding close_all
  close_all-place [] w m = refl
  close_all-place (c ∷ cs) w m =
      close_all-place cs (close_connect N c w) m ∙ close_connect-place c w m

  stop_loop-place :
      (n : ℕ) (w : World N) (m : ℕ) → ((stop_loop N n w).loops m).place ≡ (w.loops m).place
  unfolding stop
  stop_loop-place n w m = ground arith

  stop_loops-place :
      (ns : List ℕ) (w : World N) (m : ℕ) → ((stop_loops N ns w).loops m).place ≡ (w.loops m).place
  unfolding stop_loops
  stop_loops-place [] w m = refl
  stop_loops-place (n ∷ ns) w m = stop_loops-place ns (stop_loop N n w) m ∙ stop_loop-place n w m

  stop_server-place :
      (cs : List C) (w : World N) (m : ℕ) → ((stop_server N cs w).loops m).place ≡ (w.loops m).place
  unfolding stop_server run_in_loop
  stop_server-place cs w m = ground (
    arith,
    stop_loops-place w.server.sub_loops (stop_loop N w.server.main_loop (close_all N cs asked)) m,
    stop_loop-place w.server.main_loop (close_all N cs asked) m,
    close_all-place cs asked m,
  )
    where
      asked : World N
      asked = record w { loops = at_loop w.server.main_loop (run_in_loop closes_accept) w.loops }

  -- A loop of the server that is in its wait when `Stop` has asked for its end, and that goes on by
  -- itself, calls what was in its queue, then for the main loop the function that closes the listener,
  -- then the closing of each connection that was open and belongs to it; and then it has ended with an
  -- empty queue.
  pub stop_server_drains :
      (cs : List C) (w : World N) (m : ℕ)
      → (w.loops m).place ≡ waiting
      → (m == w.server.main_loop || among m w.server.sub_loops) ≡ true
      → (l : EventLoop (Job C)) × Steps
          ((stop_server N cs w).loops m)
          []
          ((w.loops m).functions
            ++ ((if m == w.server.main_loop then closes_accept ∷ [] else [])
                ++ closing N w.kernel m cs))
          l
        × (l.place ≡ ended)
        × (l.functions ≡ [])
  stop_server_drains cs w m p h =
      let (queue, running) = stop_server_queues N cs w m in
      (
        round ((stop_server N cs w).loops m),
        subst
            (λ fs.
              Steps ((stop_server N cs w).loops m) [] fs (round ((stop_server N cs w).loops m)))
            queue (round-Steps ((stop_server N cs w).loops m) (stop_server-place cs w m ∙ p)),
        ground (arith, running, h),
        refl,
      )
