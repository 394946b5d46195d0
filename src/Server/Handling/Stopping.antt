-- ===== src/Server/Handling/Stopping.antt =====
-- net/server/server.go: `Stop` asks every open connection to close on its own loop.
use zput_net_golang.Prelude.{
  ℕ, ◌≡◌, refl, sym, ap, ◌∙◌, arith, List, [], ◌∷◌, ◌++◌, append_assoc, append-nil, Bool, false,
  ◌||◌, ◌==◌, if◌then◌else◌,
}
use zput_net_golang.EventLoop.Queue.{run_in_loop, stop}
use zput_net_golang.Server.Handling.{
  Job, closes, closes_accept, Connections, World, at_loop, close_connect, close_all, stop_loop,
  stop_loops, stop_server,
}

-- Whether `m` points to one of the loops.
abbrev pub among : ℕ → List ℕ → Bool
among m [] = false
among m (n ∷ ns) = m == n || among m ns

module _ (N : Connections) where
  open N use {C, K, own_loop, is_closed}

  -- The functions that close those of the connections `cs` that are open and belong to the loop `m`.
  abbrev pub closing : K → ℕ → List C → List (Job C)
  closing k m [] = []
  closing k m (c ∷ cs) =
      let rest = closing k m cs in
      if is_closed k c then rest else if m == own_loop c then closes c ∷ rest else rest

  close_connect-functions :
      (c : C) (w : World N) (m : ℕ)
      → ((close_connect N c w).loops m).functions
        ≡ (w.loops m).functions ++ closing w.kernel m (c ∷ [])
  unfolding close_connect run_in_loop
  close_connect-functions c w m = ground (arith, append-nil (w.loops m).functions)

  close_connect-rest :
      (c : C) (w : World N) (m : ℕ)
      → ((close_connect N c w).kernel ≡ w.kernel)
        × ((close_connect N c w).server ≡ w.server)
        × (((close_connect N c w).loops m).running ≡ (w.loops m).running)
  unfolding close_connect run_in_loop
  close_connect-rest c w m = ground arith

  close_all-rest :
      (cs : List C) (w : World N) (m : ℕ)
      → ((close_all N cs w).server ≡ w.server)
        × (((close_all N cs w).loops m).running ≡ (w.loops m).running)
  unfolding close_all
  close_all-rest [] w m = (refl, refl)
  close_all-rest (c ∷ cs) w m =
      let (s, r) = close_all-rest cs (close_connect N c w) m in
      let (k, s1, r1) = close_connect-rest c w m in (s ∙ s1, r ∙ r1)

  closing-cons :
      (k : K) (m : ℕ) (c : C) (cs : List C)
      → closing k m (c ∷ []) ++ closing k m cs ≡ closing k m (c ∷ cs)
  closing-cons k m c cs = ground arith

  close_all-functions :
      (cs : List C) (w : World N) (m : ℕ)
      → ((close_all N cs w).loops m).functions ≡ (w.loops m).functions ++ closing w.kernel m cs
  unfolding close_all
  close_all-functions [] w m = sym (append-nil _)
  close_all-functions (c ∷ cs) w m =
      close_all-functions cs (close_connect N c w) m
      ∙ ap (λ k. ((close_connect N c w).loops m).functions ++ closing k m cs)
          (close_connect-rest c w m).0
      ∙ ap (λ l. l ++ closing w.kernel m cs) (close_connect-functions c w m)
      ∙ append_assoc (w.loops m).functions (closing w.kernel m (c ∷ [])) (closing w.kernel m cs)
      ∙ ap (λ l. (w.loops m).functions ++ l) (closing-cons w.kernel m c cs)

  stop_loop-loops :
      (n : ℕ) (w : World N) (m : ℕ)
      → (((stop_loop N n w).loops m).functions ≡ (w.loops m).functions)
        × (((stop_loop N n w).loops m).running ≡ (if m == n then false else (w.loops m).running))
  unfolding stop
  stop_loop-loops n w m = ground arith

  stop_loops-loops :
      (ns : List ℕ) (w : World N) (m : ℕ)
      → (((stop_loops N ns w).loops m).functions ≡ (w.loops m).functions)
        × (((stop_loops N ns w).loops m).running
            ≡ (if among m ns then false else (w.loops m).running))
  unfolding stop_loops
  stop_loops-loops [] w m = (refl, refl)
  stop_loops-loops (n ∷ ns) w m =
      ground (arith, stop_loops-loops ns (stop_loop N n w) m, stop_loop-loops n w m)

  -- `Stop` on a pool that `range` takes in the order `cs`: at the end of each loop's queue stands, for
  -- the main loop, the function that closes the listener, and then the closing of each connection that
  -- is open and belongs to the loop, once and in that order; the main loop and the loops of the pool do
  -- not run on, and no other loop is stopped.
  pub stop_server_queues :
      (cs : List C) (w : World N) (m : ℕ)
      → (((stop_server N cs w).loops m).functions
          ≡ (w.loops m).functions
            ++ ((if m == w.server.main_loop then closes_accept ∷ [] else [])
                ++ closing w.kernel m cs))
        × (((stop_server N cs w).loops m).running ≡ (
            if m == w.server.main_loop || among m w.server.sub_loops
            then false
            else (w.loops m).running))
  unfolding stop_server run_in_loop
  stop_server_queues cs w m = (
    (stop_loops-loops w.server.sub_loops w3 m).0
        ∙ (stop_loop-loops w.server.main_loop w2 m).0
        ∙ close_all-functions cs w1 m
        ∙ ap (λ l. l ++ closing w.kernel m cs) asked
        ∙ append_assoc (w.loops m).functions _ (closing w.kernel m cs),
    ground (
      arith,
      stop_loops-loops w.server.sub_loops w3 m,
      stop_loop-loops w.server.main_loop w2 m,
      close_all-rest cs w1 m,
    ),
  )
    where
      w1 : World N
      w1 = record w { loops = at_loop w.server.main_loop (run_in_loop closes_accept) w.loops }

      w2 : World N
      w2 = close_all N cs w1

      w3 : World N
      w3 = stop_loop N w.server.main_loop w2

      asked :
          (w1.loops m).functions
          ≡ (w.loops m).functions ++ (if m == w.server.main_loop then closes_accept ∷ [] else [])
      asked = ground (arith, append-nil (w.loops m).functions)
