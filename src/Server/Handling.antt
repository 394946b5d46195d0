-- ===== src/Server/Handling.antt =====
-- net/server/server.go: new connections, connections that close, and `Stop`. A connection is seen
-- through what the server uses of it, and the loops are a heap from their pointers.
pub mod Draining
pub mod Entering
pub mod Stopping
use Prim.Native.String.{String}
use zput_net_golang.Prelude.{
  ℕ, List, [], ◌∷◌, Bool, true, false, ◌==◌, if◌then◌else◌, Option, none, some,
}
use zput_net_golang.EventLoop.Queue.{EventLoop, run_in_loop, stop}
use zput_net_golang.Server.Pool.{Server, get_one_loop_from_pool}
use zput_net_golang.Server.Names.{without, with_name}

-- The functions that the server's parts hand to `RunInLoop`: that of `newConnected`, `closeEvent` of a
-- connection, and that of `Accept.Close`.
pub data Job (C : Type 0) : Type 0 where
  enters closes : C → Job C
  closes_accept : Job C

abbrev pub Loops : Type 0 → Type 0
Loops C = ℕ → EventLoop (Job C)

-- A method called on the loop that `m` points to.
abbrev pub at_loop : {C : Type 0} → ℕ → (EventLoop (Job C) → EventLoop (Job C)) → Loops C → Loops C
at_loop m f loops = λ n. if n == m then f (loops n) else loops n

-- What net/server uses of net/connect and of the handler of its user, over a state `K` that holds
-- them: `make` is `connect.New` on a loop, a descriptor and an address.
pub record Connections : Type 1 where
  pub C : Type 0
  pub K : Type 0
  pub make : K → ℕ → ℕ → String → Option C × K
  pub peer_addr : C → String
  pub own_loop : C → ℕ
  pub is_closed : K → C → Bool
  pub connected_handle : K → C → Bool × K  -- whether it succeeds
  pub connect_callback : K → C → K
  pub connect_close_callback : K → C → K

module _ (N : Connections) where
  open N use {C, K, make, peer_addr, own_loop, is_closed, connected_handle, connect_callback}

  pub record World : Type 0 where
    pub server : Server ℕ C
    pub loops : Loops C
    pub kernel : K

  unfoldable pub add_connect : String → C → World → World
  unfolding with_name
  add_connect name c w = record w {
    server = record w.server { connect_pool = with_name name c w.server.connect_pool };
  }

  unfoldable pub remove_connect : String → World → World
  unfolding without
  remove_connect name w = record w {
    server = record w.server { connect_pool = without name w.server.connect_pool };
  }

  -- `newConnected`. `none` is a panic.
  unfoldable pub new_connected : ℕ → String → World → Option World
  unfolding get_one_loop_from_pool add_connect run_in_loop
  new_connected fd sa w = elim (get_one_loop_from_pool w.server) [
    | none ↦ none
    | some (l, s) ↦ some (elim (make w.kernel l fd sa).0 [
      | none ↦ record w { server = s; kernel = (make w.kernel l fd sa).1 }
      | some c ↦
          let w1 = record w { server = s; kernel = (make w.kernel l fd sa).1 } in
          let w2 = add_connect (peer_addr c) c w1 in
          record w2 { loops = at_loop l (run_in_loop (enters c)) w2.loops }
    ])
  ]

  -- `Connect.Close`
  unfoldable pub close_connect : C → World → World
  unfolding run_in_loop
  close_connect c w =
      if is_closed w.kernel c
      then w
      else record w { loops = at_loop (own_loop c) (run_in_loop (closes c)) w.loops }

  -- The function that `newConnected` queues.
  unfoldable pub enter : C → World → World
  unfolding close_connect remove_connect
  enter c w =
      let (ok, k) = connected_handle w.kernel c in
      let w1 = record w { kernel = k } in
      let w2 = if ok then w1 else remove_connect (peer_addr c) (close_connect c w1) in
      record w2 { kernel = connect_callback w2.kernel c }

  unfoldable pub connect_close_event : C → World → World
  unfolding remove_connect
  connect_close_event c w =
      remove_connect (peer_addr c) (record w { kernel = N.connect_close_callback w.kernel c })

  -- `this.connectPool` in the order in which `range` takes it.
  unfoldable pub close_all : List C → World → World
  unfolding close_connect
  close_all [] w = w
  close_all (c ∷ cs) w = close_all cs (close_connect c w)

  abbrev pub stop_loop : ℕ → World → World
  stop_loop m w = record w { loops = at_loop m (λ l. (stop l).1) w.loops }

  unfoldable pub stop_loops : List ℕ → World → World
  unfolding stop
  stop_loops [] w = w
  stop_loops (m ∷ ms) w = stop_loops ms (stop_loop m w)

  -- `Stop`, up to the waits for the loops to end; `cs` are the connections of the pool in the order of
  -- the `range`. `Accept.Close` queues its function and answers nil.
  unfoldable pub stop_server : List C → World → World
  unfolding run_in_loop close_all stop stop_loops
  stop_server cs w =
      let w1 = record w {
        loops = at_loop w.server.main_loop (run_in_loop closes_accept) w.loops;
      } in
      let w2 = close_all cs w1 in
      let w3 = stop_loop w.server.main_loop w2 in stop_loops w.server.sub_loops w3
