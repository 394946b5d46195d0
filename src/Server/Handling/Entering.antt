-- ===== src/Server/Handling/Entering.antt =====
-- net/server/server.go: what `newConnected` and the closing of a connection do to the pools.
use Prim.Native.String.{String}
use text.Mathlib.Text
use zput_net_golang.Prelude.{
  ℕ, ◌+◌, ◌%◌, ◌≡◌, refl, arith, [], ◌∷◌, ◌++◌, length, get_elem?, inl, inr, ◌⊎◌, ◌==◌,
  if◌then◌else◌, Option, none, some, Option-cases,
}
use zput_net_golang.EventLoop.Queue.{run_in_loop}
use zput_net_golang.Server.Pool.{Server, get_one_loop_from_pool}
use zput_net_golang.Server.Names.{find, find-without, find-with_name}
use zput_net_golang.Server.Handling.{
  enters, Connections, World, at_loop, add_connect, remove_connect, new_connected, close_connect,
  enter, connect_close_event,
}

module _ (N : Connections) where
  open N use {C, make, peer_addr, connected_handle}

  -- A connection that `connect.New` made: it is in the pool under its address, where it replaces any
  -- other, and the function that registers it is at the end of its loop's queue alone.
  abbrev pub IsEntered : C → ℕ → World N → World N → Type 0
  IsEntered c l w w' =
      ((name : String)
        → find name w'.server.connect_pool
          ≡ (if Text.◌==◌ (peer_addr c) name then some c else find name w.server.connect_pool))
      × ((m : ℕ)
          → (w'.loops m).functions
            ≡ (if m == l then (w.loops m).functions ++ (enters c ∷ []) else (w.loops m).functions))

  -- `newConnected` panics exactly when its index points past the loops. Else the index moves on by one,
  -- wrapping round; and either `connect.New` fails on the loop at the index, and pool and queues are as
  -- they were, or the connection that it makes is entered.
  pub new_connected_cases :
      (fd : ℕ) (sa : String) (w : World N)
      → ((get_elem? w.server.sub_loops w.server.next_loop_index ≡ none)
          × (new_connected N fd sa w ≡ none))
        ⊎ ((l : ℕ) × (w' : World N) × (get_elem? w.server.sub_loops w.server.next_loop_index
              ≡ some l)
            × (new_connected N fd sa w ≡ some w')
            × (w'.server.next_loop_index
                ≡ (w.server.next_loop_index + 1) % length w.server.sub_loops)
            × (((make w.kernel l fd sa).0 ≡ none)
                  × (w'.server.connect_pool ≡ w.server.connect_pool)
                  × (w'.loops ≡ w.loops)
                ⊎ ((c : C) × ((make w.kernel l fd sa).0 ≡ some c) × IsEntered c l w w')))
  unfolding new_connected get_one_loop_from_pool add_connect run_in_loop
  new_connected_cases fd sa w = elim (Option-cases at_index) [
    | inl e ↦ inl (e, rw (e, new_connected) refl)
    | inr (l, e) ↦ elim (Option-cases (make w.kernel l fd sa).0) [
      | inl f ↦ inr (l, unmade l, e, rw (e, f, new_connected) refl, refl, inl (f, refl, refl))
      | inr (c, f) ↦
          inr (l, made l c, e, rw (e, f, new_connected) refl, refl, inr (c, f, entered l c))
    ]
  ]
    where
      at_index : Option ℕ
      at_index = get_elem? w.server.sub_loops w.server.next_loop_index

      moved : Server ℕ C
      moved = record w.server {
        next_loop_index = (w.server.next_loop_index + 1) % length w.server.sub_loops;
      }

      unmade : ℕ → World N
      unmade l = record w { server = moved; kernel = (make w.kernel l fd sa).1 }

      made : ℕ → C → World N
      made l c = record (add_connect N (peer_addr c) c (unmade l)) {
        loops = at_loop l (run_in_loop (enters c)) w.loops;
      }

      entered : (l : ℕ) (c : C) → IsEntered c l w (made l c)
      entered l c =
          (λ name. find-with_name name (peer_addr c) c w.server.connect_pool, λ m. ground arith)

  -- After the function that `newConnected` queues, a connection that could not be registered is out of
  -- the pool, and one that could is where it was; after the close callback it is out of the pool. Other
  -- addresses keep what they had.
  pub pool_after :
      (c : C) (w : World N) (name : String)
      → (find name (enter N c w).server.connect_pool ≡ (
          if (connected_handle w.kernel c).0
          then find name w.server.connect_pool
          else if Text.◌==◌ (peer_addr c) name
          then none
          else find name w.server.connect_pool))
        × (find name (connect_close_event N c w).server.connect_pool
            ≡ (if Text.◌==◌ (peer_addr c) name then none else find name w.server.connect_pool))
  unfolding enter close_connect remove_connect connect_close_event
  pool_after c w name = ground (arith, find-without name (peer_addr c) w.server.connect_pool)
