-- ===== src/Server/Pool.antt =====
-- net/server/server.go: the server and `getOneLoopFromPool`. A list of loops that the index
-- points past is a panic.
pub mod Turns
use Prim.Native.String.{String}
use zput_net_golang.Prelude.{[], ℕ, suc, ◌+◌, ◌%◌, List, length, get_elem?, Option, none, some}

-- `L` is the type of pointers to loops, `C` that of pointers to connections.
pub record Server (L C : Type 0) : Type 0 where
  pub main_loop : L
  pub sub_loops : List L
  pub next_loop_index : ℕ
  pub connect_pool : List (String × C)

module _ {L C : Type 0} where
  -- `New` leaves the index at its zero value.
  abbrev pub new_server : L → List L → Server L C
  new_server main loops = record {
    main_loop = main;
    sub_loops = loops;
    next_loop_index = 0;
    connect_pool = [];
  }

  unfoldable pub get_one_loop_from_pool : Server L C → Option (L × Server L C)
  get_one_loop_from_pool s = elim (get_elem? s.sub_loops s.next_loop_index) [
    | none ↦ none
    | some loop ↦
        some (loop, record s { next_loop_index = (s.next_loop_index + 1) % length s.sub_loops })
  ]
