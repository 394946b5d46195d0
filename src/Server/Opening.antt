-- ===== src/Server/Opening.antt =====
-- net/server/server.go: `New` over epoll, with `New` of net/event_loop and the error paths, and `Start`. The
-- kernel is in two parts, the one that epoll uses and the one that holds listeners.
pub mod Dealing
pub mod Loops
pub mod Starting
use zput_net_golang.Prelude.{
  ℕ, zero, suc, List, [], ◌∷◌, ◌++◌, Bool, true, false, if◌then◌else◌, map, Option, none, some, ℤ,
  pos,
}
use zput_net_golang.Outside.EpollKernel.{EpollKernel}
use zput_net_golang.Outside.Listening.{Listening}
use zput_net_golang.Protocol.Options.{Options, new_options, loops_wanted}
use zput_net_golang.Multiplex.Epoll.{Epoll, epolls, new_epoll, close_epoll}
use zput_net_golang.EventLoop.Event.{EventCtrl}
use zput_net_golang.EventLoop.Queue.{EventLoop, new_loop, start, stop}
use zput_net_golang.Accept.{Accept, new_accept, listen}
use zput_net_golang.Server.Pool.{Server, new_server}

-- A loop with its `eventCtrl`: `F` are the functions, `P` the pointers to events.
pub record Loop (K : EpollKernel) (F P : Type 0) : Type 0 where
  pub queue : EventLoop F
  pub ctrl : EventCtrl P (Epoll K)

unfoldable pub new_event_ctrl :
    (K : EpollKernel) {P : Type 0} → K.Kernel → Option (EventCtrl P (Epoll K)) × K.Kernel
unfolding new_epoll
new_event_ctrl K k =
    let (m, k1) = new_epoll K k in
    elim m [
      | none ↦ (none, k1)
      | some multi ↦ (some (record { event_pool = []; multi = multi }), k1)
    ]

module _ (K : EpollKernel) {F P : Type 0} where
  -- `New` of net/event_loop
  unfoldable pub new_event_loop : K.Kernel → Option (Loop K F P) × K.Kernel
  unfolding new_event_ctrl
  new_event_loop k =
      let (c, k1) = new_event_ctrl K k in
      elim c [
        | none ↦ (none, k1)
        | some ctrl ↦ (some (record { queue = new_loop; ctrl = ctrl }), k1)
      ]

  -- `Stop` of a loop with that of its `eventCtrl`, on the loop's own multiplexer in the kernel as it is
  -- then. The wait for the loop's end lies between.
  unfoldable pub stop_event_loop : Loop K F P → K.Kernel → K.Kernel
  unfolding stop close_epoll
  stop_event_loop l k =
      if (stop l.queue).0 then k else close_epoll (record l.ctrl.multi { kernel = k })

  unfoldable pub stop_made : List (Loop K F P) → K.Kernel → K.Kernel
  unfolding stop_event_loop
  stop_made [] k = k
  stop_made (l ∷ ls) k = stop_made ls (stop_event_loop l k)

  -- The loop of `New` for `n` more loops behind those made.
  unfoldable pub make_loops :
      ℕ → List (Loop K F P) → K.Kernel → Option (List (Loop K F P)) × K.Kernel
  unfolding new_event_loop stop_made
  make_loops zero made k = (some made, k)
  make_loops (suc n) made k =
      let (r, k1) = new_event_loop k in
      elim r [ none ↦ (none, stop_made made k1) | some l ↦ make_loops n (made ++ (l ∷ [])) k1 ]

-- The server with what its other fields hold.
pub record Opened (K : EpollKernel) (Ls : Listening) (F P C Codec : Type 0) : Type 0 where
  pub server : Server (Loop K F P) C
  pub tcp_accept : Accept Ls
  pub options : Options Codec

module _ (K : EpollKernel) (Ls : Listening) {F P C Codec : Type 0} where
  -- `p` is the pointer to the listener's event, `codec` is `new(BuiltInFrameCodec)`, `num_cpu` is
  -- `runtime.NumCPU()`.
  unfoldable pub new :
      ℕ
      → Codec
      → P
      → List (Options Codec → Options Codec)
      → K.Kernel
      → Ls.Kernel
      → Option (Opened K Ls F P C Codec) × K.Kernel × Ls.Kernel
  unfolding new_event_loop make_loops new_accept
  new num_cpu codec p os k a =
      let (r, k1) = new_event_loop K k in
      elim r [
        | none ↦ (none, k1, a)
        | some main ↦
            let o = new_options codec os in
            let (t, a1, ctrl) = new_accept Ls (epolls K) p o.net a main.ctrl in
            elim t [
              | none ↦ (none, ctrl.multi.kernel, a1)
              | some tcp ↦
                  let n = loops_wanted num_cpu o in
                  let (ls, k2) = make_loops K n [] ctrl.multi.kernel in
                  elim ls [
                    | none ↦ (none, k2, a1)
                    | some loops ↦ (
                      some (record {
                        server = new_server (record main { ctrl = ctrl }) loops;
                        tcp_accept = tcp;
                        options = record o { num_loops = pos n };
                      }),
                      k2,
                      a1,
                    )
                  ]
            ]
      ]

-- `Run` of a loop up to its first wait.
abbrev pub started : {K : EpollKernel} {F P : Type 0} → Loop K F P → Loop K F P
started l = record l { queue = start l.queue }

module _ {K : EpollKernel} {Ls : Listening} {F P C Codec : Type 0} where
  -- `Start`, when the goroutine of each loop has come to its first wait. The listener's event changes
  -- the main loop's multiplexer in the kernel `k`. `none` is the panic.
  unfoldable pub start_server :
      K.Kernel → Opened K Ls F P C Codec → Option (Opened K Ls F P C Codec)
  unfolding listen start
  start_server k s =
      let main = s.server.main_loop in
      let ctrl = record main.ctrl { multi = record main.ctrl.multi { kernel = k } } in
      let (err, ev, ctrl1) = listen Ls (epolls K) s.tcp_accept ctrl in
      elim err [
        | none ↦ some (record s {
          server = record s.server {
            main_loop = started (record main { ctrl = ctrl1 });
            sub_loops = map started s.server.sub_loops;
          };
          tcp_accept = record s.tcp_accept { event = ev };
        })
        | some e ↦ none
      ]
