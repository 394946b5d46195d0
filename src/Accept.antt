-- ===== src/Accept.antt =====
-- net/accept/accept.go: the listener's event in the main loop. An error of a call that the code only
-- logs is dropped.
pub mod Listened
use Prim.Native.String.{String}
use zput_net_golang.Prelude.{ℕ, Bool, true, false, if◌then◌else◌, Option, none, some}
use zput_net_golang.Outside.Unix.{Errno}
use zput_net_golang.Outside.Listening.{
  Listening, FileResult, not_tcp, file_failed, file, Accepted, accepted, accept_failed,
}
use zput_net_golang.Protocol.Options.{NetWorkAndAddressAndOption}
use zput_net_golang.Multiplex.{Multiplex}
use zput_net_golang.EventLoop.Event.{
  Event, EventCtrl, Updated, new_event, set_read_func, register, enable_reading, disable_all,
  unregister,
}

-- The only handler of the listener's event.
pub data Handler : Type 0 where
  accept_handle : Handler

pub record Accept (Ls : Listening) : Type 0 where
  pub listener : Ls.Listener
  pub fd : ℕ
  pub event : Event Handler

-- The descriptor, or an error.
unfoldable pub set_fd : (Ls : Listening) → Ls.Kernel → Ls.Listener → Option ℕ × Ls.Kernel
set_fd Ls k listener =
    let (f, k1) = Ls.listener_file k listener in
    elim f [ not_tcp ↦ (none, k1) | file_failed ↦ (none, k1) | file fd ↦ (some fd, k1) ]

module _ (Ls : Listening) (X : Multiplex) {P : Type 0} where
  open Ls use {Kernel}

  -- `New`: the listener or an error, the kernel, and the table of the loop, where the pointer to the
  -- event is `p`. A failure leaves the listener open.
  unfoldable pub new_accept :
      P
      → NetWorkAndAddressAndOption
      → Kernel
      → EventCtrl P X.Multi
      → Option (Accept Ls) × Kernel × EventCtrl P X.Multi
  unfolding set_fd new_event register
  new_accept p option k ctrl =
      let (l, k1) =
        if option.reuse_port
        then Ls.listen_reuse k option.network option.address
        else Ls.listen k option.network option.address in
      elim l [
        | none ↦ (none, k1, ctrl)
        | some listener ↦
            let (f, k2) = set_fd Ls k1 listener in
            elim f [
              | none ↦ (none, k2, ctrl)
              | some fd ↦
                  let (err, ev, ctrl1) = register X p (new_event fd) ctrl in
                  elim err [
                    | none ↦ (
                      some (record {
                        listener = listener;
                        fd = fd;
                        event = set_read_func accept_handle ev;
                      }),
                      k2,
                      ctrl1,
                    )
                    | some e ↦ (none, k2, ctrl1)
                  ]
            ]
      ]

  unfoldable pub listen : Accept Ls → EventCtrl P X.Multi → Updated X Handler P
  unfolding enable_reading
  listen a ctrl = enable_reading X true a.event ctrl

  -- The function that `Close` queues.
  unfoldable pub close_accept :
      Accept Ls → Kernel → EventCtrl P X.Multi → Updated X Handler P × Kernel
  unfolding disable_all unregister
  close_accept a k ctrl =
      let (err, ev, ctrl1) = disable_all X a.event ctrl in
      (unregister X ev ctrl1, Ls.close_listener k a.listener)

-- `AcceptHandle`, with what `newConnectCallback` does to a state `W`.
unfoldable pub handle_accept :
    {Ls : Listening} {W : Type 0} → (ℕ → String → W → W) → Accept Ls → Ls.Kernel → W → Ls.Kernel × W
handle_accept {Ls} callback a k w =
    let (r, k1) = Ls.accept k a.fd in
    elim r [ accepted nfd sa ↦ (k1, callback nfd sa w) | accept_failed e ↦ (k1, w) ]
