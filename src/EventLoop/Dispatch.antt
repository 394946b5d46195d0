-- ===== src/EventLoop/Dispatch.antt =====
-- net/event_loop/event_ctrl.go: `waitAndRunHandle`. A wait makes calls of `handlerEventWrap`, one after
-- the other, and the handler called by one sees and changes what the next one finds.
use zput_net_golang.Prelude.{ℕ, List, [], ◌∷◌, Option, none, some}
use zput_net_golang.EventLoop.Event.{Event, EventCtrl, handle_event, handler_event_wrap}

-- A loop as its handlers see it: the table, the events behind its pointers, and what a handler does.
pub record Handlers (H P M : Type 0) : Type 1 where
  pub W : Type 0
  pub ctrl_of : W → EventCtrl P M
  pub event_at : W → P → Event H
  pub run : H → P → W → W

module _ {H P M : Type 0} (Hs : Handlers H P M) where
  open Hs use {W, ctrl_of, event_at, run}

  -- A call of `handlerEventWrap` with its call of `HandleEvent`.
  unfoldable pub dispatch : Option ℕ × ℕ → W → W
  unfolding handler_event_wrap handle_event
  dispatch (fd, revents) w = elim (handler_event_wrap (ctrl_of w) fd) [
    | none ↦ w
    | some p ↦ elim (handle_event (event_at w p) revents) [ none ↦ w | some h ↦ run h p w ]
  ]

  unfoldable pub dispatch_all : List (Option ℕ × ℕ) → W → W
  unfolding dispatch
  dispatch_all [] w = w
  dispatch_all (c ∷ cs) w = dispatch_all cs (dispatch c w)
