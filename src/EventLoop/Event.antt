-- ===== src/EventLoop/Event.antt =====
-- net/event_loop/event.go and event_ctrl.go: an event with the set that it waits for, and the table
-- that finds it by its descriptor. A handler is a value of `H`, and an event is kept in the table by
-- a pointer of type `P`.
use zput_net_golang.Prelude.{ℕ, Bool, ◌==◌, if◌then◌else◌, List, [], ◌∷◌, Option, none, some}
use zput_net_golang.Protocol.EventType.{
  event_read, event_write, event_err, event_close, event_none, has, with_event, without_event,
}
use zput_net_golang.Outside.Unix.{Errno}
use zput_net_golang.Multiplex.{Multiplex}

pub record Event (H : Type 0) : Type 0 where
  pub event_fd : ℕ
  pub events : ℕ
  pub old_events : ℕ
  pub read_handle : Option H
  pub write_handle : Option H
  pub error_handle : Option H
  pub close_handle : Option H

pub record EventCtrl (P M : Type 0) : Type 0 where
  pub event_pool : List (ℕ × P)
  pub multi : M

-- The built-in map from descriptors: lookup, assignment and `delete`.
module _ {P : Type 0} where
  unfoldable pub lookup : ℕ → List (ℕ × P) → Option P
  lookup fd [] = none
  lookup fd ((k, p) ∷ m) = if k == fd then some p else lookup fd m

  unfoldable pub erase : ℕ → List (ℕ × P) → List (ℕ × P)
  erase fd [] = []
  erase fd ((k, p) ∷ m) = let rest = erase fd m in if k == fd then rest else (k, p) ∷ rest

  unfoldable pub assign : ℕ → P → List (ℕ × P) → List (ℕ × P)
  assign fd p m = (fd, p) ∷ erase fd m

module _ {H : Type 0} where
  unfoldable pub new_event : ℕ → Event H
  new_event fd = record {
    event_fd = fd;
    events = event_none;
    old_events = event_none;
    read_handle = none;
    write_handle = none;
    error_handle = none;
    close_handle = none;
  }

  abbrev pub set_read_func : H → Event H → Event H
  set_read_func function ev = record ev { read_handle = some function }

  abbrev pub set_write_func : H → Event H → Event H
  set_write_func function ev = record ev { write_handle = some function }

  abbrev pub set_error_func : H → Event H → Event H
  set_error_func function ev = record ev { error_handle = some function }

  abbrev pub set_close_func : H → Event H → Event H
  set_close_func function ev = record ev { close_handle = some function }

  -- One of the three `Enable…` up to `update`, for the bit `e`.
  abbrev set_events : ℕ → Bool → Event H → Event H
  set_events e enable ev = record ev {
    old_events = ev.events;
    events = if enable then with_event ev.events e else without_event ev.events e;
  }

  unfoldable pub is_writing : Event H → Bool
  is_writing ev = has ev.events event_write

  unfoldable pub is_reading : Event H → Bool
  is_reading ev = has ev.events event_read

  -- `HandleEvent`: the handler that is called, if any. A set of several events calls one handler.
  unfoldable pub handle_event : Event H → ℕ → Option H
  handle_event ev revents =
      if has revents event_close
      then ev.close_handle
      else if has revents event_err
      then ev.error_handle
      else if has revents event_write
      then ev.write_handle
      else if has revents event_read
      then ev.read_handle
      else none

-- What a method that registers an event answers: the error, the event and the table.
abbrev pub Updated : Multiplex → Type 0 → Type 0 → Type 0
Updated X H P = Option Errno × Event H × EventCtrl P X.Multi

module _ (X : Multiplex) {H P : Type 0} where
  open X use {Multi, add_event, remove_event, modify_event}

  -- `update`, through `EventLoop.modifyEvent` and `EventCtrl.modifyEvent`.
  unfoldable pub update : Event H → EventCtrl P Multi → Updated X H P
  update ev ctrl =
      let (err, m) = modify_event ctrl.multi ev.event_fd ev.events ev.old_events in
      (err, ev, record ctrl { multi = m })

  unfoldable pub enable_reading : Bool → Event H → EventCtrl P Multi → Updated X H P
  unfolding update
  enable_reading enable ev ctrl = update (set_events event_read enable ev) ctrl

  unfoldable pub enable_writing : Bool → Event H → EventCtrl P Multi → Updated X H P
  unfolding update
  enable_writing enable ev ctrl = update (set_events event_write enable ev) ctrl

  unfoldable pub enable_error_event : Bool → Event H → EventCtrl P Multi → Updated X H P
  unfolding update
  enable_error_event enable ev ctrl = update (set_events event_err enable ev) ctrl

  unfoldable pub disable_all : Event H → EventCtrl P Multi → Updated X H P
  unfolding update
  disable_all ev ctrl = update (record ev { old_events = ev.events; events = event_none }) ctrl

  -- `Register`, through `addEvent`; `p` is the pointer to the event.
  unfoldable pub register : P → Event H → EventCtrl P Multi → Updated X H P
  unfolding assign
  register p ev ctrl =
      let pool = assign ev.event_fd p ctrl.event_pool in
      let (err, m) = add_event ctrl.multi ev.event_fd ev.events ev.old_events in
      (err, ev, record { event_pool = pool; multi = m })

  -- `UnRegister`, through `removeEvent`. Deleting a key that is not there changes nothing.
  unfoldable pub unregister : Event H → EventCtrl P Multi → Updated X H P
  unfolding erase
  unregister ev ctrl =
      let pool = erase ev.event_fd ctrl.event_pool in
      let (err, m) = remove_event ctrl.multi ev.event_fd ev.old_events in
      (err, ev, record { event_pool = pool; multi = m })

-- `handlerEventWrap`: the pointer to the event whose `HandleEvent` is called. `none` for `fd` is -1.
unfoldable pub handler_event_wrap : {P M : Type 0} → EventCtrl P M → Option ℕ → Option P
unfolding lookup
handler_event_wrap ctrl none = none
handler_event_wrap ctrl (some fd) = lookup fd ctrl.event_pool
