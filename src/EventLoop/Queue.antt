-- ===== src/EventLoop/Queue.antt =====
-- net/event_loop/event_loop.go: the queue of functions that any goroutine may extend and the loop's
-- goroutine empties. A step is what one goroutine does between two points where another can come in:
-- the sections under the mutex, the flag's atomic operations and the calls of the functions.
pub mod Fifo
use zput_net_golang.Prelude.{List, [], ◌∷◌, ◌++◌, Bool, true, false, if◌then◌else◌, ◌≡◌}

-- Where the goroutine of `Run` is: not started, in `waitAndRunHandle`, calling what is left of
-- `functionsTemp`, before the test of `running`, or behind the closing of `waitDone`, where it has
-- returned or, when `waitDone` was closed already, panicked.
pub data Place (F : Type 0) : Type 0 where
  created waiting testing ended : Place F
  calling : List F → Place F

pub record EventLoop (F : Type 0) : Type 0 where
  pub functions : List F
  pub running : Bool
  pub place : Place F

module _ {F : Type 0} where
  -- `New`
  abbrev pub new_loop : EventLoop F
  new_loop = record { functions = []; running = false; place = created }

  -- `RunInLoop`, under the mutex.
  unfoldable pub run_in_loop : F → EventLoop F → EventLoop F
  run_in_loop f l = record l { functions = l.functions ++ (f ∷ []) }

  -- The first line of `Run`.
  unfoldable pub start : EventLoop F → EventLoop F
  start l = record l { running = true; place = waiting }

  -- `runAllFunctionInLoop` under the mutex.
  unfoldable pub take_functions : EventLoop F → EventLoop F
  take_functions l = record l { functions = []; place = calling l.functions }

  -- A round of its loop, when `fs` is left behind the function called; and the loop's end.
  unfoldable pub called : List F → EventLoop F → EventLoop F
  called fs l = record l { place = calling fs }

  unfoldable pub all_called : EventLoop F → EventLoop F
  all_called l = record l { place = testing }

  -- The test at the end of `Run`'s loop.
  unfoldable pub test_running : EventLoop F → EventLoop F
  test_running l = record l { place = if l.running then waiting else ended }

  -- `Stop` up to its wait for `waitDone`. `true` is `ErrClosed`.
  unfoldable pub stop : EventLoop F → Bool × EventLoop F
  stop l = if l.running then (false, record l { running = false }) else (true, l)

  -- No goroutine is in `Run`, which then can be called, whether it was called before or not. Two calls
  -- at a time are not modelled.
  abbrev pub IsIdle : Place F → Type 0
  IsIdle created = Unit
  IsIdle waiting = ⊥
  IsIdle testing = ⊥
  IsIdle ended = Unit
  IsIdle (calling fs) = ⊥

  -- A step, with the functions that it added to the queue and those that it called.
  pub data Step : EventLoop F → List F → List F → EventLoop F → Type 0 where
    adds : {l : EventLoop F} (f : F) → Step l (f ∷ []) [] (run_in_loop f l)
    starts : {l : EventLoop F} → IsIdle l.place → Step l [] [] (start l)
    takes : {l : EventLoop F} → l.place ≡ waiting → Step l [] [] (take_functions l)
    calls :
        {l : EventLoop F} (f : F) (fs : List F)
        → l.place ≡ calling (f ∷ fs)
        → Step l [] (f ∷ []) (called fs l)
    calls_end : {l : EventLoop F} → l.place ≡ calling [] → Step l [] [] (all_called l)
    tests : {l : EventLoop F} → l.place ≡ testing → Step l [] [] (test_running l)
    stops : {l : EventLoop F} → Step l [] [] (stop l).1

  -- Some steps, with all that they added and called, in order.
  pub data Steps : EventLoop F → List F → List F → EventLoop F → Type 0 where
    none_yet : {l : EventLoop F} → Steps l [] [] l
    then_step :
        {l l' l'' : EventLoop F} (added ran a r : List F)
        → Steps l added ran l'
        → Step l' a r l''
        → Steps l (added ++ a) (ran ++ r) l''
