-- ===== src/EventLoop/Queue/Fifo.antt =====
-- net/event_loop/event_loop.go: no function is lost, repeated or overtaken on its way through the
-- queue.
use zput_net_golang.Prelude.{
  List, [], ◌∷◌, ◌++◌, append-nil, append_assoc, if◌then◌else◌, ◌≡◌, refl, sym, ap, subst, ◌∙◌,
  true, false, Bool-cases, inl, inr,
}
use zput_net_golang.EventLoop.Queue.{
  Place, created, waiting, testing, ended, calling, EventLoop, IsIdle, run_in_loop, start,
  take_functions, called, all_called, test_running, stop, Step, adds, starts, takes, calls,
  calls_end, tests, stops, Steps, none_yet, then_step,
}

module _ {F : Type 0} where
  -- What is still to be called of the functions taken from the queue.
  abbrev pub taken : Place F → List F
  taken created = []
  taken waiting = []
  taken testing = []
  taken ended = []
  taken (calling fs) = fs

  abbrev pub outstanding : EventLoop F → List F
  outstanding l = taken l.place ++ l.functions

  idle_taken : (p : Place F) → IsIdle p → taken p ≡ []
  idle_taken created i = refl
  idle_taken waiting i = absurd i
  idle_taken testing i = absurd i
  idle_taken ended i = refl
  idle_taken (calling fs) i = absurd i

  step-outstanding :
      {l l' : EventLoop F} {a r : List F} → Step l a r l' → outstanding l ++ a ≡ r ++ outstanding l'
  unfolding run_in_loop start take_functions called all_called test_running stop
  step-outstanding {l = l} (adds f) = append_assoc (taken l.place) l.functions (f ∷ [])
  step-outstanding {l = l} (starts i) = rw (idle_taken l.place i) (append-nil _)
  step-outstanding {l = l} (takes e) = rw e refl
  step-outstanding {l = l} (calls f fs e) = rw e (append-nil _)
  step-outstanding {l = l} (calls_end e) = rw e (append-nil _)
  step-outstanding {l = l} (tests e) = elim (Bool-cases l.running) [
    | inl b ↦ rw (e, b) (append-nil _)
    | inr b ↦ rw (e, b) (append-nil _)
  ]
  step-outstanding {l = l} stops = elim (Bool-cases l.running) [
    | inl b ↦ rw b (append-nil _)
    | inr b ↦ rw b (append-nil _)
  ]

  -- Whatever goroutines add, and wherever they come in: the functions that were added, in the order in
  -- which they were added, are those that were called, then those that are outstanding.
  pub Steps-outstanding :
      {l l' : EventLoop F} {added ran : List F}
      → Steps l added ran l'
      → outstanding l ++ added ≡ ran ++ outstanding l'
  Steps-outstanding none_yet = append-nil _
  Steps-outstanding {l = l} {l' = l''} (then_step {l' = l'} added ran a r s t) =
      sym (append_assoc (outstanding l) added a)
      ∙ ap (λ x. x ++ a) (Steps-outstanding s)
      ∙ append_assoc ran (outstanding l') a
      ∙ ap (λ x. ran ++ x) (step-outstanding t)
      ∙ sym (append_assoc ran r (outstanding l''))

  drains :
      (fs : List F) (l0 l : EventLoop F) (ran : List F)
      → Steps l0 [] ran l
      → l.place ≡ calling fs
      → Steps l0 [] (ran ++ fs) (all_called l)
  unfolding called all_called
  drains [] l0 l ran s e = then_step [] ran [] [] s (calls_end e)
  drains (f ∷ fs) l0 l ran s e =
      subst (λ x. Steps l0 [] x (all_called l)) (append_assoc ran (f ∷ []) fs)
        (drains fs l0 (called fs l) (ran ++ (f ∷ []))
          (then_step [] ran [] (f ∷ []) s (calls f fs e)) refl)

  -- The round of `Run` behind a wait, when no other goroutine comes in.
  abbrev pub round : EventLoop F → EventLoop F
  round l = record l { functions = []; place = if l.running then waiting else ended }

  -- From its wait the loop can always go on by itself until it waits again or has ended, and has then
  -- called every function that was in the queue, in order, and none else.
  pub round-Steps : (l : EventLoop F) → l.place ≡ waiting → Steps l [] l.functions (round l)
  unfolding take_functions all_called test_running
  round-Steps l e =
      subst (λ x. Steps l [] x (round l)) (append-nil l.functions)
        (then_step [] l.functions [] []
          (drains l.functions l (take_functions l) [] (then_step [] [] [] [] none_yet (takes e))
            refl)
          (tests refl))

  -- A function that is added behind the taking of the queue, and a call of `Stop` there.
  abbrev pub too_late : F → EventLoop F → EventLoop F
  too_late f l = record l { functions = f ∷ []; running = false; place = ended }

  -- On a loop that runs and is in its wait, there is an interleaving with one call of `RunInLoop` and one
  -- of `Stop` after which `Run` has ended, what was in the queue has been called, in order, and the
  -- function handed to `RunInLoop` has not and stands in the queue.
  pub late-Steps :
      (f : F) (l : EventLoop F)
      → l.place ≡ waiting
      → l.running ≡ true
      → Steps l (f ∷ []) l.functions (too_late f l)
  unfolding take_functions run_in_loop all_called test_running stop
  late-Steps f l e b =
      let fs = l.functions in
      let emptied =
        drains l.functions l (take_functions l) [] (then_step [] [] [] [] none_yet (takes e))
          refl in
      let added = then_step [] fs (f ∷ []) [] emptied (adds f) in
      let stopped = then_step (f ∷ []) (fs ++ []) [] [] added stops in
      let over = then_step (f ∷ []) ((fs ++ []) ++ []) [] [] stopped (tests (rw b)) in
      let last : test_running (stop (run_in_loop f (all_called (take_functions l)))).1
          ≡ too_late f l =
        rw b in
      subst (λ x. Steps l (f ∷ []) x (too_late f l))
        (ap (λ x. (x ++ []) ++ []) (append-nil fs)
          ∙ ap (λ x. x ++ []) (append-nil fs)
          ∙ append-nil fs)
        (subst (Steps l (f ∷ []) (((fs ++ []) ++ []) ++ [])) last over)
