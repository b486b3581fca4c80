-- ===== src/StateMachine/Dispatch.antt =====
-- `ExternalEvent` of state-machine/StateMachine.cpp and the macros of state-machine/StateMachine.h
-- over all their branches, whatever the states, the observers and the thread library do.
use active_fsm.Base.{ℕ, true, false, Option, some, ◌≡◌, ◌≢◌, refl, ==_ne}
use active_fsm.Outcome.{M, cannot_happen_event, and_then-fault, done}
use active_fsm.StateMachine.{Machine, Context, event_ignored, cannot_happen}
use active_fsm.StateMachine.Events.{external_event, external_event_impl, is_on_state_machine_thread}

module _ {D U : Type 0} (c : Context D U) (engine : M (Machine D U) (Unit {0})) where
  external_event-ignored :
      (d : Option D) (m : Machine D U) → external_event c engine event_ignored d m ≡ done tt m
  unfolding external_event
  external_event-ignored d m = refl

  -- `ExternalEvent` with `CANNOT_HAPPEN` never returns, whatever `OnCannotHappen` does.
  external_event-never_done :
      (d : Option D) (m : Machine D U) {m' : Machine D U}
      → external_event c engine cannot_happen d m ≢ done tt m'
  unfolding external_event
  external_event-never_done d m h =
      and_then-fault (c.on_cannot_happen m.current_state m) cannot_happen_event _ h

  pub external_event-target :
      (t : ℕ) (d : Option D) (m : Machine D U)
      → t ≢ event_ignored
      → t ≢ cannot_happen
      → is_on_state_machine_thread c m.thread ≡ true
      → external_event c engine t d m ≡ external_event_impl c engine t d m
  unfolding external_event
  external_event-target t d m a b on = rw (==_ne t event_ignored a, ==_ne t cannot_happen b, on)

  -- Off the machine's thread an event for a state does no more than hand that event to the thread:
  -- the state engine is not called.
  external_event-posts :
      (t : ℕ) (d : Option D) (m : Machine D U) (thread : ℕ)
      → t ≢ event_ignored
      → t ≢ cannot_happen
      → m.thread ≡ some thread
      → c.is_current_thread thread ≡ false
      → external_event c engine t d m ≡ c.post thread t d m
  unfolding external_event is_on_state_machine_thread
  external_event-posts t d m thread a b e off =
      rw (==_ne t event_ignored a, ==_ne t cannot_happen b, e, off)
