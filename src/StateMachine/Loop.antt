-- ===== src/StateMachine/Loop.antt =====
-- The loop `while (m_eventGenerated)` that the engines of state-machine/StateMachine.cpp and
-- state-machine/StateMachineHSM.cpp share, round by round.
use active_fsm.Base.{ℕ, zero, suc, true, false, ◌≡◌, arith}
use active_fsm.Outcome.{M, done, unfinished, and_then}
use active_fsm.StateMachine.{Machine}
use active_fsm.StateMachine.Engine.{run_events}

module _ {D U : Type 0} (turn : M (Machine D U) (Unit {0})) where
  -- One round of the loop, as an equation
  pub run_events-pending :
      (fuel : ℕ) (m : Machine D U)
      → m.event_generated ≡ true
      → run_events turn (suc fuel) m ≡ and_then (turn m) (λ _. run_events turn fuel)
  unfolding run_events
  run_events-pending fuel m h = ground arith

  pub run_events-idle :
      (fuel : ℕ) (m : Machine D U) → m.event_generated ≡ false → run_events turn fuel m ≡ done tt m
  unfolding run_events
  run_events-idle zero m h = ground arith
  run_events-idle (suc fuel) m h = ground arith

  pub run_events-stops :
      (m : Machine D U) → m.event_generated ≡ true → run_events turn zero m ≡ unfinished
  unfolding run_events
  run_events-stops m h = ground arith
