-- ===== src/Witnesses/Flat.antt =====
-- Tests and instances for a flat machine with two states: the first posts an event for the second
-- when it acts, and the second has a guard, and entry and exit functions that count.
use active_fsm.Base.{
  ℕ, zero, suc, ◌<◌, true, none, some, List, [], ◌∷◌, ◌≡◌, refl, sym, ltb, get_elem?, arith,
}
use active_fsm.Outcome.{done}
use active_fsm.StateMachine.{Machine, Context, StateMapRowEx}
use active_fsm.StateMachine.Engine.{
  run_events, turn_ex, state_engine, take_transition, change_state, invoke_guard_condition,
  invoke_entry_action, invoke_exit_action, invoke_state_action,
}
use active_fsm.StateMachine.Events.{
  external_event, external_event_impl, internal_event, is_on_state_machine_thread,
}
use active_fsm.StateMachine.Observed.{Signal, observed, Actions, row_of}
use active_fsm.StateMachine.Spec.{Config, respond, respond_all}
use active_fsm.StateMachine.Rounds.{at_rest, machine_of, outcome_of, InRange}
use active_fsm.StateMachine.Refinement.{run_events-refines, PostsBelow}
use active_fsm.StateMachine.Termination.{PostsFall, external_event-rests}
use active_fsm.Witnesses.{thread_7}

-- The object: how often each function was called
pub record Counts : Type 0 where
  pub acted : ℕ
  pub entered : ℕ
  pub exited : ℕ

abbrev rows : ℕ → Actions (Unit {0}) Counts
rows zero = record {
  act = λ d u. (record u { acted = suc u.acted }, some (1, none));
  guard = none;
  entry = none;
  exit = some λ u. record u { exited = suc u.exited };
}
rows (suc _) = record {
  act = λ d u. (record u { acted = suc u.acted }, none);
  guard = some λ d u. (ltb u.acted 3, u);
  entry = some λ d u. record u { entered = suc u.entered };
  exit = none;
}

abbrev ignore : Signal → Counts → Counts
ignore x u = u

abbrev c : Context (Unit {0}) Counts
c = observed 2 tt ignore thread_7

abbrev state_map : List (StateMapRowEx (Unit {0}) Counts)
state_map = row_of c (rows 0) ∷ row_of c (rows 1) ∷ []

state_map-filled : (s : ℕ) → s < 2 → get_elem? state_map s ≡ some (row_of c (rows s))
state_map-filled zero h = refl
state_map-filled (suc zero) h = refl
state_map-filled (suc (suc s)) h = absurd (omega arith)

rows-PostsBelow : PostsBelow 2 rows
rows-PostsBelow zero d u t e h = let q : 1 ≡ t = cc in omega arith
rows-PostsBelow (suc s) d u t e h = cc

-- In state 1, with an event for state 0
abbrev two_turns : Config (Unit {0}) Counts
two_turns = record {
  state = 1;
  object = record { acted = 0; entered = 0; exited = 0 };
  event = some (0, none);
}

two_turns-InRange : InRange 2 two_turns
two_turns-InRange = (omega arith, λ t d h. let q : 0 ≡ t = cc in omega arith)

run_events-refines_example :
    run_events (turn_ex c state_map) 2 (machine_of tt 0 none two_turns)
    ≡ outcome_of tt none (respond_all tt (respond rows ignore) 2 0 two_turns)
run_events-refines_example =
    run_events-refines 2 tt ignore thread_7 rows state_map state_map-filled rows-PostsBelow 2 0 none
      two_turns two_turns-InRange

abbrev TestMachine : Type 0
TestMachine = Machine (Unit {0}) Counts

-- The machine of `two_turns`, and what it is after each turn
abbrev start : TestMachine
start = machine_of tt 0 none two_turns

abbrev first : TestMachine
first = machine_of tt 0 none (record {
  state = 0;
  object = record { acted = 1; entered = 0; exited = 0 };
  event = some (1, none);
})

abbrev second : TestMachine
second =
    machine_of tt 1 none
      (record { state = 1; object = record { acted = 2; entered = 1; exited = 1 }; event = none })

turn_first : turn_ex c state_map start ≡ done tt first
unfolding turn_ex take_transition change_state invoke_guard_condition invoke_entry_action
    invoke_exit_action invoke_state_action internal_event
turn_first = refl

turn_second : turn_ex c state_map first ≡ done tt second
unfolding turn_ex take_transition change_state invoke_guard_condition invoke_entry_action
    invoke_exit_action invoke_state_action internal_event
turn_second = refl

two_turns_run : run_events (turn_ex c state_map) 2 start ≡ done tt second
unfolding run_events
two_turns_run = rw (turn_first, turn_second)

-- At rest in state 1
abbrev rest : TestMachine
rest =
    machine_of tt 1 none
      (record { state = 1; object = record { acted = 0; entered = 0; exited = 0 }; event = none })

rest_run : external_event c (state_engine c none (some state_map) 2) 0 none rest ≡ done tt second
unfolding external_event external_event_impl internal_event is_on_state_machine_thread state_engine
rest_run = two_turns_run

rest_on_thread : is_on_state_machine_thread c none ≡ true
unfolding is_on_state_machine_thread
rest_on_thread = refl

-- State 0 posts an event for state 1, which posts none.
abbrev rank : ℕ → ℕ
rank zero = 1
rank (suc _) = 0

rows-PostsFall : PostsFall rank rows
rows-PostsFall zero d u t e h = let q : 1 ≡ t = cc in rw (sym q) (omega arith)
rows-PostsFall (suc s) d u t e h = cc

external_event-rests_example :
    (n' : ℕ) × (s' : ℕ) × (u' : Counts) × (external_event c
        (state_engine c none (some state_map) 2)
        0
        none
        (at_rest 1 none 1 (record { acted = 0; entered = 0; exited = 0 }))
      ≡ done tt (at_rest n' none s' u'))
    × (s' < 2)
external_event-rests_example =
    external_event-rests 2 tt ignore thread_7 rows state_map state_map-filled rows-PostsBelow rank
      rows-PostsFall 2 1 1 0 none none (record { acted = 0; entered = 0; exited = 0 }) (omega arith)
      (omega arith) (omega arith) rest_on_thread (omega arith)
