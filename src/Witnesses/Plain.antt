-- ===== src/Witnesses/Plain.antt =====
-- Tests and instances for a machine with two states on a plain state map: the second posts an event
-- for the first.
use active_fsm.Base.{
  ℕ, zero, suc, ◌<◌, Option, none, some, List, [], ◌∷◌, ◌≡◌, refl, get_elem?, arith,
}
use active_fsm.StateMachine.{Context, StateMapRow}
use active_fsm.StateMachine.Engine.{run_events, turn}
use active_fsm.StateMachine.Observed.{Signal, observed, state_of}
use active_fsm.StateMachine.Spec.{Config, respond_plain, respond_all}
use active_fsm.StateMachine.Rounds.{machine_of, outcome_of, InRange}
use active_fsm.StateMachine.PlainRefinement.{run_events-refines_plain}
use active_fsm.Witnesses.{keep, thread_7}

-- The observers keep the signals; the functions change nothing.
abbrev acts : ℕ → Option (Unit {0}) → List Signal → List Signal × Option (ℕ × Option (Unit {0}))
acts zero d u = (u, none)
acts (suc _) d u = (u, some (0, none))

abbrev c : Context (Unit {0}) (List Signal)
c = observed 2 tt keep thread_7

abbrev row : ℕ → StateMapRow (Unit {0}) (List Signal)
row s = record { state = some (state_of c (acts s)) }

abbrev state_map : List (StateMapRow (Unit {0}) (List Signal))
state_map = row 0 ∷ row 1 ∷ []

state_map-filled : (s : ℕ) → s < 2 → get_elem? state_map s ≡ some (row s)
state_map-filled zero h = refl
state_map-filled (suc zero) h = refl
state_map-filled (suc (suc s)) h = absurd (omega arith)

acts_below :
    (s : ℕ) (d : Option (Unit {0})) (u : List Signal) (t : ℕ) (e : Option (Unit {0}))
    → (acts s d u).1 ≡ some (t, e)
    → t < 2
acts_below zero d u t e h = cc
acts_below (suc s) d u t e h = let q : 0 ≡ t = cc in omega arith

-- In state 0, with an event for state 1
abbrev two_turns : Config (Unit {0}) (List Signal)
two_turns = record { state = 0; object = []; event = some (1, none) }

two_turns-InRange : InRange 2 two_turns
two_turns-InRange = (omega arith, λ t d h. let q : 1 ≡ t = cc in omega arith)

run_events-refines_plain_example :
    run_events (turn c state_map) 2 (machine_of tt 0 none two_turns)
    ≡ outcome_of tt none (respond_all tt (respond_plain acts keep) 2 0 two_turns)
run_events-refines_plain_example =
    run_events-refines_plain 2 tt keep thread_7 acts state_map state_map-filled acts_below 2 0 none
      two_turns two_turns-InRange
