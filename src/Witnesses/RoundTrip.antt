-- ===== src/Witnesses/RoundTrip.antt =====
-- An instance of a change of state and the change back: state 2 lies below state 1, and the functions
-- count how many states the machine is in.
use active_fsm.Base.{
  ℕ, zero, suc, ◌<◌, ℤ, pos, negsuc, increment, decrement, none, some, List, [], ◌∷◌, ◌≡◌, refl,
  get_elem?, arith,
}
use active_fsm.Outcome.{done}
use active_fsm.StateMachine.{Context}
use active_fsm.StateMachine.Observed.{Signal, observed, Actions}
use active_fsm.StateMachine.Rounds.{at_rest}
use active_fsm.StateMachineHsm.{StateMapRowHsm, no_parent}
use active_fsm.StateMachineHsm.Engine.{change_state_hsm}
use active_fsm.StateMachineHsm.Chain.{top, up}
use active_fsm.StateMachineHsm.Refinement.{row_of_hsm}
use active_fsm.StateMachineHsm.RoundTrip.{change_state_hsm-back}
use active_fsm.Witnesses.{thread_7}

abbrev rows : ℕ → Actions (Unit {0}) ℤ
rows s = record {
  act = λ d u. (u, none);
  guard = none;
  entry = some λ d u. increment u;
  exit = some decrement;
}

abbrev parents : ℕ → ℕ
parents (suc (suc zero)) = 1
parents _ = no_parent

abbrev ignore : Signal → ℤ → ℤ
ignore x u = u

abbrev c : Context (Unit {0}) ℤ
c = observed 3 tt ignore thread_7

abbrev row : ℕ → StateMapRowHsm (Unit {0}) ℤ
row = row_of_hsm c rows parents

abbrev state_map : List (StateMapRowHsm (Unit {0}) ℤ)
state_map = row 0 ∷ row 1 ∷ row 2 ∷ []

state_map-filled : (s : ℕ) → s < 3 → get_elem? state_map s ≡ some (row s)
state_map-filled zero h = refl
state_map-filled (suc zero) h = refl
state_map-filled (suc (suc zero)) h = refl
state_map-filled (suc (suc (suc s))) h = absurd (omega arith)

decrement-increment : (x : ℤ) → decrement (increment x) ≡ x
decrement-increment (pos n) = refl
decrement-increment (negsuc zero) = refl
decrement-increment (negsuc (suc n)) = refl

increment-decrement : (x : ℤ) → increment (decrement x) ≡ x
increment-decrement (pos zero) = refl
increment-decrement (pos (suc n)) = refl
increment-decrement (negsuc n) = refl

change_state_hsm-back_example :
    (u' : ℤ) × (change_state_hsm c state_map 0 2 (some tt) (at_rest 2 none 0 (pos 1))
      ≡ done tt (at_rest 2 none 2 u'))
    × (change_state_hsm c state_map 2 0 (some tt) (at_rest 0 none 2 u')
        ≡ done tt (at_rest 0 none 0 (pos 1)))
change_state_hsm-back_example =
    change_state_hsm-back 3 tt ignore thread_7 rows parents state_map state_map-filled none tt tt
      (pos 1) (up (omega arith) refl (top (omega arith)))
      (up (omega arith) refl (up (omega arith) refl (top (omega arith)))) (omega arith)
      (omega arith) (λ x v h. decrement-increment v) (λ x v h. increment-decrement v)
