-- ===== src/UnitTests/Cases.antt =====
-- The test cases of unit-tests/: what they share.
pub mod MotorCases
pub mod SmCases
pub mod HsmCases
pub mod AlarmCases
pub mod AsyncCases
use active_fsm.Base.{ℕ, suc, Bool, List, [], ◌∷◌, ◌==◌}
use active_fsm.Outcome.{
  M, Outcome, done, faulted, unfinished, and_then, test_failed, assert, get, modify, ◌>>=◌,
}
use active_fsm.StateMachine.{Machine, Context}
use active_fsm.StateMachine.Observed.{Signal, transition, entered, exited, could_not_happen}
use active_fsm.StateMachine.Object.{Object}

-- The variables that the observers of the cases write; each case connects those that it looks at. The
-- lists have the newest state first.
pub record Tally : Type 0 where
  pub captured_from : ℕ
  pub captured_to : ℕ
  pub transition_count : ℕ
  pub entered_states : List ℕ
  pub exited_states : List ℕ

abbrev pub new_tally : Tally
new_tally = record {
  captured_from = 0xFF;
  captured_to = 0xFF;
  transition_count = 0;
  entered_states = [];
  exited_states = [];
}

abbrev pub tally : Signal → Tally → Tally
tally (transition f t) u = record u {
  captured_from = f;
  captured_to = t;
  transition_count = suc u.transition_count;
}
tally (entered s) u = record u { entered_states = s ∷ u.entered_states }
tally (exited s) u = record u { exited_states = s ∷ u.exited_states }
tally (could_not_happen s) u = u

-- `DMQ_ASSERT_TRUE` in a case
abbrev pub expect : {S : Type 0} → Bool → M S (Unit {0})
expect b = assert b test_failed

-- `GetCurrentState() == s`
abbrev pub expect_state : {D U : Type 0} → ℕ → M (Machine D U) (Unit {0})
expect_state s = do m ← get; expect (m.current_state == s)

module _ {D O : Type 0} where
  abbrev pub expect_tally : (Tally → Bool) → M (Machine D (Object O Tally)) (Unit {0})
  expect_tally test = do m ← get; expect (test m.object.seen)

  abbrev pub expect_own : (O → Bool) → M (Machine D (Object O Tally)) (Unit {0})
  expect_own test = do m ← get; expect (test m.object.own)

  -- The variables of a case start when it connects its observers.
  abbrev pub connect : M (Machine D (Object O Tally)) (Unit {0})
  connect = modify λ m. record m { object = record { own = m.object.own; seen = new_tally } }
