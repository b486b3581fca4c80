-- ===== src/Examples/SelfTest.antt =====
-- examples/SelfTest.h and examples/SelfTest.cpp: the states that other self tests inherit. Its state
-- functions post an event or none, and print. `O` is the object of the derived test.
use active_fsm.Base.{ℕ, none, [], ◌∷◌}
use active_fsm.Outcome.{M, pure}
use active_fsm.StateMachine.{
  Machine, StateFunction, EntryFunction, Context, event_ignored, cannot_happen,
}
use active_fsm.StateMachine.Events.{
  internal_event, begin_transition_map, end_transition_map, parent_transition,
}

-- `enum States`
abbrev pub st_idle : ℕ
st_idle = 0

abbrev pub st_completed : ℕ
st_completed = 1

abbrev pub st_failed : ℕ
st_failed = 2

abbrev pub st_max_states : ℕ
st_max_states = 3

module _ {D U : Type 0} where
  unfoldable pub idle : StateFunction D U
  idle d = pure tt

  unfoldable pub entry_idle : EntryFunction D U
  entry_idle d = pure tt

module _ {D U : Type 0} (c : Context D U) where
  unfoldable pub completed : StateFunction D U
  completed d = internal_event c st_idle none

  unfoldable pub failed : StateFunction D U
  failed d = internal_event c st_idle none

  -- `SelfTest::Cancel`. The test of `PARENT_TRANSITION` comes before the call is handed over.
  unfoldable pub cancel :
      M (Machine D U) (Unit {0}) → (ℕ → M (Machine D U) (Unit {0})) → M (Machine D U) (Unit {0})
  cancel engine repost = parent_transition c engine st_max_states st_failed (
      begin_transition_map c repost (
        end_transition_map c engine (event_ignored ∷ cannot_happen ∷ cannot_happen ∷ [])
          st_max_states none))
