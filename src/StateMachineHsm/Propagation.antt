-- ===== src/StateMachineHsm/Propagation.antt =====
-- state-machine/StateMachineHSM.h: the macro `END_TRANSITION_MAP_HSM`.
use active_fsm.Base.{ℕ, zero, suc, Option, List, leb, ltb, ◌==◌, if◌then◌else◌}
use active_fsm.Outcome.{M, unfinished, invalid_current_state, ◌>>=◌, ◌>>◌, pure, get, assert, read}
use active_fsm.StateMachine.{Machine, Context, event_ignored}
use active_fsm.StateMachine.Events.{external_event}
use active_fsm.StateMachineHsm.{StateMapRowHsm, propagate_to_parent}

module _ {D U : Type 0} (state_map : List (StateMapRowHsm D U)) (transitions : List ℕ)
    (st_max_states : ℕ) where
  -- `while (_resolved == PROPAGATE_TO_PARENT)`, on fuel; `state` is where `resolved` was read.
  unfoldable pub resolve_from : ℕ → ℕ → ℕ → M (Machine D U) ℕ
  resolve_from zero state resolved =
      if resolved == propagate_to_parent then (λ _. unfinished) else pure resolved
  resolve_from (suc fuel) state resolved =
      let climb =
        (read state_map state >>= λ row.
        if leb st_max_states row.parent_state
        then pure event_ignored
        else (read transitions row.parent_state >>= λ next.
            resolve_from fuel row.parent_state next)) in
      if resolved == propagate_to_parent then climb else pure resolved

  unfoldable pub resolve : ℕ → ℕ → M (Machine D U) ℕ
  resolve fuel state = do first ← read transitions state; resolve_from fuel state first

-- `END_TRANSITION_MAP_HSM`
unfoldable pub end_transition_map_hsm :
    {D U : Type 0}
    → Context D U
    → M (Machine D U) (Unit {0})
    → List (StateMapRowHsm D U)
    → ℕ
    → List ℕ
    → ℕ
    → Option D
    → M (Machine D U) (Unit {0})
end_transition_map_hsm c engine state_map fuel transitions st_max_states d = do
  m ← get
  assert (ltb m.current_state st_max_states) invalid_current_state
  target ← resolve state_map transitions st_max_states fuel m.current_state
  external_event c engine target d
