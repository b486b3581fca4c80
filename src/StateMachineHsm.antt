-- ===== src/StateMachineHsm.antt =====
-- state-machine/StateMachineHSM.h: the rows of a hierarchical state map. The children hold the
-- operations of state-machine/StateMachineHSM.cpp and what is proved of them.
pub mod Ancestors
pub mod Engine
pub mod Propagation
pub mod Chain
pub mod Lca
pub mod Cycles
pub mod Walks
pub mod Transition
pub mod Handlers
pub mod Spec
pub mod Refinement
pub mod Termination
pub mod Bounds
pub mod RoundTrip
pub mod AnyMap
use active_fsm.Base.{ℕ, Option, none, some, List, get_elem?}
use active_fsm.Outcome.{Result, ok, err, undefined}
use active_fsm.StateMachine.{StateFunction, GuardFunction, EntryFunction, ExitFunction}

abbrev pub no_parent : ℕ
no_parent = 0xFD

abbrev pub propagate_to_parent : ℕ
propagate_to_parent = 0xFC

abbrev pub max_hsm_depth : ℕ
max_hsm_depth = 32

pub record StateMapRowHsm (D U : Type 0) : Type 0 where
  pub state : Option (StateFunction D U)
  pub guard : Option (GuardFunction D U)
  pub entry : Option (EntryFunction D U)
  pub exit : Option (ExitFunction D U)
  pub parent_state : ℕ  -- uint8_t

module _ {D U : Type 0} where
  -- The parent column of a row that is there
  abbrev pub parent_of_row : Option (StateMapRowHsm D U) → Result ℕ
  parent_of_row none = err undefined
  parent_of_row (some row) = ok row.parent_state

  -- `map[s].ParentState`
  abbrev pub parent_of : List (StateMapRowHsm D U) → ℕ → Result ℕ
  parent_of state_map s = parent_of_row (get_elem? state_map s)
