-- ===== src/StateMachine.antt =====
-- state-machine/StateMachine.h: the data of a state machine, and the rows of its state maps.
-- The children hold the operations of state-machine/StateMachine.cpp and the macros.
pub mod Engine
pub mod Events
pub mod Loop
pub mod Observed
pub mod Spec
pub mod Rounds
pub mod Refinement
pub mod PlainRefinement
pub mod Dispatch
pub mod Termination
pub mod NoNull
pub mod Object
pub mod Bounds
pub mod ActiveObject
use active_fsm.Base.{ℕ, Bool, true, false, Option, none, some, List}
use active_fsm.Outcome.{M}

-- Target states that a transition map uses for "do nothing" and "assert" (`enum` of the class).
abbrev pub event_ignored : ℕ
event_ignored = 0xFE

abbrev pub cannot_happen : ℕ
cannot_happen = 0xFF

-- `D` is the event data: a value is an object of `EventData` or of a class below it. `U` is the
-- object of the derived class, with all else that its functions, the observers and the queues of
-- the threads reach. A thread is known by a number.
pub record Machine (D U : Type 0) : Type 0 where
  pub current_state : ℕ  -- uint8_t
  pub new_state : ℕ  -- uint8_t
  pub event_generated : Bool
  pub event_data : Option D  -- `none` is the null pointer
  pub thread : Option ℕ  -- `none`: synchronous mode
  pub object : U

-- The member functions that a state map row points to. `DMQ_ASSERT_TRUE` in the wrappers of guard
-- and entry keeps the null pointer from those two.
abbrev pub StateFunction : Type 0 → Type 0 → Type 0
StateFunction D U = Option D → M (Machine D U) (Unit {0})

abbrev pub GuardFunction : Type 0 → Type 0 → Type 0
GuardFunction D U = D → M (Machine D U) Bool

abbrev pub EntryFunction : Type 0 → Type 0 → Type 0
EntryFunction D U = D → M (Machine D U) (Unit {0})

abbrev pub ExitFunction : Type 0 → Type 0 → Type 0
ExitFunction D U = M (Machine D U) (Unit {0})

-- A pointer in a row may be null.
pub record StateMapRow (D U : Type 0) : Type 0 where
  pub state : Option (StateFunction D U)

pub record StateMapRowEx (D U : Type 0) : Type 0 where
  pub state : Option (StateFunction D U)
  pub guard : Option (GuardFunction D U)
  pub entry : Option (EntryFunction D U)
  pub exit : Option (ExitFunction D U)

-- What is fixed for a machine: its number of states, `NoEventData`, what its observers do when a
-- signal fires, and, of the thread library, whether a thread is the one that is running and how a
-- call of `ExternalEventImpl` is handed to a thread.
pub record Context (D U : Type 0) : Type 0 where
  pub max_states : ℕ  -- uint8_t
  pub no_event_data : D
  pub on_transition : ℕ → ℕ → M (Machine D U) (Unit {0})
  pub on_entry : ℕ → M (Machine D U) (Unit {0})
  pub on_exit : ℕ → M (Machine D U) (Unit {0})
  pub on_cannot_happen : ℕ → M (Machine D U) (Unit {0})
  pub is_current_thread : ℕ → Bool
  pub post : ℕ → ℕ → Option D → M (Machine D U) (Unit {0})
