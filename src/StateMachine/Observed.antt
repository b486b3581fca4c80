-- ===== src/StateMachine/Observed.antt =====
-- Machines whose functions and observers leave the machine's own fields alone: what the derived
-- classes of examples/ and unit-tests/ are. A state function may end with one `InternalEvent`.
use active_fsm.Base.{ℕ, Bool, Option, none, some}
use active_fsm.Outcome.{M, done, ◌>>=◌, ◌>>◌, pure, get, modify}
use active_fsm.StateMachine.{
  Machine, StateFunction, GuardFunction, EntryFunction, ExitFunction, StateMapRowEx, Context,
}
use active_fsm.StateMachine.Events.{internal_event}

-- What an observer is told.
pub data Signal : Type 0 where
  transition : (from_state to_state : ℕ) → Signal
  entered : (state : ℕ) → Signal
  exited : (state : ℕ) → Signal
  could_not_happen : (state : ℕ) → Signal

-- The thread library: which thread is running, and the queue of calls handed to a thread.
pub record Threads (D U : Type 0) : Type 0 where
  pub is_current_thread : ℕ → Bool
  pub post : ℕ → ℕ → Option D → M (Machine D U) (Unit {0})

module _ {D U : Type 0} where
  abbrev pub modify_object : (U → U) → M (Machine D U) (Unit {0})
  modify_object f = modify λ m. record m { object = f m.object }

  -- Observers that do no more than change what they can reach of the object and of themselves.
  abbrev pub observed : ℕ → D → (Signal → U → U) → Threads D U → Context D U
  observed max_states no_event_data observe threads = record {
    max_states = max_states;
    no_event_data = no_event_data;
    on_transition = λ f t. modify_object (observe (transition f t));
    on_entry = λ s. modify_object (observe (entered s));
    on_exit = λ s. modify_object (observe (exited s));
    on_cannot_happen = λ s. modify_object (observe (could_not_happen s));
    is_current_thread = threads.is_current_thread;
    post = threads.post;
  }

-- The functions of one row, as functions on the object. A state function has the event that it
-- posts, if it posts one, beside the object.
pub record Actions (D U : Type 0) : Type 0 where
  pub act : Option D → U → U × Option (ℕ × Option D)
  pub guard : Option (D → U → Bool × U)
  pub entry : Option (D → U → U)
  pub exit : Option (U → U)

module _ {D U : Type 0} where
  abbrev pub guard_of : Option (D → U → Bool × U) → Option (GuardFunction D U)
  guard_of none = none
  guard_of (some g) = some λ d m. done (g d m.object).0 (record m { object = (g d m.object).1 })

  abbrev pub entry_of : Option (D → U → U) → Option (EntryFunction D U)
  entry_of none = none
  entry_of (some f) = some λ d. modify_object (f d)

  abbrev pub exit_of : Option (U → U) → Option (ExitFunction D U)
  exit_of none = none
  exit_of (some f) = some (modify_object f)

module _ {D U : Type 0} (c : Context D U) where
  abbrev pub raise : Option (ℕ × Option D) → M (Machine D U) (Unit {0})
  raise none = pure tt
  raise (some (t, d)) = internal_event c t d

  abbrev pub state_of : (Option D → U → U × Option (ℕ × Option D)) → StateFunction D U
  state_of act d = do m ← get; modify_object (λ _. (act d m.object).0); raise (act d m.object).1

  abbrev pub row_of : Actions D U → StateMapRowEx D U
  row_of a = record {
    state = some (state_of a.act);
    guard = guard_of a.guard;
    entry = entry_of a.entry;
    exit = exit_of a.exit;
  }
