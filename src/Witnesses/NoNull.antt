-- ===== src/Witnesses/NoNull.antt =====
-- An instance for null pointers to data: state 1 has a guard and an entry function, and state 0 posts an
-- event for it with a null pointer.
use active_fsm.Base.{ℕ, suc, true, none, some, List, [], ◌∷◌}
use active_fsm.Outcome.{M, pure, modify}
use active_fsm.StateMachine.{Machine, Context, StateMapRowEx}
use active_fsm.StateMachine.Engine.{state_engine}
use active_fsm.StateMachine.Events.{external_event, internal_event}
use active_fsm.StateMachine.Observed.{Signal, observed}
use active_fsm.StateMachine.Object.{entry_ex}
use active_fsm.StateMachine.Rounds.{at_rest}
use active_fsm.StateMachine.Bounds.{Rows, Rows-nil, Rows-cons}
use active_fsm.StateMachine.NoNull.{
  HasData, EndsWithData, ContextKeepsData, RowKeepsData, internal_event-KeepsData,
}
use active_fsm.StateMachine.NoNull.Engines.{external_event-EndsWithData}
use active_fsm.Witnesses.{thread_7}

abbrev c : Context (Unit {0}) ℕ
c = observed 2 tt (λ (x : Signal) u. suc u) thread_7

abbrev count : M (Machine (Unit {0}) ℕ) (Unit {0})
count = modify λ m. record m { object = suc m.object }

abbrev posting : StateMapRowEx (Unit {0}) ℕ
posting = entry_ex (λ d. internal_event c 1 none)

abbrev counting : StateMapRowEx (Unit {0}) ℕ
counting = record {
  state = some (λ d. pure tt);
  guard = some (λ d. pure true);
  entry = some (λ d. count);
  exit = none;
}

abbrev state_map : List (StateMapRowEx (Unit {0}) ℕ)
state_map = posting ∷ counting ∷ []

c-ContextKeepsData : ContextKeepsData c
c-ContextKeepsData = record {
  on_transition = λ f t m h. h;
  on_entry = λ s m h. h;
  on_exit = λ s m h. h;
  on_cannot_happen = λ s m h. h;
  post = λ thread t d m h. h;
}

state_map-Rows : Rows RowKeepsData state_map
state_map-Rows =
    Rows-cons RowKeepsData posting (counting ∷ [])
      (record { state = λ d. internal_event-KeepsData c 1 none; guard = tt; entry = tt; exit = tt })
      (Rows-cons RowKeepsData counting []
        (record { state = λ d m h. h; guard = λ d m h. h; entry = λ d m h. h; exit = tt })
        (Rows-nil RowKeepsData))

abbrev idle : Machine (Unit {0}) ℕ
idle = at_rest 1 (some 7) 1 0

idle-HasData : HasData idle
idle-HasData g = cc

external_event-EndsWithData_example :
    EndsWithData (external_event c (state_engine c none (some state_map) 3) 0 none idle)
external_event-EndsWithData_example =
    external_event-EndsWithData c c-ContextKeepsData none (some state_map) 3 0 none idle
      (tt, state_map-Rows) idle-HasData
