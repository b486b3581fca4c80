-- ===== src/Witnesses/Bounds.antt =====
-- Instances for the bounds on the states. `nested` is a state function that calls `ExternalEvent` of
-- its own machine; the hierarchical map has a parent column that goes round and past the last state.
use active_fsm.Base.{ℕ, suc, none, some, List, [], ◌∷◌, arith}
use active_fsm.Outcome.{pure}
use active_fsm.StateMachine.{Machine, Context, StateFunction, StateMapRowEx}
use active_fsm.StateMachine.Engine.{state_engine}
use active_fsm.StateMachine.Events.{external_event, internal_event}
use active_fsm.StateMachine.Observed.{Signal, observed}
use active_fsm.StateMachine.Object.{entry_ex}
use active_fsm.StateMachine.Rounds.{at_rest}
use active_fsm.StateMachine.Bounds.{
  EndsBelow, Rows, Rows-nil, Rows-cons, KeepsState, RowKeeps, ContextKeeps,
}
use active_fsm.StateMachine.Bounds.Engines.{external_event-EndsBelow}
use active_fsm.StateMachineHsm.{StateMapRowHsm}
use active_fsm.StateMachineHsm.Engine.{state_engine_hsm}
use active_fsm.StateMachineHsm.Bounds.{RowKeepsHsm, external_event-EndsBelow_hsm}
use active_fsm.Witnesses.{thread_7}

abbrev counting : Context (Unit {0}) ℕ
counting = observed 2 tt (λ (x : Signal) u. suc u) thread_7

counting-ContextKeeps : ContextKeeps counting
counting-ContextKeeps = record {
  on_transition = λ f t m h. h;
  on_entry = λ s m h. h;
  on_exit = λ s m h. h;
  on_cannot_happen = λ s m h. h;
  post = λ thread t d m h. h;
}

abbrev resting_state : StateFunction (Unit {0}) ℕ
resting_state d = pure tt

posting : StateFunction (Unit {0}) ℕ
posting d = internal_event counting 1 none

posting-KeepsState : KeepsState 2 posting
unfolding posting internal_event
posting-KeepsState d m h = (h.0, omega arith)

entry_ex-RowKeeps : (f : StateFunction (Unit {0}) ℕ) → KeepsState 2 f → RowKeeps 2 (entry_ex f)
entry_ex-RowKeeps f k = record { state = k; guard = tt; entry = tt; exit = tt }

pair-Rows :
    {R : Type 0} (P : R → Type 0) (first second : R)
    → P first
    → P second
    → Rows P (first ∷ second ∷ [])
pair-Rows P first second p q =
    Rows-cons P first (second ∷ []) p (Rows-cons P second [] q (Rows-nil P))

abbrev inner : List (StateMapRowEx (Unit {0}) ℕ)
inner = entry_ex posting ∷ entry_ex resting_state ∷ []

nested : StateFunction (Unit {0}) ℕ
nested d = external_event counting (state_engine counting none (some inner) 3) 0 none

inner-Rows : Rows (RowKeeps 2) inner
inner-Rows =
    pair-Rows (RowKeeps 2) _ _ (entry_ex-RowKeeps posting posting-KeepsState)
      (entry_ex-RowKeeps resting_state (λ d m h. h))

nested-KeepsState : KeepsState 2 nested
unfolding nested
nested-KeepsState d m h =
    external_event-EndsBelow counting counting-ContextKeeps none (some inner) 3 0 none m
      (tt, inner-Rows) h

abbrev outer : List (StateMapRowEx (Unit {0}) ℕ)
outer = entry_ex resting_state ∷ entry_ex nested ∷ []

outer-Rows : Rows (RowKeeps 2) outer
outer-Rows =
    pair-Rows (RowKeeps 2) _ _ (entry_ex-RowKeeps resting_state (λ d m h. h))
      (entry_ex-RowKeeps nested nested-KeepsState)

abbrev idle : Machine (Unit {0}) ℕ
idle = at_rest 0 (some 7) 0 0

external_event-EndsBelow_example :
    EndsBelow 2 (external_event counting (state_engine counting none (some outer) 3) 1 none idle)
external_event-EndsBelow_example =
    external_event-EndsBelow counting counting-ContextKeeps none (some outer) 3 1 none idle
      (tt, outer-Rows) (omega arith, omega arith)

abbrev row : ℕ → StateMapRowHsm (Unit {0}) ℕ
row parent = record {
  state = some posting;
  guard = none;
  entry = none;
  exit = none;
  parent_state = parent;
}

abbrev crooked : List (StateMapRowHsm (Unit {0}) ℕ)
crooked = row 0 ∷ row 77 ∷ []

row-RowKeepsHsm : (parent : ℕ) → RowKeepsHsm 2 (row parent)
row-RowKeepsHsm parent = record { state = posting-KeepsState; guard = tt; entry = tt; exit = tt }

crooked-Rows : Rows (RowKeepsHsm 2) crooked
crooked-Rows = pair-Rows (RowKeepsHsm 2) _ _ (row-RowKeepsHsm 0) (row-RowKeepsHsm 77)

external_event-EndsBelow_hsm_example :
    EndsBelow 2 (external_event counting (state_engine_hsm counting (some crooked) 3) 1 none idle)
external_event-EndsBelow_hsm_example =
    external_event-EndsBelow_hsm counting counting-ContextKeeps crooked crooked-Rows 3 1 none idle
      (omega arith, omega arith)
