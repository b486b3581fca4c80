-- ===== src/StateMachine/NoNull.antt =====
-- `InternalEvent` of state-machine/StateMachine.cpp puts an object in the place of a null pointer, so that
-- the assertions on it in `GuardCondition` and `EntryAction` (state-machine/StateMachine.h) never fail.
pub mod Engines
use active_fsm.Base.{
  ℕ, zero, suc, Bool, true, false, not, Option, none, some, List, ◌≡◌, ◌≢◌, refl, sym, ◌∙◌, ltb,
  ◌==◌, if◌then◌else◌, get_elem?, Bool-cases, Option-cases, inl, inr, ==_cases, ==_ne,
}
use active_fsm.Outcome.{
  M, Outcome, Fault, done, faulted, unfinished, and_then, ◌>>=◌, read, or_fault, undefined, assert,
  fault, pure, null_event_data, null_state, event_from_entry_or_exit, invalid_new_state,
  cannot_happen_event, no_state_map,
}
use active_fsm.StateMachine.{
  Machine, Context, StateFunction, GuardFunction, EntryFunction, ExitFunction, StateMapRow,
  StateMapRowEx, event_ignored, cannot_happen,
}
use active_fsm.StateMachine.Engine.{
  run_events, set_current_state, turn, turn_ex, take_transition, change_state, state_engine,
  invoke_state_action, invoke_guard_condition, invoke_entry_action, invoke_exit_action,
}
use active_fsm.StateMachine.Loop.{run_events-pending, run_events-idle, run_events-stops}
use active_fsm.StateMachine.Events.{
  external_event, external_event_impl, internal_event, is_on_state_machine_thread,
}
use active_fsm.StateMachine.Bounds.{Each, Rows}

module _ {D U : Type 0} where
  -- An event that is pending has data.
  abbrev pub HasData : Machine D U → Type 0
  HasData m = m.event_generated ≡ true → (d : D) × (m.event_data ≡ some d)

  -- A call that returns leaves data with what is pending; one that faults does so for another reason than
  -- a null pointer to data.
  abbrev pub EndsWithData : {A : Type 0} → Outcome (Machine D U) A → Type 0
  EndsWithData (done a m) = HasData m
  EndsWithData (faulted e m) = e ≢ null_event_data
  EndsWithData unfinished = Unit {0}

  abbrev pub KeepsData : {A : Type 0} → M (Machine D U) A → Type 0
  KeepsData f = (m : Machine D U) → HasData m → EndsWithData (f m)

  pub and_then-EndsWithData :
      {A B : Type 0} (o : Outcome (Machine D U) A) (f : A → M (Machine D U) B)
      → EndsWithData o
      → ((a : A) → KeepsData (f a))
      → EndsWithData (and_then o f)
  and_then-EndsWithData (done a m) f h k = k a m h
  and_then-EndsWithData (faulted e m) f h k = h
  and_then-EndsWithData unfinished f h k = tt

  abbrev pub StateKeepsData : StateFunction D U → Type 0
  StateKeepsData f = (d : Option D) → KeepsData (f d)

  -- A guard or an entry function
  abbrev pub FunctionKeepsData : {A : Type 0} → (D → M (Machine D U) A) → Type 0
  FunctionKeepsData f = (d : D) → KeepsData (f d)

  pub record RowKeepsData (row : StateMapRowEx D U) : Type 0 where
    pub state : Each StateKeepsData row.state
    pub guard : Each FunctionKeepsData row.guard
    pub entry : Each FunctionKeepsData row.entry
    pub exit : Each KeepsData row.exit

  abbrev pub MapsKeepData :
      Option (List (StateMapRow D U)) → Option (List (StateMapRowEx D U)) → Type 0
  MapsKeepData rows rows_ex =
      Each (Rows (λ row. Each StateKeepsData row.state)) rows × Each (Rows RowKeepsData) rows_ex

  pub read-EndsWithData :
      {R B : Type 0} (rows : List R) (i : ℕ) (f : R → M (Machine D U) B) (m : Machine D U)
      → ((row : R) → get_elem? rows i ≡ some row → EndsWithData (f row m))
      → EndsWithData (and_then (read rows i m) f)
  read-EndsWithData rows i f m k = elim (Option-cases (get_elem? rows i)) [
    | inl e ↦ rw e (λ q. cc)
    | inr (row, e) ↦ rw e (k row e)
  ]

  pub if-KeepsData :
      (b : Bool) (f g : M (Machine D U) (Unit {0}))
      → KeepsData f
      → KeepsData g
      → KeepsData (if b then f else g)
  if-KeepsData true f g k l m h = k m h
  if-KeepsData false f g k l m h = l m h

  pub assert-KeepsData :
      (b : Bool) (e : Fault) → e ≢ null_event_data → KeepsData {A = Unit {0}} (assert b e)
  assert-KeepsData true e n m h = h
  assert-KeepsData false e n m h = n

  pub state-KeepsData :
      (f : Option (StateFunction D U)) (d : Option D)
      → Each StateKeepsData f
      → KeepsData (invoke_state_action f d)
  unfolding invoke_state_action
  state-KeepsData none d k m h = λ q. cc
  state-KeepsData (some f) d k m h = k d m h

  pub guard-KeepsData :
      (f : Option (GuardFunction D U)) (d : D)
      → Each FunctionKeepsData f
      → KeepsData (invoke_guard_condition f (some d))
  unfolding invoke_guard_condition
  guard-KeepsData none d k m h = h
  guard-KeepsData (some f) d k m h = k d m h

  pub entry-KeepsData :
      (f : Option (EntryFunction D U)) (d : D)
      → Each FunctionKeepsData f
      → KeepsData (invoke_entry_action f (some d))
  unfolding invoke_entry_action
  entry-KeepsData none d k m h = h
  entry-KeepsData (some f) d k m h = k d m h

  pub exit-KeepsData :
      (f : Option (ExitFunction D U)) → Each KeepsData f → KeepsData (invoke_exit_action f)
  unfolding invoke_exit_action
  exit-KeepsData none k m h = h
  exit-KeepsData (some f) k m h = k m h

  -- A turn of the loop, with an event pending
  abbrev pub TurnKeepsData : M (Machine D U) (Unit {0}) → Type 0
  TurnKeepsData f = (m : Machine D U) (d : D) → m.event_data ≡ some d → EndsWithData (f m)

  pub run_events-KeepsData :
      (next : M (Machine D U) (Unit {0}))
      → TurnKeepsData next
      → (fuel : ℕ) → KeepsData (run_events next fuel)
  run_events-KeepsData next k zero m h = elim (Bool-cases m.event_generated) [
    | inl more ↦ rw (run_events-stops next m more) tt
    | inr idle ↦ rw (run_events-idle next zero m idle) h
  ]
  run_events-KeepsData next k (suc fuel) m h = elim (Bool-cases m.event_generated) [
    | inl more ↦
        let (d, e) = h more in
        rw (run_events-pending next fuel m more) (
          and_then-EndsWithData (next m) (λ _. run_events next fuel) (k m d e)
            (λ _. run_events-KeepsData next k fuel))
    | inr idle ↦ rw (run_events-idle next (suc fuel) m idle) h
  ]

-- What the observers and the queues of the threads do
pub record ContextKeepsData {D U : Type 0} (c : Context D U) : Type 0 where
  pub on_transition : (f t : ℕ) → KeepsData (c.on_transition f t)
  pub on_entry : (s : ℕ) → KeepsData (c.on_entry s)
  pub on_exit : (s : ℕ) → KeepsData (c.on_exit s)
  pub on_cannot_happen : (s : ℕ) → KeepsData (c.on_cannot_happen s)
  pub post : (thread t : ℕ) (d : Option D) → KeepsData (c.post thread t d)

-- What `InternalEvent` leaves pending has data.
pub internal_event-KeepsData :
    {D U : Type 0} (c : Context D U) (t : ℕ) (d : Option D) → KeepsData (internal_event c t d)
unfolding internal_event
internal_event-KeepsData c t none m h g = (c.no_event_data, refl)
internal_event-KeepsData c t (some d) m h g = (d, refl)
