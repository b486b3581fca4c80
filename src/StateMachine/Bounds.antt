-- ===== src/StateMachine/Bounds.antt =====
-- The bounds on the states of a machine (state-machine/StateMachine.cpp): `m_currentState` indexes the
-- state map and the transition maps.
pub mod Engines
use active_fsm.Base.{
  ℕ, zero, suc, ◌<◌, Bool, true, false, not, Option, none, some, List, [], ◌∷◌, subst, ◌≡◌,
  if◌then◌else◌, get_elem?, ltb, ltb→lt, ◌==◌, Bool-cases, Option-cases, inl, inr,
}
use active_fsm.Outcome.{
  M, Outcome, Fault, done, faulted, unfinished, and_then, read, undefined, assert, pure,
}
use active_fsm.StateMachine.{
  Machine, Context, StateFunction, GuardFunction, EntryFunction, ExitFunction, StateMapRow,
  StateMapRowEx, event_ignored, cannot_happen,
}
use active_fsm.StateMachine.Engine.{
  run_events, set_current_state, turn, turn_ex, take_transition, change_state, state_engine,
  invoke_state_action, invoke_guard_condition, invoke_entry_action, invoke_exit_action,
}
use active_fsm.StateMachine.Loop.{run_events-pending, run_events-idle, run_events-stops}
use active_fsm.StateMachine.Events.{
  external_event, external_event_impl, internal_event, is_on_state_machine_thread,
}

-- A pointer of a row, if it is not null
abbrev pub Each : {A : Type 0} → (A → Type 0) → Option A → Type 0
Each P none = Unit {0}
Each P (some a) = P a

-- The rows of a state map
abbrev pub Rows : {R : Type 0} → (R → Type 0) → List R → Type 0
Rows P rows = (i : ℕ) (row : _) → get_elem? rows i ≡ some row → P row

pub Rows-nil : {R : Type 0} (P : R → Type 0) → Rows P []
Rows-nil P i row e = absurd (cc)

pub Rows-cons :
    {R : Type 0} (P : R → Type 0) (first : R) (rows : List R)
    → P first
    → Rows P rows
    → Rows P (first ∷ rows)
Rows-cons P first rows p k zero row e = subst P {x = first} {y = row} (cc) p
Rows-cons P first rows p k (suc i) row e = k i row e

module _ {D U : Type 0} (max_states : ℕ) where
  abbrev pub IsBelow : Machine D U → Type 0
  IsBelow m = (m.current_state < max_states) × (m.new_state < max_states)

  -- A call that returns leaves both states below the bound; one that faults, the current state.
  abbrev pub EndsBelow : {A : Type 0} → Outcome (Machine D U) A → Type 0
  EndsBelow (done a m) = IsBelow m
  EndsBelow (faulted e m) = m.current_state < max_states
  EndsBelow unfinished = Unit {0}

  abbrev pub Keeps : {A : Type 0} → M (Machine D U) A → Type 0
  Keeps f = (m : Machine D U) → IsBelow m → EndsBelow (f m)

  pub and_then-EndsBelow :
      {A B : Type 0} (o : Outcome (Machine D U) A) (f : A → M (Machine D U) B)
      → EndsBelow o
      → ((a : A) → Keeps (f a))
      → EndsBelow (and_then o f)
  and_then-EndsBelow (done a m) f h k = k a m h
  and_then-EndsBelow (faulted e m) f h k = h
  and_then-EndsBelow unfinished f h k = tt

  abbrev pub KeepsState : StateFunction D U → Type 0
  KeepsState f = (d : Option D) → Keeps (f d)

  abbrev pub KeepsGuard : GuardFunction D U → Type 0
  KeepsGuard f = (d : D) → Keeps (f d)

  abbrev pub KeepsEntry : EntryFunction D U → Type 0
  KeepsEntry f = (d : D) → Keeps (f d)

  pub record RowKeeps (row : StateMapRowEx D U) : Type 0 where
    pub state : Each KeepsState row.state
    pub guard : Each KeepsGuard row.guard
    pub entry : Each KeepsEntry row.entry
    pub exit : Each Keeps row.exit

  -- The rows of both kinds of state map
  abbrev pub MapsKeep : Option (List (StateMapRow D U)) → Option (List (StateMapRowEx D U)) → Type 0
  MapsKeep rows rows_ex =
      Each (Rows (λ row. Each KeepsState row.state)) rows × Each (Rows RowKeeps) rows_ex

  -- A turn of the engine's loop, which checks the new state itself
  abbrev pub Checks : M (Machine D U) (Unit {0}) → Type 0
  Checks f = (m : Machine D U) → m.current_state < max_states → EndsBelow (f m)

module _ {D U : Type 0} {max_states : ℕ} where
  pub read-EndsBelow :
      {R B : Type 0} (rows : List R) (i : ℕ) (f : R → M (Machine D U) B) (m : Machine D U)
      → ((row : R) → get_elem? rows i ≡ some row → EndsBelow max_states (f row m))
      → m.current_state < max_states
      → EndsBelow max_states (and_then (read rows i m) f)
  read-EndsBelow rows i f m k h = elim (Option-cases (get_elem? rows i)) [
    | inl e ↦ rw e h
    | inr (row, e) ↦ rw e (k row e)
  ]

  pub invoke_state_action-Keeps :
      (f : Option (StateFunction D U))
      → Each (KeepsState {D = D} {U = U} max_states) f
      → (d : Option D) → Keeps max_states (invoke_state_action f d)
  unfolding invoke_state_action
  invoke_state_action-Keeps none k d m h = h.0
  invoke_state_action-Keeps (some f) k d m h = k d m h

  pub invoke_guard_condition-Keeps :
      (f : Option (GuardFunction D U))
      → Each (KeepsGuard {D = D} {U = U} max_states) f
      → (d : Option D) → Keeps max_states (invoke_guard_condition f d)
  unfolding invoke_guard_condition
  invoke_guard_condition-Keeps none k d m h = h
  invoke_guard_condition-Keeps (some f) k none m h = h.0
  invoke_guard_condition-Keeps (some f) k (some d) m h = k d m h

  pub invoke_entry_action-Keeps :
      (f : Option (EntryFunction D U))
      → Each (KeepsEntry {D = D} {U = U} max_states) f
      → (d : Option D) → Keeps max_states (invoke_entry_action f d)
  unfolding invoke_entry_action
  invoke_entry_action-Keeps none k d m h = h
  invoke_entry_action-Keeps (some f) k none m h = h.0
  invoke_entry_action-Keeps (some f) k (some d) m h = k d m h

  pub invoke_exit_action-Keeps :
      (f : Option (ExitFunction D U))
      → Each (Keeps {D = D} {U = U} max_states) f
      → Keeps max_states (invoke_exit_action f)
  unfolding invoke_exit_action
  invoke_exit_action-Keeps none k m h = h
  invoke_exit_action-Keeps (some f) k m h = k m h

  pub assert-Keeps : (b : Bool) (e : Fault) → Keeps {D = D} {U = U} max_states (assert b e)
  assert-Keeps true e m h = h
  assert-Keeps false e m h = h.0

  pub if-Keeps :
      (b : Bool) (f g : M (Machine D U) (Unit {0}))
      → Keeps max_states f
      → Keeps max_states g
      → Keeps max_states (if b then f else g)
  if-Keeps true f g k l m h = k m h
  if-Keeps false f g k l m h = l m h

  pub run_events-EndsBelow :
      (next : M (Machine D U) (Unit {0}))
      → Checks max_states next
      → (fuel : ℕ) (m : Machine D U) → m.current_state < max_states
      → (m.event_generated ≡ false → m.new_state < max_states)
      → EndsBelow max_states (run_events next fuel m)
  run_events-EndsBelow next k zero m h g = elim (Bool-cases m.event_generated) [
    | inl more ↦ rw (run_events-stops next m more) tt
    | inr idle ↦ rw (run_events-idle next zero m idle) (h, g idle)
  ]
  run_events-EndsBelow next k (suc fuel) m h g = elim (Bool-cases m.event_generated) [
    | inl more ↦ rw (run_events-pending next fuel m more) (
        and_then-EndsBelow max_states (next m) (λ _. run_events next fuel) (k m h)
          (λ _ m₁ b. run_events-EndsBelow next k fuel m₁ b.0 (λ _. b.1)))
    | inr idle ↦ rw (run_events-idle next (suc fuel) m idle) (h, g idle)
  ]

-- What the observers and the queues of the threads do
pub record ContextKeeps {D U : Type 0} (c : Context D U) : Type 0 where
  pub on_transition : (f t : ℕ) → Keeps c.max_states (c.on_transition f t)
  pub on_entry : (s : ℕ) → Keeps c.max_states (c.on_entry s)
  pub on_exit : (s : ℕ) → Keeps c.max_states (c.on_exit s)
  pub on_cannot_happen : (s : ℕ) → Keeps c.max_states (c.on_cannot_happen s)
  pub post : (thread t : ℕ) (d : Option D) → Keeps c.max_states (c.post thread t d)
