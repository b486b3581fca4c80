-- ===== src/StateMachine/Object.antt =====
-- The object of a derived class beside what its observers keep: the observers of examples/ and
-- unit-tests/ read the states that a signal carries and touch no member of the machine.
use active_fsm.Base.{ℕ, Bool, Option}
use active_fsm.Outcome.{M, modify}
use active_fsm.StateMachine.{Machine, Context, StateFunction, StateMapRowEx}
use active_fsm.StateMachine.Observed.{Signal, Threads, observed}

-- `own`: the members of the derived class; `seen`: what the observers keep.
pub record Object (O W : Type 0) : Type 0 where
  pub own : O
  pub seen : W

abbrev pub on_seen : {O W : Type 0} → (Signal → W → W) → Signal → Object O W → Object O W
on_seen observe signal u = record u { seen = observe signal u.seen }

module _ {D O W : Type 0} where
  abbrev pub modify_own : (O → O) → M (Machine D (Object O W)) (Unit {0})
  modify_own f =
      modify λ m. record m { object = record { own = f m.object.own; seen = m.object.seen } }

  abbrev pub context : ℕ → D → (Signal → W → W) → Threads D (Object O W) → Context D (Object O W)
  context max_states no_event_data observe threads =
      observed max_states no_event_data (on_seen observe) threads

  -- A machine between two events; `n` is what its last event left in `m_newState`.
  abbrev pub resting : ℕ → Option ℕ → ℕ → O → W → Machine D (Object O W)
  resting n thread s own seen = record {
    current_state = s;
    new_state = n;
    event_generated = Bool.false;
    event_data = Option.none;
    thread = thread;
    object = record { own = own; seen = seen };
  }

-- `STATE_MAP_ENTRY_EX`
abbrev pub entry_ex : {D U : Type 0} → StateFunction D U → StateMapRowEx D U
entry_ex state = record {
  state = Option.some state;
  guard = Option.none;
  entry = Option.none;
  exit = Option.none;
}
