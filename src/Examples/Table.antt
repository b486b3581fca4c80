-- ===== src/Examples/Table.antt =====
-- What an event of a machine comes to, as a row of a table. `P` names the states that the machine of
-- a class of examples/ rests in, `O` its members.
pub mod Follow
pub mod Queue
use active_fsm.Base.{ℕ, Option, none, some, List, [], ◌∷◌, ◌≡◌, refl}
use active_fsm.StateMachine.{Machine}
use active_fsm.StateMachine.Observed.{Signal, transition, entered, exited}
use active_fsm.StateMachine.Object.{Object, resting}

-- `left` is what the event leaves in `m_newState`.
pub record Row (P O : Type 0) : Type 0 where
  pub phase : P
  pub left : ℕ
  pub own : O
  pub signals : List Signal

-- The signals of a change from `s` to `t`
abbrev pub moving : ℕ → ℕ → List Signal → List Signal
moving s t rest = exited s ∷ entered t ∷ transition s t ∷ rest

abbrev pub phase_after : {P O : Type 0} → P → Option (Row P O) → P
phase_after p none = p
phase_after p (some a) = a.phase

abbrev pub own_after : {P O : Type 0} → O → Option (Row P O) → O
own_after o none = o
own_after o (some a) = a.own

module _ {W : Type 0} (observe : Signal → W → W) where
  abbrev pub observe_all : List Signal → W → W
  observe_all [] w = w
  observe_all (x ∷ xs) w = observe_all xs (observe x w)

  -- The machine after an event; `none` is one that is ignored.
  abbrev pub answered :
      {D P O : Type 0}
      → (P → ℕ)
      → ℕ
      → Option ℕ
      → P
      → O
      → W
      → Option (Row P O)
      → Machine D (Object O W)
  answered state_of n thread p o w none = resting n thread (state_of p) o w
  answered state_of n thread p o w (some a) =
      resting a.left thread (state_of a.phase) a.own (observe_all a.signals w)

  -- A machine between two events
  abbrev pub IsResting :
      {D P O : Type 0} → (P → ℕ) → Option ℕ → P → O → Machine D (Object O W) → Type 0
  IsResting state_of thread p o m = (n : ℕ) × (w : W) × (m ≡ resting n thread (state_of p) o w)

  pub answered-IsResting :
      {D P O : Type 0} (state_of : P → ℕ) (n : ℕ) (thread : Option ℕ) (p : P) (o : O) (w : W)
      (a : Option (Row P O))
      → IsResting {D = D} state_of thread
          (phase_after p a)
          (own_after o a)
          (answered state_of n thread p o w a)
  answered-IsResting state_of n thread p o w none = (n, w, refl)
  answered-IsResting state_of n thread p o w (some a) = (a.left, observe_all a.signals w, refl)
