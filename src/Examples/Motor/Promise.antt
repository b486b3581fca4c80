-- ===== src/Examples/Motor/Promise.antt =====
-- examples/Motor.cpp as its user sees it: a motor that stands or turns.
use active_fsm.Base.{
  ℕ, ℤ, pos, Option, none, some, List, [], ◌∷◌, ◌⊎◌, inl, inr, ◌≡◌, refl, ap, ◌∙◌,
}
use active_fsm.Outcome.{M, done, and_then, for_each}
use active_fsm.StateMachine.Events.{construct, is_on_state_machine_thread}
use active_fsm.StateMachine.Observed.{Signal, Threads}
use active_fsm.StateMachine.Object.{Object, resting}
use active_fsm.Examples.Motor.{
  MotorData, motor_data, Motor, MotorCall, MotorMachine, motor, set_speed, halt, st_idle, st_start,
  st_change_speed,
}
use active_fsm.Examples.Motor.Laws.{
  OnThread, set_speed-standing, set_speed-started, set_speed-changed, halt-standing, halt-started,
  halt-changed,
}

-- What the user of a motor is promised: it stands, or it turns at the speed last set.
pub data Speed : Type 0 where
  standing : Speed
  turning : ℤ → Speed

pub data Request : Type 0 where
  set_to : ℤ → Request
  stop_it : Request

abbrev pub asked : Speed → Request → Speed
asked s (set_to v) = turning v
asked s stop_it = standing

abbrev pub asked_all : Speed → List Request → Speed
asked_all s [] = s
asked_all s (r ∷ rs) = asked_all (asked s r) rs

-- A motor between two events that is as promised
abbrev pub IsAt : {W : Type 0} → Option ℕ → Speed → MotorMachine W → Type 0
IsAt {W} thread standing m =
    (n : ℕ) × (w : W) × (m ≡ resting n thread st_idle (record { current_speed = pos 0 }) w)
IsAt {W} thread (turning v) m =
    (n : ℕ) × (w : W) × ((m ≡ resting n thread st_start (record { current_speed = v }) w)
      ⊎ (m ≡ resting n thread st_change_speed (record { current_speed = v }) w))

module _ {W : Type 0} (observe : Signal → W → W) (threads : Threads MotorData (Object Motor W))
    (hand_over : MotorCall → ℕ → M (MotorMachine W) (Unit {0})) where
  abbrev pub request : Request → M (MotorMachine W) (Unit {0})
  request (set_to v) = set_speed observe threads hand_over (some (motor_data v))
  request stop_it = halt observe threads hand_over

  module _ (thread : Option ℕ) (on : OnThread observe threads hand_over thread) where
    -- An event is done, and has the promised effect.
    abbrev Keeps : Speed → Request → MotorMachine W → Type 0
    Keeps s r m = (m' : MotorMachine W) × (request r m ≡ done tt m') × IsAt thread (asked s r) m'

    request-IsAt : (s : Speed) (r : Request) (m : MotorMachine W) → IsAt thread s m → Keeps s r m
    request-IsAt standing (set_to v) m (n, w, e) = (
      _,
      ap (request (set_to v)) e ∙ set_speed-standing observe threads hand_over thread on n _ w v,
      (_, _, inl refl),
    )
    request-IsAt standing stop_it m (n, w, e) = (
      _,
      ap (request stop_it) e ∙ halt-standing observe threads hand_over thread on n _ w,
      (_, _, refl),
    )
    request-IsAt (turning u) (set_to v) m (n, w, inl e) = (
      _,
      ap (request (set_to v)) e ∙ set_speed-started observe threads hand_over thread on n _ w v,
      (_, _, inr refl),
    )
    request-IsAt (turning u) (set_to v) m (n, w, inr e) = (
      _,
      ap (request (set_to v)) e ∙ set_speed-changed observe threads hand_over thread on n _ w v,
      (_, _, inr refl),
    )
    request-IsAt (turning u) stop_it m (n, w, inl e) = (
      _,
      ap (request stop_it) e ∙ halt-started observe threads hand_over thread on n _ w,
      (_, _, refl),
    )
    request-IsAt (turning u) stop_it m (n, w, inr e) = (
      _,
      ap (request stop_it) e ∙ halt-changed observe threads hand_over thread on n _ w,
      (_, _, refl),
    )

    -- So are any number of them, in turn.
    pub requests-IsAt :
        (s : Speed) (rs : List Request) (m : MotorMachine W)
        → IsAt thread s m
        → (m' : MotorMachine W) × (for_each request rs m ≡ done tt m')
          × IsAt thread (asked_all s rs) m'
    unfolding for_each
    requests-IsAt s [] m h = (m, refl, h)
    requests-IsAt s (r ∷ rs) m h =
        let (m₁, e, h₁) = request-IsAt s r m h in
        let (m', e', h') = requests-IsAt (asked s r) rs m₁ h₁ in (m', rw e e', h')

-- In synchronous mode any number of requests to a new motor, each with a speed, is done without an
-- assertion. Afterwards the motor has the speed last set, or stands at speed 0 in `ST_IDLE` if
-- it was stopped since or never started.
pub motor-requests :
    {W : Type 0} (observe : Signal → W → W) (threads : Threads MotorData (Object Motor W))
    (hand_over : MotorCall → ℕ → M (MotorMachine W) (Unit {0})) (seen : W) (rs : List Request)
    → (m' : MotorMachine W) × (and_then
          (motor observe threads hand_over seen)
          (λ _. for_each (request observe threads hand_over) rs)
        ≡ done tt m')
      × IsAt none (asked_all standing rs) m'
unfolding motor construct is_on_state_machine_thread
motor-requests observe threads hand_over seen rs =
    requests-IsAt observe threads hand_over none refl standing rs _ (0, seen, refl)
