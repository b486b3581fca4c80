-- ===== src/Examples/Motor/Laws.antt =====
-- What the events of examples/Motor.cpp come to, on the machine's thread.
use active_fsm.Base.{ℕ, ℤ, pos, true, Option, none, some, ◌⊎◌, inl, inr, ◌≡◌}
use active_fsm.Outcome.{M, Outcome, done, faulted, undefined, cannot_happen_event}
use active_fsm.StateMachine.Events.{is_on_state_machine_thread}
use active_fsm.StateMachine.Observed.{
  Signal, Threads, transition, entered, exited, could_not_happen,
}
use active_fsm.StateMachine.Object.{Object, resting}
use active_fsm.Examples.Motor.{
  MotorData, motor_data, Motor, MotorCall, MotorMachine, motor_context, set_speed, halt, st_idle,
  st_start, st_stop, st_change_speed,
}

-- The program's behaviour is undefined.
abbrev pub IsUndefined : {S A : Type 0} → Outcome S A → Type 0
IsUndefined (faulted undefined s) = Unit {0}
IsUndefined _ = ⊥

module _ {W : Type 0} (observe : Signal → W → W) (threads : Threads MotorData (Object Motor W))
    (hand_over : MotorCall → ℕ → M (MotorMachine W) (Unit {0})) where
  abbrev pub OnThread : Option ℕ → Type 0
  OnThread thread =
      is_on_state_machine_thread (motor_context observe threads hand_over) thread ≡ true

  module _ (thread : Option ℕ) (on : OnThread thread) where
    pub set_speed-standing :
        (n : ℕ) (o : Motor) (w : W) (v : ℤ)
        → set_speed observe threads hand_over (some (motor_data v)) (resting n thread st_idle o w)
          ≡ done tt (
              resting st_start thread st_start
                (record { current_speed = v })
                (observe
                  (transition st_idle st_start)
                  (observe (entered st_start) (observe (exited st_idle) w))))
    unfolding set_speed
    set_speed-standing n o w v = rw (on, on)

    pub set_speed-started :
        (n : ℕ) (o : Motor) (w : W) (v : ℤ)
        → set_speed observe threads hand_over (some (motor_data v)) (resting n thread st_start o w)
          ≡ done tt (
              resting st_change_speed thread st_change_speed
                (record { current_speed = v })
                (observe
                  (transition st_start st_change_speed)
                  (observe (entered st_change_speed) (observe (exited st_start) w))))
    unfolding set_speed
    set_speed-started n o w v = rw (on, on)

    -- A change of speed in `ST_CHANGE_SPEED` is a self-transition.
    pub set_speed-changed :
        (n : ℕ) (o : Motor) (w : W) (v : ℤ)
        → set_speed observe threads hand_over
            (some (motor_data v))
            (resting n thread st_change_speed o w)
          ≡ done tt (
              resting st_change_speed thread st_change_speed
                (record { current_speed = v })
                (observe (transition st_change_speed st_change_speed) w))
    unfolding set_speed
    set_speed-changed n o w v = rw (on, on)

    pub halt-standing :
        (n : ℕ) (o : Motor) (w : W)
        → halt observe threads hand_over (resting n thread st_idle o w)
          ≡ done tt (resting n thread st_idle o w)
    unfolding halt
    halt-standing n o w = rw on

    -- The stop of a motor that turns goes through `ST_STOP` to `ST_IDLE`.
    abbrev pub stopped : ℕ → W → W
    stopped s w = observe (transition st_stop st_idle) (
        observe (entered st_idle) (
          observe (exited st_stop)
            (observe (transition s st_stop) (observe (entered st_stop) (observe (exited s) w)))))

    pub halt-started :
        (n : ℕ) (o : Motor) (w : W)
        → halt observe threads hand_over (resting n thread st_start o w)
          ≡ done tt (
              resting st_idle thread st_idle
                (record { current_speed = pos 0 })
                (stopped st_start w))
    unfolding halt
    halt-started n o w = rw (on, on)

    pub halt-changed :
        (n : ℕ) (o : Motor) (w : W)
        → halt observe threads hand_over (resting n thread st_change_speed o w)
          ≡ done tt (
              resting st_idle thread st_idle
                (record { current_speed = pos 0 })
                (stopped st_change_speed w))
    unfolding halt
    halt-changed n o w = rw (on, on)

    -- In `ST_STOP`, on the thread of the machine, both events tell the observers of `OnCannotHappen` and
    -- then assert, with the machine unchanged otherwise.
    stop_asserts :
        (n : ℕ) (o : Motor) (w : W) (d : Option MotorData)
        → let m = resting n thread st_stop o w in
          let m' = resting n thread st_stop o (observe (could_not_happen st_stop) w) in
          (set_speed observe threads hand_over d m ≡ faulted cannot_happen_event m')
          × (halt observe threads hand_over m ≡ faulted cannot_happen_event m')
    unfolding set_speed halt
    stop_asserts n o w d = (rw on, rw on)

    -- `SetSpeed` with a null pointer, on the thread of the machine, in a state that the machine rests in,
    -- is undefined.
    set_speed_null :
        (s n : ℕ) (o : Motor) (w : W)
        → (s ≡ st_idle) ⊎ (s ≡ st_start) ⊎ (s ≡ st_change_speed)
        → IsUndefined (set_speed observe threads hand_over none (resting n thread s o w))
    unfolding set_speed
    set_speed_null s n o w (inl e) = rw (e, on, on) tt
    set_speed_null s n o w (inr (inl e)) = rw (e, on, on) tt
    set_speed_null s n o w (inr (inr e)) = rw (e, on, on) tt
