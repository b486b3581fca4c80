-- ===== src/Examples/Table/Queue.antt =====
-- The signals of a table leave the queue of a machine's thread alone.
use active_fsm.Base.{List, [], ◌∷◌, ◌≡◌, refl}
use active_fsm.StateMachine.Observed.{Signal}
use active_fsm.StateMachine.ActiveObject.{Queued, on_queue}
use active_fsm.Examples.Table.{observe_all}

pub observe_all-pending :
    {C W : Type 0} (observe : Signal → W → W) (xs : List Signal) (w : Queued C W)
    → (observe_all (on_queue observe) xs w).pending ≡ w.pending
observe_all-pending observe [] w = refl
observe_all-pending observe (x ∷ xs) w = observe_all-pending observe xs (on_queue observe x w)
