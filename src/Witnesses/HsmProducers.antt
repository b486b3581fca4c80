-- ===== src/Witnesses/HsmProducers.antt =====
-- Instances for the threads that send events to a `StressHSM`: two calls are sent, the first is handled.
use active_fsm.Base.{◌<◌, false, some, List, [], ◌∷◌, ◌≡◌, refl}
use active_fsm.Outcome.{done}
use active_fsm.StateMachine.Events.{is_on_state_machine_thread}
use active_fsm.StateMachine.Object.{resting}
use active_fsm.StateMachine.ActiveObject.{drain, pending_of, last_target}
use active_fsm.StateMachine.ActiveObject.Reach.{Reachable, new, sent, handled}
use active_fsm.UnitTests.StressHsm.{
  StressCall, activate_call, deactivate_call, stress_hsm, activate, deactivate, st_idle, st_child,
  st_max_states, target,
}
use active_fsm.UnitTests.StressHsm.Producers.{
  Shared, no_counts, AreBalanced, stress_events, IsNew, Reachable-AreBalanced, Reachable-settles,
}

abbrev idle_machine : List StressCall → Shared
idle_machine calls = resting 0 (some 7) st_idle tt (record { seen = no_counts; pending = calls })

abbrev child_machine : Shared
child_machine = resting st_child (some 7) st_child tt (record {
  seen = record { trans_count = 1; entry_parent = 1; exit_parent = 0 };
  pending = deactivate_call ∷ [];
})

idle_machine-IsNew : IsNew 7 (idle_machine [])
unfolding stress_hsm
idle_machine-IsNew = refl

child-Reachable : Reachable stress_events (idle_machine []) child_machine
unfolding activate deactivate is_on_state_machine_thread
child-Reachable =
    handled {m = idle_machine (activate_call ∷ deactivate_call ∷ [])} [] (deactivate_call ∷ [])
      activate_call
      (sent {m = idle_machine (activate_call ∷ [])} (idle_machine (activate_call ∷ []))
        deactivate_call (activate_call ∷ deactivate_call ∷ [])
        (sent {m = idle_machine []} (idle_machine []) activate_call (activate_call ∷ []) new
          (record { same_thread = refl; same_pending = refl }) refl refl)
        (record { same_thread = refl; same_pending = refl }) refl refl)
      refl refl

Reachable-AreBalanced_example :
    (child_machine.event_generated ≡ false)
    × (child_machine.current_state < st_max_states)
    × AreBalanced child_machine.current_state child_machine.object.seen.seen
Reachable-AreBalanced_example = Reachable-AreBalanced 7 idle_machine-IsNew child-Reachable

Reachable-settles_example :
    (m' : Shared) × (drain stress_events child_machine ≡ done tt m')
    × Reachable stress_events (idle_machine []) m'
    × (pending_of m' ≡ [])
    × (m'.current_state ≡ last_target target child_machine.current_state (pending_of child_machine))
Reachable-settles_example = Reachable-settles 7 idle_machine-IsNew child-Reachable
