-- ===== src/UnitTests/Cases/HsmCases.antt =====
-- The cases of unit-tests/StateMachineHSMTests.cpp on `TestHSM`.
use active_fsm.Base.{
  ℕ, Bool, true, false, Option, none, some, [], reverse, length, get_elem?, ◌==◌, ◌≡◌, refl,
}
use active_fsm.Outcome.{M, Outcome, done, and_then, ◌>>◌}
use active_fsm.StateMachine.Events.{is_on_state_machine_thread}
use active_fsm.StateMachine.Observed.{Threads}
use active_fsm.StateMachine.Object.{Object, modify_own}
use active_fsm.UnitTests.{EventData}
use active_fsm.UnitTests.TestHsm.{
  Note, st_top_note, st_child1_note, st_child2_note, en_parent, ex_parent, en_child1, ex_child1,
  en_child2, TestHsm, HsmMachine, HsmCall, test_hsm, go_child1, go_child2, go_top, toggle, st_top,
  st_parent, st_child1, st_child2,
}
use active_fsm.UnitTests.Cases.{
  Tally, new_tally, tally, expect_state, expect_own, expect_tally, connect,
}

-- The equality of the strings that the cases compare
abbrev same_note : Note → Note → Bool
same_note st_top_note st_top_note = true
same_note st_child1_note st_child1_note = true
same_note st_child2_note st_child2_note = true
same_note en_parent en_parent = true
same_note ex_parent ex_parent = true
same_note en_child1 en_child1 = true
same_note ex_child1 ex_child1 = true
same_note en_child2 en_child2 = true
same_note _ _ = false

abbrev is_note : Note → Option Note → Bool
is_note x none = false
is_note x (some y) = same_note x y

-- `list[i] == s`, for a list with the newest state first
abbrev is_state : ℕ → Option ℕ → Bool
is_state s none = false
is_state s (some t) = t == s

module _ (threads : Threads EventData (Object TestHsm Tally))
    (hand_over : HsmCall → ℕ → M (HsmMachine Tally) (Unit {0})) where
  abbrev on_hsm : M (HsmMachine Tally) (Unit {0}) → Outcome (HsmMachine Tally) (Unit {0})
  on_hsm body = and_then (test_hsm tally threads hand_over new_tally) (λ _. body)

  abbrev to_child1 : M (HsmMachine Tally) (Unit {0})
  to_child1 = go_child1 tally threads hand_over

  abbrev to_child2 : M (HsmMachine Tally) (Unit {0})
  to_child2 = go_child2 tally threads hand_over

  abbrev to_top : M (HsmMachine Tally) (Unit {0})
  to_top = go_top tally threads hand_over

  abbrev clear_log : M (HsmMachine Tally) (Unit {0})
  clear_log = modify_own λ o. record o { log = [] }

  abbrev expect_size : ℕ → M (HsmMachine Tally) (Unit {0})
  expect_size n = expect_own λ o. length o.log == n

  abbrev expect_note : ℕ → Note → M (HsmMachine Tally) (Unit {0})
  expect_note i x = expect_own λ o. is_note x (get_elem? (reverse o.log) i)

  abbrev set_guard : Bool → M (HsmMachine Tally) (Unit {0})
  set_guard allow = modify_own λ o. record o { guard_allow = allow }

  test_hsm_initial_state : Outcome (HsmMachine Tally) (Unit {0})
  test_hsm_initial_state = on_hsm (expect_state st_top)

  test_hsm_entry_order_parent_first : Outcome (HsmMachine Tally) (Unit {0})
  test_hsm_entry_order_parent_first = on_hsm (do
    to_child1
    expect_state st_child1
    expect_size 3
    expect_note 0 en_parent
    expect_note 1 en_child1
    expect_note 2 st_child1_note)

  test_hsm_sibling_transition_skips_parent_exit_entry : Outcome (HsmMachine Tally) (Unit {0})
  test_hsm_sibling_transition_skips_parent_exit_entry = on_hsm (do
    to_child1
    clear_log
    toggle tally threads hand_over
    expect_state st_child2
    expect_size 3
    expect_note 0 ex_child1
    expect_note 1 en_child2
    expect_note 2 st_child2_note)

  test_hsm_exit_order_child_before_parent : Outcome (HsmMachine Tally) (Unit {0})
  test_hsm_exit_order_child_before_parent = on_hsm (do
    to_child1
    clear_log
    to_top
    expect_state st_top
    expect_size 3
    expect_note 0 ex_child1
    expect_note 1 ex_parent
    expect_note 2 st_top_note)

  test_hsm_round_trip : Outcome (HsmMachine Tally) (Unit {0})
  test_hsm_round_trip = on_hsm (do
    to_child1
    to_top
    expect_state st_top
    clear_log
    to_child2
    expect_state st_child2
    expect_note 0 en_parent
    expect_note 1 en_child2
    expect_note 2 st_child2_note)

  test_hsm_propagate_to_parent : Outcome (HsmMachine Tally) (Unit {0})
  test_hsm_propagate_to_parent = on_hsm (do to_child1; clear_log; to_top; expect_state st_top)

  test_hsm_guard_blocks : Outcome (HsmMachine Tally) (Unit {0})
  test_hsm_guard_blocks =
      on_hsm
        (do to_child1; clear_log; set_guard false; to_child2; expect_state st_child1; expect_size 0)

  test_hsm_guard_allows : Outcome (HsmMachine Tally) (Unit {0})
  test_hsm_guard_allows = on_hsm (do
    to_child1
    clear_log
    set_guard true
    to_child2
    expect_state st_child2
    expect_note 0 ex_child1
    expect_note 1 en_child2)

  test_hsm_self_transition : Outcome (HsmMachine Tally) (Unit {0})
  test_hsm_self_transition = on_hsm (do
    to_child1
    clear_log
    to_child1
    expect_state st_child1
    expect_size 1
    expect_note 0 st_child1_note)

  test_hsm_on_entry_signal_order : Outcome (HsmMachine Tally) (Unit {0})
  test_hsm_on_entry_signal_order = on_hsm (do
    connect
    to_child1
    expect_tally λ u. length u.entered_states == 2
    expect_tally λ u. is_state st_parent (get_elem? (reverse u.entered_states) 0)
    expect_tally λ u. is_state st_child1 (get_elem? (reverse u.entered_states) 1))

  test_hsm_on_exit_signal_order : Outcome (HsmMachine Tally) (Unit {0})
  test_hsm_on_exit_signal_order = on_hsm (do
    to_child1
    connect
    to_top
    expect_tally λ u. length u.exited_states == 2
    expect_tally λ u. is_state st_child1 (get_elem? (reverse u.exited_states) 0)
    expect_tally λ u. is_state st_parent (get_elem? (reverse u.exited_states) 1))

  test_hsm_on_transition_signal : Outcome (HsmMachine Tally) (Unit {0})
  test_hsm_on_transition_signal = on_hsm (do
    connect
    to_child1
    expect_tally λ u. u.captured_from == st_top
    expect_tally λ u. u.captured_to == st_child1)

  -- The cases on `TestHSM`, in the order of `RunStateMachineHSMTests`
  run_hsm_tests : Outcome (HsmMachine Tally) (Unit {0})
  unfolding test_hsm_initial_state test_hsm_entry_order_parent_first
      test_hsm_sibling_transition_skips_parent_exit_entry test_hsm_exit_order_child_before_parent
      test_hsm_round_trip test_hsm_propagate_to_parent test_hsm_guard_blocks test_hsm_guard_allows
      test_hsm_self_transition test_hsm_on_entry_signal_order test_hsm_on_exit_signal_order
      test_hsm_on_transition_signal
  run_hsm_tests = and_then test_hsm_initial_state λ _ _.
      and_then test_hsm_entry_order_parent_first λ _ _.
        and_then test_hsm_sibling_transition_skips_parent_exit_entry λ _ _.
          and_then test_hsm_exit_order_child_before_parent λ _ _.
            and_then test_hsm_round_trip λ _ _. and_then test_hsm_propagate_to_parent λ _ _.
              and_then test_hsm_guard_blocks λ _ _. and_then test_hsm_guard_allows λ _ _.
                and_then test_hsm_self_transition λ _ _.
                  and_then test_hsm_on_entry_signal_order λ _ _.
                    and_then test_hsm_on_exit_signal_order λ _ _. test_hsm_on_transition_signal

  hsm_tests_pass : (m : HsmMachine Tally) × (run_hsm_tests ≡ done tt m)
  unfolding run_hsm_tests test_hsm go_child1 go_child2 go_top toggle is_on_state_machine_thread
  hsm_tests_pass = (_, refl)
