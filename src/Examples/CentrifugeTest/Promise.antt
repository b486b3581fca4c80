-- ===== src/Examples/CentrifugeTest/Promise.antt =====
-- examples/CentrifugeTest.cpp over any history of events: what its members hold, and how often a
-- test can run.
use active_fsm.Base.{
  ℕ, zero, Bool, true, false, suc, ◌≤◌, ◌<◌, ℤ, pos, negsuc, is_zero, le→leb, lt→leb, lt_cases,
  Option, some, List, [], ◌∷◌, ◌⊎◌, inl, inr, ◌≡◌, refl, ap, arith,
}
use active_fsm.Outcome.{M, Outcome, done, and_then, for_each}
use active_fsm.StateMachine.Events.{is_on_state_machine_thread}
use active_fsm.StateMachine.Observed.{Signal, Threads}
use active_fsm.StateMachine.Object.{Object}
use active_fsm.Examples.CentrifugeTest.{
  EventData, CentrifugeTest, TestCall, start_call, poll_call, cancel_call, TestMachine,
  centrifuge_test,
}
use active_fsm.Examples.Table.{IsResting, phase_after, own_after}
use active_fsm.Examples.Table.Follow.{led_to, led_to-keeps, requests-led_to}
use active_fsm.Examples.CentrifugeTest.Laws.{
  state_of, Phase, is_idle, is_accelerating, is_waiting_up, is_decelerating, is_waiting_down,
  answer, OnThread, request, test-answer,
}

abbrev pub is_active : Phase → Bool
is_active is_idle = false
is_active _ = true

-- `m_speed` in each state
abbrev pub IsSpeed : Phase → ℤ → Type 0
IsSpeed is_idle x = (x ≡ negsuc 0) ⊎ ((v : ℕ) × (x ≡ pos v) × (v ≤ 5))
IsSpeed is_accelerating x = x ≡ pos 0
IsSpeed is_waiting_up x = (v : ℕ) × (x ≡ pos v) × (v < 5)
IsSpeed is_decelerating x = x ≡ pos 5
IsSpeed is_waiting_down x = (v : ℕ) × (x ≡ pos v) × (v < 5)

-- The poll timer runs just while a test does, and the speed is that of the state.
abbrev pub IsMembers : Phase → CentrifugeTest → Type 0
IsMembers phase o = (o.polling ≡ is_active phase) × IsSpeed phase o.speed

is_zero-suc : (v : ℕ) → is_zero (pos (suc v)) ≡ false
is_zero-suc v = ground arith

abbrev AnswerIsMembers : Phase → TestCall → CentrifugeTest → Type 0
AnswerIsMembers phase r o =
    IsMembers (phase_after phase (answer phase r o)) (own_after o (answer phase r o))

accelerating-IsMembers :
    (o : CentrifugeTest) → IsMembers is_accelerating o → AnswerIsMembers is_accelerating poll_call o
accelerating-IsMembers o (p, s) = rw s (p, (1, refl, omega arith))

waiting_up-IsMembers :
    (o : CentrifugeTest) → IsMembers is_waiting_up o → AnswerIsMembers is_waiting_up poll_call o
waiting_up-IsMembers o (p, (v, s, l)) = elim (lt_cases (suc v) 5) [
  | inl k ↦ rw (s, lt→leb (suc v) 5 k) (p, (suc v, refl, k))
  | inr k ↦ rw (s, le→leb (suc v) 5 k) (refl, ap pos (omega arith))
]

decelerating-IsMembers :
    (o : CentrifugeTest) → IsMembers is_decelerating o → AnswerIsMembers is_decelerating poll_call o
decelerating-IsMembers o (p, s) = rw s (p, (4, refl, omega arith))

waiting_down-IsMembers :
    (o : CentrifugeTest) → IsMembers is_waiting_down o → AnswerIsMembers is_waiting_down poll_call o
waiting_down-IsMembers o (p, (zero, s, l)) = rw s (refl, inl refl)
waiting_down-IsMembers o (p, (suc v, s, l)) = rw (s, is_zero-suc v) (p, (v, refl, omega arith))

start-IsMembers : (o : CentrifugeTest) → IsMembers is_idle o → AnswerIsMembers is_idle start_call o
start-IsMembers o (p, inl s) = rw s (p, inl refl)
start-IsMembers o (p, inr (zero, s, l)) = rw s (refl, refl)
start-IsMembers o (p, inr (suc v, s, l)) = rw (s, is_zero-suc v) (p, inr (suc v, refl, l))

pub answer-IsMembers :
    (phase : Phase) (r : TestCall) (o : CentrifugeTest)
    → IsMembers phase o
    → AnswerIsMembers phase r o
answer-IsMembers is_idle start_call o h = start-IsMembers o h
answer-IsMembers is_accelerating poll_call o h = accelerating-IsMembers o h
answer-IsMembers is_waiting_up poll_call o h = waiting_up-IsMembers o h
answer-IsMembers is_decelerating poll_call o h = decelerating-IsMembers o h
answer-IsMembers is_waiting_down poll_call o h = waiting_down-IsMembers o h
answer-IsMembers is_accelerating cancel_call o (p, s) = (refl, inr (0, s, omega arith))
answer-IsMembers is_waiting_up cancel_call o (p, (v, s, l)) = (refl, inr (v, s, omega arith))
answer-IsMembers is_decelerating cancel_call o (p, s) = (refl, inr (5, s, omega arith))
answer-IsMembers is_waiting_down cancel_call o (p, (v, s, l)) = (refl, inr (v, s, omega arith))
answer-IsMembers _ _ o h = h

-- Where the table leads from a phase and members
abbrev pub history : Phase → CentrifugeTest → List TestCall → Phase × CentrifugeTest
history = led_to answer

-- Nothing starts a test whose centrifuge has a speed.
history-vetoed :
    (o : CentrifugeTest) (rs : List TestCall)
    → is_zero o.speed ≡ false
    → history is_idle o rs ≡ (is_idle, o)
unfolding led_to
history-vetoed o [] z = refl
history-vetoed o (start_call ∷ rs) z = rw z (history-vetoed o rs z)
history-vetoed o (poll_call ∷ rs) z = history-vetoed o rs z
history-vetoed o (cancel_call ∷ rs) z = history-vetoed o rs z

abbrev pub new_test : CentrifugeTest
new_test = record { speed = pos 0; polling = false; completions = 0 }

abbrev pub spent_test : CentrifugeTest
spent_test = record { speed = negsuc 0; polling = false; completions = 1 }

-- A start and then just as many polls as a test takes
abbrev pub whole_test : List TestCall → List TestCall
whole_test rs =
    start_call ∷ poll_call ∷ poll_call ∷ poll_call ∷ poll_call ∷ poll_call ∷ poll_call ∷ poll_call
    ∷ poll_call ∷ poll_call ∷ poll_call ∷ poll_call ∷ rs

history-whole_test :
    (rs : List TestCall) → history is_idle new_test (whole_test rs) ≡ (is_idle, spent_test)
unfolding led_to
history-whole_test rs = history-vetoed spent_test rs refl

module _ {W : Type 0} (observe : Signal → W → W)
    (threads : Threads EventData (Object CentrifugeTest W))
    (hand_over : TestCall → ℕ → M (TestMachine W) (Unit {0})) where
  -- What holds of a test between two events
  abbrev pub IsTest : Option ℕ → Phase → CentrifugeTest → TestMachine W → Type 0
  IsTest = IsResting observe state_of

  requests-IsTest :
      (thread : Option ℕ) (phase : Phase) (o : CentrifugeTest) (rs : List TestCall)
      (m : TestMachine W)
      → OnThread observe threads hand_over thread
      → IsTest thread phase o m
      → (m' : TestMachine W) × (for_each (request observe threads hand_over) rs m ≡ done tt m')
        × IsTest thread (history phase o rs).0 (history phase o rs).1 m'
  requests-IsTest thread phase o rs m on h =
      requests-led_to answer observe state_of thread (request observe threads hand_over)
        (λ n p r o' w. test-answer observe threads hand_over n thread p r o' w on) phase o rs m h

  module _ (thread : ℕ) (on : threads.is_current_thread thread ≡ true) where
    -- The calls `rs` on a new test, whose thread is the one that runs
    abbrev pub run_test : W → List TestCall → Outcome (TestMachine W) (Unit {0})
    run_test seen rs =
        and_then (centrifuge_test observe threads hand_over thread seen)
          (λ _. for_each (request observe threads hand_over) rs)

    -- On the machine's own thread any number of events on a new test is done without an assertion,
    -- and leaves it in the phase, and with the members, that the table has. In particular the poll
    -- timer is enabled just in the four states of a running test, and the speed is from -1 to 5.
    pub history-IsTest :
        (seen : W) (rs : List TestCall)
        → (m' : TestMachine W) × (run_test seen rs ≡ done tt m')
          × IsTest (some thread) (history is_idle new_test rs).0 (history is_idle new_test rs).1 m'
          × IsMembers (history is_idle new_test rs).0 (history is_idle new_test rs).1
    unfolding centrifuge_test is_on_state_machine_thread
    history-IsTest seen rs =
        let (m', e, h) = requests-IsTest (some thread) is_idle new_test rs _ on (0, seen, refl) in
        (
          m',
          e,
          h,
          led_to-keeps answer IsMembers answer-IsMembers is_idle new_test rs
              (refl, inr (0, refl, omega arith)),
        )

    -- A new test that is started and polled eleven times on the machine's own thread completes once.
    -- Its speed is -1 then, and whatever events follow leave it idle with those members: no second
    -- test ever starts.
    pub whole_test-IsTest :
        (seen : W) (rs : List TestCall)
        → (m' : TestMachine W) × (run_test seen (whole_test rs) ≡ done tt m')
          × IsTest (some thread) is_idle spent_test m'
    unfolding centrifuge_test is_on_state_machine_thread
    whole_test-IsTest seen rs =
        let (m', e, h) =
          requests-IsTest (some thread) is_idle new_test (whole_test rs) _ on (0, seen, refl) in
        (m', e, rw (history-whole_test rs) at h)
