-- ===== src/Examples/CentrifugeTest/Async/Steps.antt =====
-- What a call from another thread, and a message that the machine's thread takes, come to in each state
-- of examples/CentrifugeTest.cpp.
use active_fsm.Base.{
  leb, ltb, ◌&&◌, if◌then◌else◌, Bool-cases, inl, inr, ℕ, none, some, List, [], ◌∷◌, ◌++◌, ◌≡◌,
  refl, arith,
}
use active_fsm.Outcome.{done}
use active_fsm.StateMachine.Events.{external_event_impl, is_on_state_machine_thread}
use active_fsm.StateMachine.Observed.{Signal}
use active_fsm.StateMachine.Object.{resting}
use active_fsm.StateMachine.ActiveObject.{with_pending, with_thread, pending_of, Queued, on_queue}
use active_fsm.Examples.Table.{answered, phase_after, own_after}
use active_fsm.Examples.SelfTest
use active_fsm.Examples.SelfTest.{st_failed}
use active_fsm.Examples.CentrifugeTest.{
  st_max_states, CentrifugeTest, TestCall, start_call, poll_call, cancel_call, test_engine, start,
  poll, cancel,
}
use active_fsm.Examples.CentrifugeTest.Laws.{
  Phase, is_idle, is_accelerating, is_waiting_up, is_decelerating, is_waiting_down, state_of,
  test-answer,
}
use active_fsm.Examples.CentrifugeTest.Promise.{IsMembers, answer-IsMembers}
use active_fsm.Examples.CentrifugeTest.Async.{
  Shared, TestMessage, call, event_impl, IsMessage, AreMessages, respond, send_call, handle_message,
}

pub append-AreMessages :
    (cs ds : List TestMessage) → AreMessages cs → AreMessages ds → AreMessages (cs ++ ds)
append-AreMessages [] ds h k = k
append-AreMessages (c ∷ cs) ds (a, h) k = (a, append-AreMessages cs ds h k)

pub middle-IsMessage :
    (cs : List TestMessage) (c : TestMessage) (ds : List TestMessage)
    → AreMessages (cs ++ c ∷ ds)
    → IsMessage c × AreMessages (cs ++ ds)
middle-IsMessage [] c ds h = h
middle-IsMessage (b ∷ cs) c ds (a, h) = let (k, l) = middle-IsMessage cs c ds h in (k, (a, l))

-- The message that a call from another thread hands over, if that thread sees the state `s`. A test can
-- be seen in a state that it does not rest in.
abbrev pub message_of : ℕ → TestCall → TestMessage
message_of s cancel_call =
    if leb SelfTest.st_max_states s && ltb s st_max_states
    then event_impl st_failed none
    else call cancel_call
message_of s r = call r

pub message_of-IsMessage : (s : ℕ) (r : TestCall) → IsMessage (message_of s r)
message_of-IsMessage s start_call = tt
message_of-IsMessage s poll_call = tt
message_of-IsMessage s cancel_call =
    elim (Bool-cases (leb SelfTest.st_max_states s && ltb s st_max_states)) [
      | inl e ↦ rw e (refl, refl)
      | inr e ↦ rw e tt
    ]

pub respond-IsMembers :
    (phase : Phase) (c : TestMessage) (o : CentrifugeTest)
    → IsMembers phase o
    → IsMembers (phase_after phase (respond phase c o)) (own_after o (respond phase c o))
respond-IsMembers phase (call r) o h = answer-IsMembers phase r o h
respond-IsMembers is_idle (event_impl s d) o (p, x) = (refl, x)
respond-IsMembers is_accelerating (event_impl s d) o (p, x) = (refl, inr (0, x, omega arith))
respond-IsMembers is_waiting_up (event_impl s d) o (p, (v, x, l)) = (refl, inr (v, x, omega arith))
respond-IsMembers is_decelerating (event_impl s d) o (p, x) = (refl, inr (5, x, omega arith))
respond-IsMembers is_waiting_down (event_impl s d) o (p, (v, x, l)) =
    (refl, inr (v, x, omega arith))

module _ {W : Type 0} (observe : Signal → W → W) (thread : ℕ) where
  -- A call from another thread hands over its message and does no more, whatever the members are.
  pub send_call_lem :
      (r : TestCall) (k : Shared W)
      → send_call observe r (with_thread k thread)
        ≡ done tt (
            with_pending (with_thread k thread) (pending_of k ++ message_of k.current_state r ∷ []))
  unfolding start poll cancel is_on_state_machine_thread
  send_call_lem start_call k = refl
  send_call_lem poll_call k = refl
  send_call_lem cancel_call k =
      elim (Bool-cases
        (leb SelfTest.st_max_states k.current_state && ltb k.current_state st_max_states)) [
          | inl e ↦ rw e
          | inr e ↦ rw e
        ]

  failed_lem :
      (phase : Phase) (n : ℕ) (o : CentrifugeTest) (w : Queued TestMessage W)
      → handle_message observe
          (event_impl st_failed none)
          (resting n (some thread) (state_of phase) o w)
        ≡ done tt (
            answered
              (on_queue observe)
              state_of
              n
              (some thread)
              phase
              o
              w
              (respond phase (event_impl st_failed none) o))
  unfolding test_engine external_event_impl
  failed_lem is_idle n o w = refl
  failed_lem is_accelerating n o w = refl
  failed_lem is_waiting_up n o w = refl
  failed_lem is_decelerating n o w = refl
  failed_lem is_waiting_down n o w = refl

  pub handle_message_lem :
      (phase : Phase) (c : TestMessage) (n : ℕ) (o : CentrifugeTest) (w : Queued TestMessage W)
      → IsMessage c
      → handle_message observe c (resting n (some thread) (state_of phase) o w)
        ≡ done tt
            (answered (on_queue observe) state_of n (some thread) phase o w (respond phase c o))
  unfolding is_on_state_machine_thread
  handle_message_lem phase (call r) n o w h =
      test-answer (on_queue observe) _ _ n (some thread) phase r o w refl
  handle_message_lem phase (event_impl s d) n o w (e, f) = rw (e, f) (failed_lem phase n o w)
