-- ===== src/Witnesses/TcpConnection.antt =====
-- Instances for examples/TcpConnection.cpp.
use active_fsm.Base.{true, false, some, List, [], ◌∷◌, ◌≡◌, refl}
use active_fsm.Outcome.{pure, done, for_each}
use active_fsm.StateMachine.Observed.{Signal}
use active_fsm.Examples.TcpConnection.{
  TcpMachine, st_closed, st_syn_sent, st_established, tcp_connection, active_open, handle_packet,
}
use active_fsm.Examples.TcpConnection.Handshake.{shaken, tcp-shaken}
use active_fsm.Examples.Table.{moving, observe_all}
use active_fsm.StateMachine.Events.{is_on_state_machine_thread}
use active_fsm.StateMachine.Object.{resting}
use active_fsm.Examples.TcpConnection.Laws.{
  is_closed, is_fin_wait_1, Request, to_open, to_listen, to_packet, to_send, to_close, answer,
  came_to, OnThread, request, state_of, tcp-answer,
}
use active_fsm.Examples.TcpConnection.Promise.{
  IsEnd, history, run_connection, tcp-requests, tcp-silent,
}
use active_fsm.Witnesses.{keep, thread_7}

-- A passive open, the handshake, a close by this side, and then a `Send`
abbrev requests : List Request
requests =
    to_listen
    ∷ to_packet true false false false
    ∷ to_packet false true false false
    ∷ to_close
    ∷ to_send
    ∷ []

tcp-requests_example :
    IsEnd keep
      (some 7)
      (history is_closed requests)
      (run_connection keep thread_7 (λ _ _. pure tt) 7 refl [] requests)
tcp-requests_example = tcp-requests keep thread_7 (λ _ _. pure tt) 7 refl [] requests

thread_7_runs : OnThread keep thread_7 (λ _ _. pure tt) (some 7)
unfolding is_on_state_machine_thread
thread_7_runs = refl

tcp-answer_example :
    request keep thread_7
      (λ _ _. pure tt)
      (to_packet false true true false)
      (resting 5 (some 7) (state_of is_fin_wait_1) tt [])
    ≡ came_to keep 5
        (some 7)
        is_fin_wait_1
        []
        (answer is_fin_wait_1 (to_packet false true true false))
tcp-answer_example =
    tcp-answer keep thread_7 (λ _ _. pure tt) 5 (some 7) is_fin_wait_1
      (to_packet false true true false) [] thread_7_runs

-- A passive open, a handshake, and a close by the other side
abbrev silent_requests : List Request
silent_requests =
    to_listen
    ∷ to_packet true false false false
    ∷ to_packet false true false false
    ∷ to_packet false true true false
    ∷ to_close
    ∷ []

tcp-silent_example :
    (m : TcpMachine (List Signal)) × (run_connection keep thread_7
        (λ _ _. pure tt)
        7
        refl
        []
        silent_requests
      ≡ done tt m)
tcp-silent_example = tcp-silent keep thread_7 (λ _ _. pure tt) 7 refl [] silent_requests tt

-- An active open, with a packet that is not for it, and then the answer of the other side
abbrev opening_requests : List Request
opening_requests = to_open ∷ to_packet false true false false ∷ to_packet true true false false ∷ []

abbrev established : TcpMachine (List Signal)
established =
    resting st_established (some 7) st_established tt
      (observe_all keep (moving st_closed st_syn_sent (moving st_syn_sent st_established [])) [])

opening_runs :
    run_connection keep thread_7 (λ _ _. pure tt) 7 refl [] opening_requests ≡ done tt established
unfolding tcp_connection for_each active_open handle_packet is_on_state_machine_thread
opening_runs = refl

tcp-shaken_example : shaken opening_requests ≡ true
tcp-shaken_example =
    tcp-shaken keep thread_7 (λ _ _. pure tt) 7 refl [] opening_requests established opening_runs
      refl
