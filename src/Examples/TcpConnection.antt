-- ===== src/Examples/TcpConnection.antt =====
-- examples/TcpConnection.h and examples/TcpConnection.cpp. What is printed is left out. The guard
-- `IsPortAvailable` stands in no row of the state map.
pub mod Async
pub mod Laws
pub mod Promise
pub mod Handshake
use active_fsm.Base.{
  ℕ, Bool, true, false, ◌&&◌, none, some, Option, List, [], ◌∷◌, if◌then◌else◌, ◌==◌,
}
use active_fsm.Outcome.{M, Outcome, undefined, and_then, ◌>>=◌, ◌>>◌, pure, get, fault}
use active_fsm.StateMachine.{
  Machine, StateFunction, GuardFunction, StateMapRowEx, Context, event_ignored, cannot_happen,
}
use active_fsm.StateMachine.Engine.{
  state_engine, run_events, turn_ex, take_transition, change_state, invoke_state_action,
  invoke_guard_condition, invoke_entry_action, invoke_exit_action,
}
use active_fsm.StateMachine.Events.{
  construct, set_thread, internal_event, begin_transition_map, end_transition_map, external_event,
  external_event_impl,
}
use active_fsm.StateMachine.Observed.{Signal, Threads}
use active_fsm.StateMachine.Object.{Object, context, entry_ex}

pub record TcpData : Type 0 where
  pub syn : Bool
  pub ack : Bool
  pub fin : Bool
  pub rst : Bool

-- The classes of event data
pub data EventData : Type 0 where
  no_event_data : EventData
  tcp_data : TcpData → EventData

-- `enum States`
abbrev pub st_closed : ℕ
st_closed = 0

abbrev pub st_listen : ℕ
st_listen = 1

abbrev pub st_syn_sent : ℕ
st_syn_sent = 2

abbrev pub st_syn_rcvd : ℕ
st_syn_rcvd = 3

abbrev pub st_established : ℕ
st_established = 4

abbrev pub st_fin_wait_1 : ℕ
st_fin_wait_1 = 5

abbrev pub st_fin_wait_2 : ℕ
st_fin_wait_2 = 6

abbrev pub st_close_wait : ℕ
st_close_wait = 7

abbrev pub st_closing : ℕ
st_closing = 8

abbrev pub st_last_ack : ℕ
st_last_ack = 9

abbrev pub st_time_wait : ℕ
st_time_wait = 10

abbrev pub st_max_states : ℕ
st_max_states = 11

-- The longest chain of events: `TimeWait`, `Closed`.
abbrev tcp_fuel : ℕ
tcp_fuel = 2

-- The class has no members beside its thread.
abbrev pub TcpMachine : Type 0 → Type 0
TcpMachine W = Machine EventData (Object (Unit {0}) W)

-- The events, as calls that a thread can be handed
pub data TcpCall : Type 0 where
  active_open_call passive_open_call send_call close_call : TcpCall
  handle_packet_call : Option TcpData → TcpCall

-- A `switch` whose cases all break
abbrev switch : {A : Type 0} → ℕ → A → List (ℕ × A) → A
switch x otherwise [] = otherwise
switch x otherwise ((k, a) ∷ cases) = if x == k then a else switch x otherwise cases

-- The `switch` of `HandlePacket`
abbrev next_state : ℕ → TcpData → ℕ
next_state state p = switch state event_ignored (
    (st_listen, if p.syn then st_syn_rcvd else event_ignored)
    ∷ (
      st_syn_sent,
      if p.syn && p.ack then st_established else if p.syn then st_syn_rcvd else event_ignored,
    )
    ∷ (st_syn_rcvd, if p.ack then st_established else event_ignored)
    ∷ (st_established, if p.fin then st_close_wait else event_ignored)
    ∷ (
      st_fin_wait_1,
      if p.fin && p.ack
          then st_time_wait
          else if p.fin
          then st_closing
          else if p.ack
          then st_fin_wait_2
          else event_ignored,
    )
    ∷ (st_fin_wait_2, if p.fin then st_time_wait else event_ignored)
    ∷ (st_closing, if p.ack then st_time_wait else event_ignored)
    ∷ (st_last_ack, if p.ack then st_closed else event_ignored)
    ∷ [])

-- The states whose case does not look at the packet
abbrev pub reads_no_packet : ℕ → Bool
reads_no_packet state =
    switch state false ((st_closed, true) ∷ (st_close_wait, true) ∷ (st_time_wait, true) ∷ [])

module _ {W : Type 0} (observe : Signal → W → W) (threads : Threads EventData (Object (Unit {0}) W))
    (hand_over : TcpCall → ℕ → M (TcpMachine W) (Unit {0})) where
  abbrev pub tcp_context : Context EventData (Object (Unit {0}) W)
  tcp_context = context st_max_states no_event_data observe threads

  -- The states other than `ST_TimeWait`, which print and do no more
  quiet : StateFunction EventData (Object (Unit {0}) W)
  quiet d = pure tt

  time_wait : StateFunction EventData (Object (Unit {0}) W)
  time_wait d = internal_event tcp_context st_closed none

  abbrev state_map : List (StateMapRowEx EventData (Object (Unit {0}) W))
  state_map =
      entry_ex quiet
      ∷ entry_ex quiet
      ∷ entry_ex quiet
      ∷ entry_ex quiet
      ∷ entry_ex quiet
      ∷ entry_ex quiet
      ∷ entry_ex quiet
      ∷ entry_ex quiet
      ∷ entry_ex quiet
      ∷ entry_ex quiet
      ∷ entry_ex time_wait
      ∷ []

  tcp_engine : M (TcpMachine W) (Unit {0})
  unfolding state_engine run_events turn_ex take_transition change_state invoke_state_action
      invoke_guard_condition invoke_entry_action invoke_exit_action quiet time_wait internal_event
  tcp_engine = state_engine tcp_context none (some state_map) tcp_fuel

  -- The constructor, with the number of `m_threadObj`
  unfoldable pub tcp_connection : ℕ → W → Outcome (TcpMachine W) (Unit {0})
  unfolding construct set_thread
  tcp_connection thread seen =
      and_then (construct tcp_context st_closed (record { own = tt; seen = seen }))
        (λ _. set_thread tcp_context thread)

  tcp_event : TcpCall → List ℕ → M (TcpMachine W) (Unit {0})
  unfolding tcp_engine begin_transition_map end_transition_map external_event external_event_impl
  tcp_event call transitions =
      begin_transition_map tcp_context (hand_over call)
        (end_transition_map tcp_context tcp_engine transitions st_max_states none)

  unfoldable pub active_open : M (TcpMachine W) (Unit {0})
  unfolding tcp_event
  active_open = tcp_event active_open_call (
      st_syn_sent ∷ event_ignored ∷ event_ignored ∷ event_ignored ∷ event_ignored ∷ event_ignored
      ∷ event_ignored ∷ event_ignored ∷ event_ignored ∷ event_ignored ∷ event_ignored ∷ [])

  unfoldable pub passive_open : M (TcpMachine W) (Unit {0})
  unfolding tcp_event
  passive_open = tcp_event passive_open_call (
      st_listen ∷ event_ignored ∷ event_ignored ∷ event_ignored ∷ event_ignored ∷ event_ignored
      ∷ event_ignored ∷ event_ignored ∷ event_ignored ∷ event_ignored ∷ event_ignored ∷ [])

  unfoldable pub send : M (TcpMachine W) (Unit {0})
  unfolding tcp_event
  send = tcp_event send_call (
      cannot_happen ∷ st_syn_sent ∷ event_ignored ∷ event_ignored ∷ event_ignored ∷ cannot_happen
      ∷ cannot_happen ∷ cannot_happen ∷ cannot_happen ∷ cannot_happen ∷ cannot_happen ∷ [])

  unfoldable pub close : M (TcpMachine W) (Unit {0})
  unfolding tcp_event
  close = tcp_event close_call (
      event_ignored ∷ st_closed ∷ st_closed ∷ st_fin_wait_1 ∷ st_fin_wait_1 ∷ event_ignored
      ∷ event_ignored ∷ st_last_ack ∷ event_ignored ∷ event_ignored ∷ event_ignored ∷ [])

  -- A null pointer is dereferenced in the states whose case looks at the packet.
  packet_target : Option TcpData → ℕ → M (TcpMachine W) ℕ
  packet_target none state = if reads_no_packet state then pure event_ignored else fault undefined
  packet_target (some p) state = pure (next_state state p)

  abbrev event_data_of : Option TcpData → Option EventData
  event_data_of none = none
  event_data_of (some p) = some (tcp_data p)

  -- The test for the thread is that of `BEGIN_TRANSITION_MAP`.
  unfoldable pub handle_packet : Option TcpData → M (TcpMachine W) (Unit {0})
  unfolding tcp_engine packet_target begin_transition_map external_event external_event_impl
  handle_packet d = begin_transition_map tcp_context (hand_over (handle_packet_call d)) (do
    m ← get
    target ← packet_target d m.current_state
    external_event tcp_context tcp_engine target (event_data_of d))
