-- ===== src/Lib.antt =====
-- The state machine framework of active-fsm, and its example machines.
--
-- The program. A class derives from `StateMachine` (state-machine/StateMachine.h) or
-- `StateMachineHSM` (state-machine/StateMachineHSM.h). Its public functions are events: a transition
-- map gives the target for each current state, and `ExternalEvent` runs the target, ignores the event,
-- or asserts. A state engine then executes states until none of them has posted an event. The engine
-- of `StateMachine` calls guard, exit, entry and state functions of a state map; that of
-- `StateMachineHSM` also leaves and enters the states between the old state, the new one and their
-- least common ancestor. With a thread set, a call from another thread is handed to that thread.
--
-- Which file models which part.
--   Base, Outcome          lists and numbers; calls that may assert, and loops on fuel
--   StateMachine           the members of the class, and the rows of state maps
--   StateMachine/Engine    the three `StateEngine` functions of state-machine/StateMachine.cpp, and the
--                          `Invoke` functions of the header
--   StateMachine/Events    `ExternalEvent`, `ExternalEventImpl`, `InternalEvent`, the constructor, and
--                          the macros for transition maps
--   StateMachine/Loop, Dispatch, Object
--                          the engine's loop; how events enter; the object of a derived class
--   StateMachine/Observed, Spec, Rounds, Refinement, PlainRefinement
--                          machines whose functions leave the members alone, what they promise, and the
--                          engines against it
--   StateMachine/Termination, NoNull
--                          run to completion; what becomes of a null pointer to event data
--   StateMachine/Bounds    the range of the current state, whatever the functions of a machine do that
--                          keep it, calls of `ExternalEvent` from a state function included
--   StateMachine/ActiveObject
--                          a machine with a thread: a queue of calls that other threads hand to it, what
--                          a class has to meet (`IsActive`), and what then holds of any class
--   StateMachineHsm        the rows of hierarchical state maps
--   StateMachineHsm/Ancestors, Engine, Propagation
--                          `FindLCA`, the hierarchical `StateEngine`, `END_TRANSITION_MAP_HSM`
--   StateMachineHsm/Chain, Lca, Walks, Transition, Handlers, Cycles
--                          chains of ancestors, the operations against them, and cyclic maps
--   StateMachineHsm/Spec, Refinement, Termination
--                          what a hierarchical machine promises, the engine against it, and run to
--                          completion
--   StateMachineHsm/Bounds, AnyMap, RoundTrip
--                          the range of the current state, state maps that may be malformed, and changes
--                          of state that are taken back
--   Examples               the classes of examples/, one file each; `Laws` has what each event comes
--                          to in each state, `Promise` what holds over any history of events, `Async` the
--                          class as an active object; Examples/Table/Follow has what follows of a table
--   Main                   main.cpp, part by part; Main/Runs has what each part comes to and prints
--   UnitTests              the machines that unit-tests/ defines, and what holds over any history of
--                          their events; Producers has the threads of the concurrent cases; Cases has the
--                          other test cases, which are evaluated
--   Witnesses              tests, and instances of the theorems
--
-- State and operations. `Machine` holds the members of `StateMachine` (`m_currentState` is
-- `current_state`, and so on) and, as `object`, all that the functions of the derived class, the
-- observers and the threads' queues reach. A function of the class is a function from that state to an
-- `Outcome`: a result, a fault (an assertion, which does not return, or behaviour that C++ leaves
-- undefined), or `unfinished`. Pointers to functions and data are options. Numbers of states are natural
-- numbers: the program compares and copies its `uint8_t` values and computes with none of them.
-- The `int` members that count calls are natural numbers, and `int` speeds are integers, without the
-- bounds of the type.
--
-- Parameters. DelegateMQ (delegate-mq/) is another project's library. What is called of it stands as
-- an argument: `observe` or the `on_` fields of `Context` for the observers of signals,
-- `is_current_thread` for `IThread::IsCurrentThread`, `post` and `hand_over` for a call that
-- `MakeDelegate` hands to a thread. No law is assumed of them. StateMachine/ActiveObject puts a queue
-- in the place of the last: a call is appended to it, and nothing else happens. Its thread takes calls in
-- any order (`Reached`, `Reachable`), or first in, first out (`drain`), as `ExitThread` of the library
-- documents. Another thread that makes a call while the machine's thread is in the midst of one sees the
-- thread and the queue as they are, since that call leaves them alone, and any values of the other members.
--
-- Bounds. Loops that the source bounds (`MAX_HSM_DEPTH`) recur on the rounds left and assert at the end,
-- as the source does. `while (m_eventGenerated)` and the loop of `END_TRANSITION_MAP_HSM` have no bound
-- in the source and run on fuel. The fuel of each example machine is the length of its longest chain of
-- events, and where a result says that a call is done, that fuel is enough for it.
--
-- Not modelled: the timers' thread, sleeps and headings of main.cpp, the lists of the test cases that
-- print their names, what the example machines print (but for `AlarmPanel`), destructors, a thread of the
-- machine that is exchanged while it runs, a queue that is full, and delegate-mq/.
pub mod Base
pub mod Outcome
pub mod StateMachine
pub mod StateMachineHsm
pub mod Examples
pub mod Main
pub mod UnitTests
pub mod Witnesses
