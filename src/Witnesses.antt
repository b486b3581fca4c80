-- ===== src/Witnesses.antt =====
-- Tests, and instances of theorems at concrete machines.
pub mod Flat
pub mod Plain
pub mod Hierarchy
pub mod HierarchyRun
pub mod Motor
pub mod AlarmPanel
pub mod CentrifugeTest
pub mod Player
pub mod TcpConnection
pub mod TestSm
pub mod ParentChild
pub mod Producers
pub mod TestHsm
pub mod Bounds
pub mod HsmProducers
pub mod AnyMap
pub mod RoundTrip
pub mod TestThreads
pub mod TcpThreads
pub mod NoNull
use active_fsm.Base.{ℕ, Option, List, [], ◌∷◌, ◌==◌}
use active_fsm.Outcome.{pure}
use active_fsm.StateMachine.Observed.{Signal, Threads}

-- An observer that keeps what it is told, newest first
abbrev pub keep : Signal → List Signal → List Signal
keep x xs = x ∷ xs

-- Thread 7 is the one that runs; what is handed to a thread is not run.
abbrev pub thread_7 : {D U : Type 0} → Threads D U
thread_7 = record { is_current_thread = λ t. t == 7; post = λ _ _ _. pure tt }
