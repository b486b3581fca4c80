-- ===== src/UnitTests.antt =====
-- The state machines that the unit tests define (unit-tests/).
pub mod TestSm
pub mod ParentChild
pub mod StressMotor
pub mod TestHsm
pub mod StressHsm
pub mod Cases
use active_fsm.Base.{ℕ}

-- The only class of event data
pub data EventData : Type 0 where
  no_event_data : EventData
