-- ===== src/Timer.antt =====
-- sources/components/nn20clock_timer: the tick, the alarms that it fires, and its subscribers. The
-- state is what the Timer's worker owns; each function is one request that the worker runs, and the
-- calls of subscribers' callbacks are listed in the order in which they are made. A callback does
-- not call back into the Timer within the same request.
pub mod State
pub mod Scan
pub mod Poll
pub mod Control
pub mod Firing
pub mod Corrections
pub mod Snooze
pub mod Lost
pub mod Events
pub mod Once
pub mod Subscribers
