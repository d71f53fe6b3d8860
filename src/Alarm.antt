-- ===== src/Alarm.antt =====
-- sources/components/nn20clock_alarm: the alarm record, when it fires, and the list of alarms.
pub mod Model
pub mod Validate
pub mod Libc
pub mod Occurrence
pub mod Slots
