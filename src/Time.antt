-- ===== src/Time.antt =====
-- xrbase/time: the timer wheel.
pub mod Wheel
