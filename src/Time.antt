-- ===== src/Time.antt =====
-- The durations of time/duration.rs, and the clocks of sys/unix/time.rs.
pub mod Duration
pub mod Timespec
