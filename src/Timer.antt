-- ===== src/Timer.antt =====
-- lib/utlt/src/utlt_timer.c and utlt_timer.h: timers in lists in the order of their expiry.
pub mod Ops
pub mod Sets
pub mod Moves
pub mod Expiry
mod Tests
