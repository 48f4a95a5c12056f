-- ===== src/Buff.antt =====
-- lib/utlt/src/utlt_buff.c and utlt_buff.h: memory blocks from pools of fixed sizes.
pub mod Ops
pub mod Bytes
pub mod Classes
pub mod Content
pub mod Alloc
mod Tests
