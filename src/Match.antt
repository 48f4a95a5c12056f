-- ===== src/Match.antt =====
-- src/up/up_match.c and up_match.h: which packet detection rule a user packet falls under.
pub mod Packet
pub mod Rules
pub mod Order
pub mod Find
pub mod Compile
pub mod Address
pub mod Filters
pub mod Entry
pub mod Store
pub mod Header
mod Tests
mod EntryTests
