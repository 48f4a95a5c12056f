-- ===== src/Xact.antt =====
-- lib/pfcp/src/pfcp_xact.c: the transactions of the packet forwarding control protocol, one for a
-- request and its response, found again by the sequence number of the message.
pub mod Types
pub mod Exchange
pub mod Life
pub mod Traffic
pub mod Protocol
pub mod Identifiers
pub mod Lookup
pub mod Duplicates
pub mod Ending
pub mod Timers
mod Tests
