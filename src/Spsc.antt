-- ===== src/Spsc.antt =====
pub mod Cells
pub mod Layout
pub mod Ring
pub mod Protocol
pub mod Calls
pub mod Machine
pub mod Order
pub mod Progress
pub mod Plain
pub mod Class
pub mod Cached
pub mod Counted
pub mod Owned
pub mod Flagged
pub mod Schedule
