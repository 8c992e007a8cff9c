-- ===== src/Mpmc.antt =====
-- The queues of many producers and many consumers.
pub mod Remap
pub mod Ring
pub mod Machine
pub mod Inv
pub mod Frames
pub mod Apart
pub mod Moves
pub mod Steps
pub mod Tickets
pub mod Turns
pub mod Order
pub mod Refuse
pub mod Calls
pub mod Alone
pub mod Seq
pub mod Split
pub mod States
