-- ===== src/Rooms.antt =====
-- src/rooms.mjs: the rooms of two players.
pub mod Seats
pub mod Joining
pub mod Consistent
pub mod Leaves
pub mod Joins
pub mod Others
