-- ===== src/Lobby.antt =====
-- The modules of src/lobby.mjs.
pub mod Hooks
pub mod Leaving
pub mod Frame
pub mod Kept
pub mod Leaves
pub mod Seated
pub mod Closing
pub mod Enters
pub mod Creates
pub mod Joins
pub mod Orphan
pub mod Creating
pub mod Joining
pub mod Search
pub mod Starting
pub mod Sessions
pub mod Settings
pub mod Limits
pub mod Oldest
pub mod Quiet
