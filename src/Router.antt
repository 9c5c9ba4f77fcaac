-- ===== src/Router.antt =====
-- src/router.mjs: what each message of a client does.
pub mod Rooms
pub mod Matching
pub mod Orderly
pub mod Free
pub mod Search
pub mod Hazards
pub mod Lobbies
pub mod Disconnect
pub mod Reconnect
pub mod Messages
pub mod Dispatch
pub mod Gone
pub mod Entering
pub mod Served
pub mod Handled
pub mod Dispatched
pub mod Resumed
pub mod Reseated
pub mod Suspended
pub mod Returns
pub mod Caught
pub mod Bridged
