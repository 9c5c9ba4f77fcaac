-- ===== src/Circuit.antt =====
-- games/circuit-siege/shared: the tiles of a board, and the match that is played on it.
pub mod Tiles
pub mod State
pub mod Engine
pub mod Start
pub mod Boards
pub mod Results
pub mod Locked
