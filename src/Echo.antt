-- ===== src/Echo.antt =====
-- games/echo-duel/server/echo-duel-match-engine.mjs: a memory game, in which the owner of a turn sets
-- a pattern of inputs that the others copy. The line of text that says how the match stands is left
-- out, and so are the copies that the code makes of its objects.
pub mod State
pub mod Turns
pub mod Moves
pub mod Clock
pub mod Bounded
pub mod Kept
pub mod Moved
pub mod Played
pub mod Stuck
