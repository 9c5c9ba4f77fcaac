-- ===== src/Greed.antt =====
-- games/pot-of-greed/server/pot-of-greed-match-engine.mjs: a vault that the players may steal from, and
-- the votes on whom they suspect.
pub mod State
pub mod Vault
pub mod Votes
pub mod Cycles
pub mod Views
pub mod Shares
pub mod Conserved
pub mod Roster
pub mod Leaders
pub mod Rank
pub mod Voting
pub mod Progress
pub mod Ends
pub mod Winners
pub mod Runoff
pub mod Secrets
