-- ===== src/Tests.antt =====
-- The theorems at concrete inputs.
mod Values
mod Queues
mod Rooms
mod Lobbies
mod Seats
mod Disconnects
mod Circuits
mod Greeds
mod Served
mod Echoes
mod Bridges
