-- ===== src/Lib.antt =====
-- factory-network-server: a WebSocket server that brings players together. A message of a client is
-- checked (protocol.mjs), then one handler of a table (router.mjs) changes the maps of the server
-- (state.mjs) and sends messages (transport.mjs). Clients meet in rooms of two (rooms.mjs), which they
-- open, join by a code or get from the match queues (matchmaking.mjs), or in lobbies of up to eight
-- (lobby.mjs, lobby-bus.mjs), which a game module with hooks can own (games/registry.mjs).
--
-- Files and what they model, by paths from the repository's root:
--   Prelude      the names that all share: Boolean tests, lists, texts, association lists, ℤ over ℕ
--   Js           JSON values and what the language does with them: properties, truthiness, trim, split,
--                toUpperCase, String(x) and Number(x)
--   Util         src/util.mjs; Util/Bounds and Util/Repeats prove its bounds and its stability
--   Protocol     validateClientFrame of src/protocol.mjs; Protocol/Accepted says what passes
--   Guard        src/connection-guard.mjs and src/connection-lifecycle.mjs, with one file of theorems
--                for the rate, one for the origins and one for the cleanup
--   State        src/state.mjs: the maps of the server in one record, the messages, the sockets
--   Transport    src/transport.mjs; Transport/Codes proves what the room codes are
--   Matchmaking  src/matchmaking.mjs; Keys, Waiting, Lines and Mirrored prove it correct
--   Games        games/registry.mjs: what the generic code asks of the games and of the hooks of a game
--                module. Definitions and Lookup are the games there are, Bridges the rules by which a game's
--                bridge takes messages; Apart, Readable, Routed and Codes prove what they find
--   LobbyBus     src/lobby-bus.mjs
--   Lobby        the parts of src/lobby.mjs by child: Hooks, Leaving, Creating, Joining, Search,
--                Starting, Settings and Sessions; Kept, Frame, Leaves, Seated, Closing,
--                Enters, Creates, Joins, Orphan, Limits and Oldest prove what they do
--   Rooms        src/rooms.mjs: Seats and Joining; Consistent, Leaves and Joins prove the invariant
--   Router       src/router.mjs: Rooms, Matching, Lobbies, Reconnect and Messages model the handlers,
--                Dispatch the table and the message as a whole, Disconnect the lost socket; Orderly, Free,
--                Search, Hazards, Gone, Entering, Served, Handled and Dispatched prove what they keep of rooms
--                and queues together, Resumed, Reseated, Suspended and Returns how a lost seat comes back,
--                Caught which exceptions are caught, Bridged which messages no bridge takes
--   Runtime      src/server-runtime.mjs: connections, the heartbeat and the farewell; Pulse is about the
--                heartbeat's sweeps, Steps puts all that happens to the maps together
--   Circuit      games/circuit-siege/shared: Tiles (tile-connectivity.mjs, route-validator.mjs), Boards
--                (circuit-board.mjs, after board-format.mjs has derived the cells), State, Engine and
--                Start (match-engine.mjs, without the constant matchId and phase), Results
--                (match-results.mjs); Locked proves what an intent leaves alone
--   Echo         games/echo-duel/server/echo-duel-match-engine.mjs: State, Turns, Moves and Clock model it;
--                Bounded, Kept, Moved and Played prove its bounds in every match, Stuck that a match can
--                stand still
--   Greed        games/pot-of-greed/server: State, Vault, Votes, Cycles and Views model the match engine and
--                the phase timer of the adapter; Shares, Conserved, Winners, Runoff and Secrets prove what
--                the players get and see, Roster, Leaders, Rank, Voting, Progress and Ends that a game ends
--   Tests        the theorems at concrete inputs
--
-- How the code corresponds. A Map is an association list in the order of insertion, a Set a list
-- without doubles, a string a list of UTF-16 code units. A function that changes the maps takes the
-- server and returns it; names are those of the code in snake case. A message is a constructor of
-- Payload; sending one appends an event to the log of the network, whose sockets may be shut, slow or
-- throw. A client's id is opaque. The handlers of Router/Messages read the fields of a message, those of
-- the other files take what is read. Exceptions of conversions are `none` of Option.
--
-- Bounds. The random bytes and the codes to be drawn are part of the server's record: `draws` holds
-- what the generator will give, and the loop of uniqueRoomCode runs over it. Where no code of the list
-- is free the loop has not ended, the handler does not return, and the state is the one reached so far;
-- one free code in the list is enough for the loop to end. Numbers of JSON are ±∞, NaN, or an
-- integer and a fraction's part. How a string is read as a number, and a number printed, is a parameter
-- (Host). Unicode case mapping is modelled for the Latin letters and the units whose upper case has
-- ASCII letters; white space is the language's list.
--
-- Not modelled. The game modules under games/ beyond their interface and the match engines of
-- circuit-siege, echo-duel and pot-of-greed: their hooks are functions that may change the match,
-- the status, the start and the seed of their lobby and send messages, and are taken not to throw;
-- the decoration of roster entries by publicPlayerFields is left out. Timers, the HTTP routes, the
-- set-up of the servers (the options of createFactoryNetworkServer, server.mjs), and process-level
-- input and output. How JSON is parsed and what a game's bridge does with a message are parameters
-- of the dispatch, and so is the choice of the bridge, which Games/Bridges defines and
-- Router/Bridged puts in; an exception is an Ending of the handler. A room or a match whose code is
-- not among the draws counts as returned there.
pub mod Prelude
pub mod Js
pub mod Util
pub mod Protocol
pub mod Guard
pub mod State
pub mod Transport
pub mod Matchmaking
pub mod Games
pub mod Echo
pub mod LobbyBus
pub mod Lobby
pub mod Rooms
pub mod Router
pub mod Runtime
pub mod Tests
pub mod Circuit
pub mod Greed
