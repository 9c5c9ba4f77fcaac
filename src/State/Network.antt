-- ===== src/State/Network.antt =====
-- The sockets of the package `ws`, as far as the server uses them: whether one is open, how many
-- bytes wait in it, and whether its calls throw.
use factory_network_server.Prelude.{ℕ, Bool, List, if◌then◌else◌, nat_eq}
use factory_network_server.State.Messages.{Payload}

pub record Socket : Type 0 where
  pub is_open : Bool
  pub buffered_amount : ℕ
  pub send_throws : Bool
  pub close_throws : Bool

pub data Event : Type 0 where
  sent : ℕ → Payload → Event
  closed : ℕ → ℕ → Event
  terminated : ℕ → Event

pub record Net : Type 0 where
  pub socket : ℕ → Socket
  -- How many bytes of a payload the network leaves in the buffer.
  pub queued_bytes : ℕ → Payload → ℕ
  -- The newest event first.
  pub log : List Event

abbrev pub update_socket : (ℕ → Socket) → ℕ → Socket → ℕ → Socket
update_socket f ws v other = if nat_eq ws other then v else f other
