-- ===== src/Server/State.antt =====
-- The members of the class `server`, its constructor, and the functions that change one member.
-- `E` and `T` are the endpoints and times of Boost.
pub mod WellFormed
pub mod Construct
pub mod Connections
use cpsc.Common.{
  throws, ℕ, zero, suc, ℤ, pos, negsuc, increment64, List, [], ◌∷◌, ◌++◌, Bool, false, Option, none,
  some, if◌then◌else◌, Outcome, returns, undefined, ◌>>=◌, ltb, set, get_or, replicate,
}
use cpsc.Text.{Bytes, to_string, equals}
use cpsc.Constants.{
  at, to_uint8, server_host_name, server_listening_ports, server_index_to_server_name,
  number_of_servers, left_adjacent_server_index_is_valid, right_adjacent_server_index_is_valid,
  mt_server_send, mt_client_send,
}
use cpsc.Message.{DataMessage, set_message_type, view_server_sync_payload}
use cpsc.Connection.{RemoteConnection, remote_connection, Datagram}

-- `index` is an `int8_t` that is never negative.
pub record Server (E T : Type 0) : Type 0 where
  pub index : ℕ
  pub terminate : Bool
  pub sequence_number : ℤ
  pub message_list : List DataMessage
  pub message_list_of_unassociated_clients : List DataMessage
  pub connected_clients : List (RemoteConnection E T)
  pub left_adjacent_server_index : ℤ
  pub left_adjacent_server_connection : Option (RemoteConnection E T)
  pub right_adjacent_server_index : ℤ
  pub right_adjacent_server_connection : Option (RemoteConnection E T)
  pub clients_served_by_server_index : List (List Bytes)

-- What a member function does: the new state and what it sent.
abbrev pub Result : Type 0 → Type 0 → Type 0
Result E T = Outcome (Server E T × List (Datagram E))

-- `inServerIndex - 1`
abbrev pub left_of : ℕ → ℤ
left_of zero = negsuc 0
left_of (suc i) = pos i

-- The constructor. `resolve` is Boost's resolver, from a host name and a port to an endpoint, and
-- `port_is_free` whether Boost can bind a socket to a port.
module _ {E T : Type 0} (resolve : Bytes → Bytes → Outcome E) (now : T) where
  connect : ℤ → Outcome (RemoteConnection E T)
  connect i = do
    address ← server_host_name (to_uint8 i)
    port ← at server_listening_ports (to_uint8 i)
    endpoint ← resolve address (to_string (pos port))
    name ← server_index_to_server_name (to_uint8 i)
    returns (remote_connection name endpoint now)

  connect_if : Bool → ℤ → Outcome (Option (RemoteConnection E T))
  unfolding connect
  connect_if valid i = if valid then (do c ← connect i; returns (some c)) else returns none

  -- The body of the constructor.
  unfoldable pub initialise : ℕ → Outcome (Server E T)
  unfolding connect_if
  initialise i = do
    server_name ← server_index_to_server_name i
    left ← connect_if (left_adjacent_server_index_is_valid (left_of i)) (left_of i)
    right ← connect_if (right_adjacent_server_index_is_valid (pos (suc i))) (pos (suc i))
    returns (record {
      index = i;
      terminate = false;
      sequence_number = pos 0;
      message_list = [];
      message_list_of_unassociated_clients = [];
      connected_clients = [];
      left_adjacent_server_index = left_of i;
      left_adjacent_server_connection = left;
      right_adjacent_server_index = pos (suc i);
      right_adjacent_server_connection = right;
      clients_served_by_server_index = replicate number_of_servers [];
    })

  -- The member `m_UDPsocket` is bound to the listening port first, and throws if it is taken.
  unfoldable pub construct : (ℕ → Bool) → ℕ → ℕ → Outcome (Server E T)
  construct port_is_free port i = if port_is_free port then initialise i else throws

module _ {E T : Type 0} where
  -- `sequenceNumber()`: the new number is also the result.
  unfoldable pub next_sequence_number : Server E T → Server E T × ℤ
  next_sequence_number s =
      let n = increment64 s.sequence_number in (record s { sequence_number = n }, n)

  -- The array of client lists at an index in bounds.
  abbrev pub clients_served : Server E T → ℕ → List Bytes
  clients_served s i = get_or s.clients_served_by_server_index i []

  -- A write to the array; the index is an `int8_t`.
  store_clients : ℤ → List Bytes → Server E T → Outcome (Server E T)
  store_clients (pos i) clients s =
      if ltb i number_of_servers
      then returns (record s {
        clients_served_by_server_index = set s.clients_served_by_server_index i clients;
      })
      else undefined
  store_clients (negsuc i) clients s = undefined

  unfoldable pub receive_clients_from_adjacent_servers :
      DataMessage → Server E T → Outcome (Server E T)
  unfolding store_clients
  receive_clients_from_adjacent_servers m s =
      store_clients m.server_sync_payload_origin_index (view_server_sync_payload m) s

  unfoldable pub add_client_connection : Bytes → E → T → Server E T → Server E T
  add_client_connection username endpoint now s = record s {
    connected_clients = s.connected_clients ++ remote_connection username endpoint now ∷ [];
  }

  -- The loop of `removeClientConnection`: its `break` ends the first round.
  unfoldable pub remove_connection :
      Bytes → List (RemoteConnection E T) → List (RemoteConnection E T)
  remove_connection username [] = []
  remove_connection username (c ∷ cs) = if equals c.identifier username then cs else c ∷ cs

  unfoldable pub remove_client_connection : Bytes → Server E T → Server E T
  unfolding remove_connection
  remove_client_connection username s = record s {
    connected_clients = remove_connection username s.connected_clients;
  }

  unfoldable pub add_to_message_list : DataMessage → Server E T → Server E T
  add_to_message_list m s = record s {
    message_list = s.message_list ++ set_message_type mt_server_send m ∷ [];
  }

  unfoldable pub add_to_message_list_of_unassociated_clients : DataMessage → Server E T → Server E T
  add_to_message_list_of_unassociated_clients m s = record s {
    message_list_of_unassociated_clients =
        s.message_list_of_unassociated_clients ++ set_message_type mt_client_send m ∷ [];
  }

  -- A loop that looks for a client among the connections.
  unfoldable pub is_connected : Bytes → List (RemoteConnection E T) → Bool
  is_connected name [] = false
  is_connected name (c ∷ cs) =
      let rest = is_connected name cs in if equals c.identifier name then Bool.true else rest
