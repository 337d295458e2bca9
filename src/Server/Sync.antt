-- ===== src/Server/Sync.antt =====
-- The lists of clients that a server sends to its neighbours: a round of `sendSyncPayloads`, with
-- `sendSyncPayloadsLeft` and `sendSyncPayloadsRight`.
pub mod Payloads
pub mod Round
use cpsc.Common.{
  ℕ, ◌-◌, ◌+◌, ℤ, pos, List, [], ◌∷◌, ◌++◌, Option, none, some, returns, ◌>>=◌, map, set,
}
use cpsc.Text.{Bytes}
use cpsc.Constants.{highest_server_index, server_index_to_server_name, to_uint8, mt_server_sync}
use cpsc.Message.{sync_message, as_char_vector}
use cpsc.Connection.{RemoteConnection}
use cpsc.Server.State.{Server, Result, clients_served, next_sequence_number}
use cpsc.Server.Routing.{ascending, descending}

module _ {E T : Type 0} where
  -- One message: the list `clients` of server `i`, to the neighbour of index `neighbour`.
  unfoldable pub send_sync : ℤ → RemoteConnection E T → ℕ → List Bytes → Server E T → Result E T
  send_sync neighbour c i clients s =
      let (s', n) = next_sequence_number s in
      server_index_to_server_name s.index >>= λ source.
      server_index_to_server_name (to_uint8 neighbour) >>= λ destination.
      as_char_vector (sync_message n mt_server_sync source destination clients (pos i)) >>= λ bytes.
      returns (s', record { to = c.endpoint; bytes = bytes } ∷ [])

  -- An empty list is passed over.
  send_sync_of : ℤ → RemoteConnection E T → ℕ → List Bytes → Server E T → Result E T
  unfolding send_sync
  send_sync_of neighbour c i [] s = returns (s, [])
  send_sync_of neighbour c i (client ∷ clients) s = send_sync neighbour c i (client ∷ clients) s

  -- The loop over the servers whose lists are sent.
  pub send_sync_loop : ℤ → RemoteConnection E T → List ℕ → Server E T → Result E T
  unfolding send_sync_of
  send_sync_loop neighbour c [] s = returns (s, [])
  send_sync_loop neighbour c (i ∷ is) s = send_sync_of neighbour c i (clients_served s i) s >>= λ r.
      send_sync_loop neighbour c is r.0 >>= λ q. returns (q.0, r.1 ++ q.1)

  send_sync_if : ℤ → Option (RemoteConnection E T) → List ℕ → Server E T → Result E T
  unfolding send_sync_loop
  send_sync_if neighbour none is s = returns (s, [])
  send_sync_if neighbour (some c) is s = send_sync_loop neighbour c is s

  unfoldable pub send_sync_payloads_left : Server E T → Result E T
  unfolding send_sync_if
  send_sync_payloads_left s =
      send_sync_if s.left_adjacent_server_index s.left_adjacent_server_connection
        (ascending (highest_server_index + 1 - s.index) s.index) s

  unfoldable pub send_sync_payloads_right : Server E T → Result E T
  unfolding send_sync_if
  send_sync_payloads_right s =
      send_sync_if s.right_adjacent_server_index s.right_adjacent_server_connection
        (descending (s.index + 1) s.index) s

  -- The server's own list is taken from its connections first.
  unfoldable pub refresh_own_clients : Server E T → Server E T
  refresh_own_clients s = record s {
    clients_served_by_server_index =
        set s.clients_served_by_server_index s.index (map (λ c. c.identifier) s.connected_clients);
  }

  unfoldable pub send_sync_payloads : Server E T → Result E T
  unfolding refresh_own_clients send_sync_payloads_left send_sync_payloads_right
  send_sync_payloads s = send_sync_payloads_left (refresh_own_clients s) >>= λ r.
      send_sync_payloads_right r.0 >>= λ q. returns (q.0, r.1 ++ q.1)
