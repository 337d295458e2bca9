-- ===== src/Server/Routing.antt =====
-- Where a message goes: `processClientSendMessage`, `processServerRelayMessage`, and a round of
-- `attemptForward`.
pub mod Search
pub mod Routes
pub mod Relay
pub mod Waiting
pub mod Preserve
pub mod Drain
use cpsc.Common.{
  ℕ, zero, suc, ◌-◌, ◌+◌, pos, ltb_ℤ, List, [], ◌∷◌, ◌++◌, Bool, true, false, Option, none, some,
  length, if◌then◌else◌, returns, aborts, undefined, ◌>>=◌,
}
use cpsc.Text.{Bytes, equals}
use cpsc.Constants.{highest_server_index, server_index_to_server_name}
use cpsc.Message.{DataMessage, as_char_vector}
use cpsc.Connection.{RemoteConnection}
use cpsc.Server.State.{
  Server, Result, clients_served, is_connected, add_to_message_list,
  add_to_message_list_of_unassociated_clients,
}

-- The values of a loop counter that goes up, or down, from a start.
abbrev pub ascending : ℕ → ℕ → List ℕ
ascending zero start = []
ascending (suc rounds) start = start ∷ ascending rounds (start + 1)

abbrev pub descending : ℕ → ℕ → List ℕ
descending zero start = []
descending (suc rounds) start = start ∷ descending rounds (start - 1)

-- The loop over the names of one list.
unfoldable pub is_listed : Bytes → List Bytes → Bool
is_listed name [] = false
is_listed name (c ∷ cs) = let rest = is_listed name cs in if equals c name then true else rest

module _ {E T : Type 0} where
  -- The loops over servers: is the client in one of the lists?
  unfoldable pub is_served_at : Server E T → Bytes → List ℕ → Bool
  unfolding is_listed
  is_served_at s name [] = false
  is_served_at s name (i ∷ is) =
      let rest = is_served_at s name is in
      if is_listed name (clients_served s i) then true else rest

  -- `assert(false)` where there is no such server.
  unfoldable pub forward : DataMessage → Option (RemoteConnection E T) → Server E T → Result E T
  forward m none s = aborts
  forward m (some c) s = do
    bytes ← as_char_vector m
    returns (s, record { to = c.endpoint; bytes = bytes } ∷ [])

  unfoldable pub process_client_send_message : DataMessage → Server E T → Result E T
  unfolding is_served_at forward
  process_client_send_message m s =
      let destination = m.destination_identifier in
      if is_connected destination s.connected_clients
      then returns (add_to_message_list m s, [])
      else if is_served_at s destination (ascending s.index 0)
      then forward m s.left_adjacent_server_connection s
      else if is_served_at s destination
          (descending (highest_server_index - s.index) highest_server_index)
      then forward m s.right_adjacent_server_connection s
      else returns (add_to_message_list_of_unassociated_clients m s, [])

  unfoldable pub process_server_relay_message : DataMessage → Server E T → Result E T
  unfolding forward
  process_server_relay_message m s = do
    name ← server_index_to_server_name s.index
    if equals m.destination_identifier name
        then returns (add_to_message_list m s, [])
        else if ltb_ℤ m.server_sync_payload_origin_index (pos s.index)
        then forward m s.right_adjacent_server_connection s
        else forward m s.left_adjacent_server_connection s

  -- The `for` loop of `attemptForward`; `front` of an empty list is undefined.
  attempt_forward_loop : ℕ → Server E T → Result E T
  unfolding process_client_send_message
  attempt_forward_loop zero s = returns (s, [])
  attempt_forward_loop (suc rounds) s = elim s.message_list_of_unassociated_clients [
    | [] ↦ undefined
    | m ∷ ms ↦
        process_client_send_message m (record s { message_list_of_unassociated_clients = ms })
        >>= λ r. attempt_forward_loop rounds r.0 >>= λ q. returns (q.0, r.1 ++ q.1)
  ]

  unfoldable pub attempt_forward : Server E T → Result E T
  unfolding attempt_forward_loop
  attempt_forward s = attempt_forward_loop (length s.message_list_of_unassociated_clients) s
