-- ===== src/Server/Routing/Routes.antt =====
-- `processClientSendMessage`: on every well-formed server, each message of a type takes one of
-- four routes, chosen by what the server knows of its destination.
use cpsc.Common.{
  ◌<◌, ◌-◌, [], ◌∷◌, Option, none, some, ◌≡◌, ◌≢◌, inl, inr, refl, arith, Bool-cases, returns,
  not_of_false,
}
use cpsc.Text.{Bytes}
use cpsc.Constants.{highest_server_index, number_of_servers, mt_undefined}
use cpsc.Message.{DataMessage, as_char_vector, wire}
use cpsc.Message.Types.{view_message_type_as_string-total}
use cpsc.Connection.{RemoteConnection}
use cpsc.Server.State.{
  Server, Result, is_connected, add_to_message_list, add_to_message_list_of_unassociated_clients,
}
use cpsc.Server.State.WellFormed.{IsWellFormed, Placed}
use cpsc.Server.Routing.{ascending, descending, is_served_at, forward, process_client_send_message}
use cpsc.Server.Routing.Search.{
  IsConnected, IsServedLeft, IsServedRight, is_connected_iff, IsServedLeft-iff, IsServedRight-iff,
}

pub as_char_vector-total :
    (m : DataMessage)
    → m.message_type ≢ mt_undefined
    → (bytes : Bytes) × (as_char_vector m ≡ returns bytes)
unfolding as_char_vector
as_char_vector-total m h =
    let (name, e) = view_message_type_as_string-total m.message_type h in (wire m name, rw e)

module _ {E T : Type 0} (m : DataMessage) (s : Server E T) where
  abbrev destination : Bytes
  destination = m.destination_identifier

  -- The message is passed on unchanged, in one datagram.
  pub record Forwards (to : Option (RemoteConnection E T)) (r : Result E T) : Type 0 where
    pub connection : RemoteConnection E T
    pub bytes : Bytes
    pub exists : to ≡ some connection
    pub printed : as_char_vector m ≡ returns bytes
    pub result : r ≡ returns (s, record { to = connection.endpoint; bytes = bytes } ∷ [])

  pub data Routes (r : Result E T) : Type 0 where
    stays : IsConnected destination s → r ≡ returns (add_to_message_list m s, []) → Routes r
    leftwards :
        ¬ IsConnected destination s
        → IsServedLeft destination s
        → Forwards s.left_adjacent_server_connection r
        → Routes r
    rightwards :
        ¬ IsConnected destination s
        → ¬ IsServedLeft destination s
        → IsServedRight destination s
        → Forwards s.right_adjacent_server_connection r
        → Routes r
    waits :
        ¬ IsConnected destination s
        → ¬ IsServedLeft destination s
        → ¬ IsServedRight destination s
        → r ≡ returns (add_to_message_list_of_unassociated_clients m s, [])
        → Routes r

  pub forward-Forwards :
      (to : Option (RemoteConnection E T))
      → m.message_type ≢ mt_undefined
      → to ≢ none
      → Forwards to (forward m to s)
  unfolding forward
  forward-Forwards none typed h = absurd (h refl)
  forward-Forwards (some c) typed h =
      let (bytes, e) = as_char_vector-total m typed in
      record { connection = c; bytes = bytes; exists = refl; printed = e; result = rw e }

  -- The choice made by the three searches, with nothing assumed of the connections.
  search_routes :
      s.index < number_of_servers
      → (R : Result E T → Type 0)
      → (IsConnected destination s → R (returns (add_to_message_list m s, [])))
      → (¬ IsConnected destination s
          → IsServedLeft destination s
          → R (forward m s.left_adjacent_server_connection s))
      → (¬ IsConnected destination s
          → ¬ IsServedLeft destination s
          → IsServedRight destination s
          → R (forward m s.right_adjacent_server_connection s))
      → (¬ IsConnected destination s
          → ¬ IsServedLeft destination s
          → ¬ IsServedRight destination s
          → R (returns (add_to_message_list_of_unassociated_clients m s, [])))
      → R (process_client_send_message m s)
  unfolding process_client_send_message
  search_routes inside R stay go_left go_right wait =
      let here = is_connected destination s.connected_clients in
      let left = is_served_at s destination (ascending s.index 0) in
      let right =
        is_served_at s destination
          (descending (highest_server_index - s.index) highest_server_index) in
      let here_iff = is_connected_iff destination s in
      let left_iff = IsServedLeft-iff destination s in
      let right_iff = IsServedRight-iff destination s inside in
      elim (Bool-cases here) [
        | inl e ↦ rw e (stay (here_iff.0 e))
        | inr e ↦ elim (Bool-cases left) [
          | inl l ↦ rw (e, l) (go_left (not_of_false here here_iff e) (left_iff.0 l))
          | inr l ↦ elim (Bool-cases right) [
            | inl r ↦
                rw (e, l, r)
                  (go_right (not_of_false here here_iff e) (not_of_false left left_iff l)
                    (right_iff.0 r))
            | inr r ↦
                rw (e, l, r)
                  (wait (not_of_false here here_iff e) (not_of_false left left_iff l)
                    (not_of_false right right_iff r))
          ]
        ]
      ]

  pub Routes-of_Placed :
      Placed s → m.message_type ≢ mt_undefined → Routes (process_client_send_message m s)
  Routes-of_Placed w typed =
      search_routes w.in_range Routes (λ here. stays here refl)
        (λ away left.
          leftwards away left
            (forward-Forwards _ typed (λ e. absurd (omega (arith, left.1, w.left_end.0 e)))))
        (λ away not_left right. rightwards away not_left right (
          forward-Forwards _ typed
            (λ e. absurd (omega (arith, right.1, right.2, w.right_end.0 e)))))
        (λ away not_left not_right. waits away not_left not_right refl)

  -- `processClientSendMessage` always returns on a well-formed server: a client of this server
  -- gets the message into the message list; else a client that a list of a server to the left
  -- names gets it sent unchanged to the left neighbour; else one that a list to the right names,
  -- to the right neighbour; and only if no list names the client it is held back. The assertions
  -- on a missing neighbour never fail.
  pub process_client_send_message-Routes :
      IsWellFormed s → m.message_type ≢ mt_undefined → Routes (process_client_send_message m s)
  process_client_send_message-Routes w typed = Routes-of_Placed w.placed typed
