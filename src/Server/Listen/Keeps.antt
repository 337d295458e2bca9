-- ===== src/Server/Listen/Keeps.antt =====
-- What no round of a thread changes: the server's index, `m_terminate` and the connections to its
-- neighbours.
use cpsc.Common.{
  ℤ, ◌∙◌, ◌≡◌, ◌≢◌, [], List, refl, sym, ap, subst, Outcome, returns, throws, aborts, undefined,
  Ensures, Ensures-map, Returns-Ensures, inl, inr,
}
use cpsc.Text.{Bytes}
use cpsc.Constants.{
  MessageType, mt_undefined, mt_client_connect, mt_client_disconnect, mt_client_send, mt_client_get,
  mt_client_ack, mt_server_send, mt_server_ack, mt_server_sync, mt_ping,
}
use cpsc.Message.{
  DataMessage, of_char_vector, received_vector, view_server_sync_payload,
  view_message_type_as_string,
}
use cpsc.Message.Parsed.{of_char_vector-typed}
use cpsc.Message.Types.{view_message_type_as_string-ne}
use cpsc.Connection.{Datagram, Event, datagram, failure, RemoteConnection}
use cpsc.Server.State.{
  Server, Result, add_client_connection, remove_client_connection, add_to_message_list,
  add_to_message_list_of_unassociated_clients,
}
use cpsc.Server.State.WellFormed.{IsWellFormed, receive_clients_out_of_range}
use cpsc.Server.Mailbox.{send_messages_to_client, remove_received_message_from_list}
use cpsc.Server.Mailbox.Delivery.{send_messages_to_client-Serves}
use cpsc.Server.Routing.{process_client_send_message, process_server_relay_message, attempt_forward}
use cpsc.Server.Routing.Routes.{
  Routes, stays, leftwards, rightwards, waits, process_client_send_message-Routes,
}
use cpsc.Server.Routing.Relay.{
  Relays, arrives, onwards_right, onwards_left, off_right_end, off_left_end,
  process_server_relay_message-Relays,
}
use cpsc.Server.Routing.Waiting.{Sorted, attempt_forward-Sorted}
use cpsc.Server.Sync.{send_sync_payloads, refresh_own_clients}
use cpsc.Server.Sync.Round.{SyncRound, send_sync_payloads-SyncRound}
use cpsc.Server.Listen.{dispatch, listen_udp, handle_read, handle}
use cpsc.Server.Listen.Handling.{CanStore-cases}
use cpsc.Server.Listen.Hop.{dispatch_sync}

module _ {E T : Type 0} (s : Server E T) where
  pub record Keeps (r : Server E T × List (Datagram E)) : Type 0 where
    pub index : r.0.index ≡ s.index
    pub terminate : r.0.terminate ≡ s.terminate
    pub left : r.0.left_adjacent_server_connection ≡ s.left_adjacent_server_connection
    pub right : r.0.right_adjacent_server_connection ≡ s.right_adjacent_server_connection

  -- The other members may change.
  pub unchanged :
      {n : ℤ} {kept waiting : List DataMessage} {clients : List (RemoteConnection E T)}
      {served : List (List Bytes)} {sent : List (Datagram E)}
      → Keeps (
        record s {
          sequence_number = n;
          message_list = kept;
          message_list_of_unassociated_clients = waiting;
          connected_clients = clients;
          clients_served_by_server_index = served;
        },
        sent,
      )
  unchanged = record { index = refl; terminate = refl; left = refl; right = refl }

  -- A result that is known.
  Keeps-of_eq :
      (r : Result E T) (t : Server E T) (sent : List (Datagram E))
      → r ≡ returns (t, sent)
      → Keeps (t, sent)
      → Ensures Keeps r
  Keeps-of_eq r t sent e kept = subst (Ensures Keeps) (sym e) kept

  Keeps-of_state :
      (t : Server E T) {r : Server E T × List (Datagram E)} → r.0 ≡ t → Keeps (t, []) → Keeps r
  Keeps-of_state t e kept = record {
    index = ap (λ t. t.index) e ∙ kept.index;
    terminate = ap (λ t. t.terminate) e ∙ kept.terminate;
    left = ap (λ t. t.left_adjacent_server_connection) e ∙ kept.left;
    right = ap (λ t. t.right_adjacent_server_connection) e ∙ kept.right;
  }

  Routes-Keeps : (m : DataMessage) (r : Result E T) → Routes m s r → Ensures Keeps r
  unfolding add_to_message_list add_to_message_list_of_unassociated_clients
  Routes-Keeps m r (stays _ e) = Keeps-of_eq r _ _ e unchanged
  Routes-Keeps m r (leftwards _ _ f) = Keeps-of_eq r s _ f.result unchanged
  Routes-Keeps m r (rightwards _ _ _ f) = Keeps-of_eq r s _ f.result unchanged
  Routes-Keeps m r (waits _ _ _ e) = Keeps-of_eq r _ _ e unchanged

  Relays-Keeps : (m : DataMessage) (r : Result E T) → Relays m s r → Ensures Keeps r
  unfolding add_to_message_list
  Relays-Keeps m r (arrives _ e) = Keeps-of_eq r _ _ e unchanged
  Relays-Keeps m r (onwards_right _ _ _ f) = Keeps-of_eq r s _ f.result unchanged
  Relays-Keeps m r (onwards_left _ _ _ f) = Keeps-of_eq r s _ f.result unchanged
  Relays-Keeps m r (off_right_end _ _ _ e) = subst (Ensures Keeps) (sym e) tt
  Relays-Keeps m r (off_left_end _ _ _ e) = subst (Ensures Keeps) (sym e) tt

  sync-Keeps :
      (now : T) (sender : E) (m : DataMessage)
      → Ensures Keeps (dispatch now sender m mt_server_sync s)
  unfolding dispatch
  sync-Keeps now sender m = elim (CanStore-cases m) [
    | inl (i, e, inside) ↦
        Keeps-of_eq (dispatch now sender m mt_server_sync s) _ []
          (dispatch_sync now sender m i (view_server_sync_payload m) s e inside refl) unchanged
    | inr outside ↦ rw (receive_clients_out_of_range m s outside) tt
  ]

  dispatch-Keeps :
      (now : T) (sender : E) (m : DataMessage) (t : MessageType)
      → IsWellFormed s
      → m.message_type ≢ mt_undefined
      → Ensures Keeps (dispatch now sender m t s)
  unfolding dispatch add_client_connection remove_client_connection
      remove_received_message_from_list
  dispatch-Keeps now sender m mt_undefined w typed = tt
  dispatch-Keeps now sender m mt_client_connect w typed = unchanged
  dispatch-Keeps now sender m mt_client_disconnect w typed = unchanged
  dispatch-Keeps now sender m mt_client_send w typed =
      Routes-Keeps m (process_client_send_message m s)
        (process_client_send_message-Routes m s w typed)
  dispatch-Keeps now sender m mt_client_get w typed =
      Ensures-map _ Keeps (send_messages_to_client m.source_identifier s)
        (Returns-Ensures _ (send_messages_to_client m.source_identifier s)
          (send_messages_to_client-Serves m.source_identifier s w))
        (λ r h. Keeps-of_state s h.0 unchanged)
  dispatch-Keeps now sender m mt_client_ack w typed = unchanged
  dispatch-Keeps now sender m mt_server_send w typed =
      Relays-Keeps m (process_server_relay_message m s)
        (process_server_relay_message-Relays m s w typed)
  dispatch-Keeps now sender m mt_server_ack w typed = unchanged
  dispatch-Keeps now sender m mt_server_sync w typed = sync-Keeps now sender m
  dispatch-Keeps now sender m mt_ping w typed = unchanged

  handle_read-Keeps :
      (now : T) (sender : E) (read : Outcome DataMessage)
      → IsWellFormed s
      → ((m : DataMessage)
          → read ≡ returns m
          → (name : Bytes) × (view_message_type_as_string m.message_type ≡ returns name))
      → Ensures Keeps (handle_read now sender read s)
  unfolding handle_read handle
  handle_read-Keeps now sender throws w typed = unchanged
  handle_read-Keeps now sender aborts w typed = tt
  handle_read-Keeps now sender undefined w typed = tt
  handle_read-Keeps now sender (returns m) w typed =
      let (name, e) = typed m refl in
      rw e (
        dispatch-Keeps now sender m m.message_type w
          (view_message_type_as_string-ne m.message_type name e))

  pub listen_udp-Keeps :
      (now : T) (event : Event E) → IsWellFormed s → Ensures Keeps (listen_udp now event s)
  unfolding listen_udp
  listen_udp-Keeps now failure w = unchanged
  listen_udp-Keeps now (datagram sender bytes) w =
      handle_read-Keeps now sender (of_char_vector (received_vector bytes)) w
        (λ m. of_char_vector-typed (received_vector bytes) m)

  pub attempt_forward-Keeps : IsWellFormed s → Ensures Keeps (attempt_forward s)
  attempt_forward-Keeps w =
      Ensures-map (Sorted s s.message_list_of_unassociated_clients s.message_list []) Keeps
        (attempt_forward s) (Returns-Ensures _ (attempt_forward s) (attempt_forward-Sorted s w))
        (λ r sorted. Keeps-of_state _ sorted.state unchanged)

  pub send_sync_payloads-Keeps : IsWellFormed s → Ensures Keeps (send_sync_payloads s)
  unfolding refresh_own_clients
  send_sync_payloads-Keeps w =
      Ensures-map (SyncRound s) Keeps (send_sync_payloads s)
        (Returns-Ensures _ (send_sync_payloads s) (send_sync_payloads-SyncRound s w))
        (λ r round. Keeps-of_state _ round.state unchanged)
