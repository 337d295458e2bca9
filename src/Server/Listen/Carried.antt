-- ===== src/Server/Listen/Carried.antt =====
-- What holds of the messages in a server's two lists after a round, if it holds before and of the
-- message that was read.
use cpsc.Common.{
  ◌≡◌, ◌≢◌, [], ◌∷◌, List, refl, sym, subst, Outcome, returns, throws, aborts, undefined, Ensures,
  Ensures-map, Returns-Ensures, inl, inr, All, All-append,
}
use cpsc.Text.{Bytes}
use cpsc.Constants.{
  MessageType, mt_undefined, mt_client_connect, mt_client_disconnect, mt_client_send, mt_client_get,
  mt_client_ack, mt_server_send, mt_server_ack, mt_server_sync, mt_ping,
}
use cpsc.Message.{
  DataMessage, of_char_vector, received_vector, view_server_sync_payload, set_message_type,
  view_message_type_as_string,
}
use cpsc.Message.Parsed.{of_char_vector-typed}
use cpsc.Message.Types.{view_message_type_as_string-ne}
use cpsc.Connection.{Datagram, datagram, failure}
use cpsc.Server.State.{
  Server, Result, add_client_connection, remove_client_connection, add_to_message_list,
  add_to_message_list_of_unassociated_clients,
}
use cpsc.Server.State.WellFormed.{IsWellFormed, receive_clients_out_of_range}
use cpsc.Server.Mailbox.{send_messages_to_client, remove_received_message_from_list}
use cpsc.Server.Mailbox.Acknowledge.{
  Acknowledges-All, remove_received_message_from_list-Acknowledges,
}
use cpsc.Server.Mailbox.Delivery.{send_messages_to_client-Serves}
use cpsc.Server.Routing.{process_client_send_message, process_server_relay_message, attempt_forward}
use cpsc.Server.Routing.Routes.{
  Routes, stays, leftwards, rightwards, waits, process_client_send_message-Routes,
}
use cpsc.Server.Routing.Relay.{
  Relays, arrives, onwards_right, onwards_left, off_right_end, off_left_end,
  process_server_relay_message-Relays,
}
use cpsc.Server.Routing.Waiting.{
  Sorts, Sorted, done, keep, pass_left, pass_right, hold, attempt_forward-Sorted,
}
use cpsc.Server.Sync.{send_sync_payloads, refresh_own_clients}
use cpsc.Server.Sync.Round.{SyncRound, send_sync_payloads-SyncRound}
use cpsc.Server.Listen.{dispatch, listen_udp, handle_read, handle}
use cpsc.Server.Listen.Handling.{CanStore-cases}
use cpsc.Server.Listen.Hop.{dispatch_sync}

module _ {E T : Type 0} (P : DataMessage → Type 0) where
  -- Every message that the server has.
  abbrev pub AllMessages : Server E T → Type 0
  AllMessages s = All P s.message_list × All P s.message_list_of_unassociated_clients

  abbrev Good : Server E T × List (Datagram E) → Type 0
  Good r = AllMessages r.0

  Good-of_eq :
      (r : Result E T) (t : Server E T) (sent : List (Datagram E))
      → r ≡ returns (t, sent)
      → AllMessages t
      → Ensures Good r
  Good-of_eq r t sent e h = subst (Ensures Good) (sym e) h

  module _ (retyped : (m : DataMessage) (t : MessageType) → P m → P (set_message_type t m))
      (s : Server E T) (old : AllMessages s) where
    kept_more : (m : DataMessage) → P m → AllMessages (add_to_message_list m s)
    unfolding add_to_message_list
    kept_more m p = (
      All-append P s.message_list (set_message_type mt_server_send m ∷ []) old.0
          (retyped m mt_server_send p, tt),
      old.1,
    )

    Routes-Good : (m : DataMessage) (r : Result E T) → P m → Routes m s r → Ensures Good r
    unfolding add_to_message_list_of_unassociated_clients
    Routes-Good m r p (stays _ e) = Good-of_eq r _ _ e (kept_more m p)
    Routes-Good m r p (leftwards _ _ f) = Good-of_eq r s _ f.result old
    Routes-Good m r p (rightwards _ _ _ f) = Good-of_eq r s _ f.result old
    Routes-Good m r p (waits _ _ _ e) = Good-of_eq r _ _ e (
      old.0,
      All-append P s.message_list_of_unassociated_clients (set_message_type mt_client_send m ∷ [])
          old.1 (retyped m mt_client_send p, tt),
    )

    Relays-Good : (m : DataMessage) (r : Result E T) → P m → Relays m s r → Ensures Good r
    Relays-Good m r p (arrives _ e) = Good-of_eq r _ _ e (kept_more m p)
    Relays-Good m r p (onwards_right _ _ _ f) = Good-of_eq r s _ f.result old
    Relays-Good m r p (onwards_left _ _ _ f) = Good-of_eq r s _ f.result old
    Relays-Good m r p (off_right_end _ _ _ e) = subst (Ensures Good) (sym e) tt
    Relays-Good m r p (off_left_end _ _ _ e) = subst (Ensures Good) (sym e) tt

    sync-Good :
        (now : T) (sender : E) (m : DataMessage)
        → Ensures Good (dispatch now sender m mt_server_sync s)
    unfolding dispatch
    sync-Good now sender m = elim (CanStore-cases m) [
      | inl (i, e, inside) ↦
          Good-of_eq (dispatch now sender m mt_server_sync s) _ []
            (dispatch_sync now sender m i (view_server_sync_payload m) s e inside refl) old
      | inr outside ↦ rw (receive_clients_out_of_range m s outside) tt
    ]

    dispatch-Good :
        (now : T) (sender : E) (m : DataMessage) (t : MessageType)
        → IsWellFormed s
        → m.message_type ≢ mt_undefined
        → P m
        → Ensures Good (dispatch now sender m t s)
    unfolding dispatch add_client_connection remove_client_connection
        remove_received_message_from_list
    dispatch-Good now sender m mt_undefined w typed p = tt
    dispatch-Good now sender m mt_client_connect w typed p = old
    dispatch-Good now sender m mt_client_disconnect w typed p = old
    dispatch-Good now sender m mt_client_send w typed p =
        Routes-Good m (process_client_send_message m s) p
          (process_client_send_message-Routes m s w typed)
    dispatch-Good now sender m mt_client_get w typed p =
        Ensures-map _ Good (send_messages_to_client m.source_identifier s)
          (Returns-Ensures _ (send_messages_to_client m.source_identifier s)
            (send_messages_to_client-Serves m.source_identifier s w))
          (λ r h. subst AllMessages (sym h.0) old)
    dispatch-Good now sender m mt_client_ack w typed p = (
      Acknowledges-All P m s.message_list _ (remove_received_message_from_list-Acknowledges m s)
          old.0,
      old.1,
    )
    dispatch-Good now sender m mt_server_send w typed p =
        Relays-Good m (process_server_relay_message m s) p
          (process_server_relay_message-Relays m s w typed)
    dispatch-Good now sender m mt_server_ack w typed p = old
    dispatch-Good now sender m mt_server_sync w typed p = sync-Good now sender m
    dispatch-Good now sender m mt_ping w typed p = old

    handle_read-Good :
        (now : T) (sender : E) (read : Outcome DataMessage)
        → IsWellFormed s
        → ((m : DataMessage)
            → read ≡ returns m
            → ((name : Bytes) × (view_message_type_as_string m.message_type ≡ returns name)) × P m)
        → Ensures Good (handle_read now sender read s)
    unfolding handle_read handle
    handle_read-Good now sender throws w h = old
    handle_read-Good now sender aborts w h = tt
    handle_read-Good now sender undefined w h = tt
    handle_read-Good now sender (returns m) w h =
        let ((name, e), p) = h m refl in
        rw e (
          dispatch-Good now sender m m.message_type w
            (view_message_type_as_string-ne m.message_type name e) p)

    pub listen_udp-failure-AllMessages : (now : T) → Ensures Good (listen_udp now failure s)
    unfolding listen_udp
    listen_udp-failure-AllMessages now = old

    pub listen_udp-AllMessages :
        (now : T) (sender : E) (bytes : Bytes)
        → IsWellFormed s
        → ((m : DataMessage) → of_char_vector (received_vector bytes) ≡ returns m → P m)
        → Ensures Good (listen_udp now (datagram sender bytes) s)
    unfolding listen_udp
    listen_udp-AllMessages now sender bytes w h =
        handle_read-Good now sender (of_char_vector (received_vector bytes)) w
          (λ m e. (of_char_vector-typed (received_vector bytes) m e, h m e))

    Sorts-Good :
        {ms k h : List DataMessage} {o : List (Datagram E)}
        → All P ms
        → Sorts s ms k h o
        → All P k × All P h
    Sorts-Good p done = (tt, tt)
    Sorts-Good p (keep a r) =
        let (q, q') = Sorts-Good p.1 r in ((retyped _ mt_server_send p.0, q), q')
    Sorts-Good p (pass_left d a b c r) = Sorts-Good p.1 r
    Sorts-Good p (pass_right d a b c e r) = Sorts-Good p.1 r
    Sorts-Good p (hold a b c r) =
        let (q, q') = Sorts-Good p.1 r in (q, (retyped _ mt_client_send p.0, q'))

    pub attempt_forward-AllMessages : IsWellFormed s → Ensures Good (attempt_forward s)
    attempt_forward-AllMessages w =
        Ensures-map (Sorted s s.message_list_of_unassociated_clients s.message_list []) Good
          (attempt_forward s) (Returns-Ensures _ (attempt_forward s) (attempt_forward-Sorted s w))
          (λ r sorted.
            let (k, h) = Sorts-Good old.1 sorted.sorts in
            subst AllMessages (sym sorted.state)
              (All-append P s.message_list sorted.new_kept old.0 k, h))

    pub send_sync_payloads-AllMessages : IsWellFormed s → Ensures Good (send_sync_payloads s)
    unfolding refresh_own_clients
    send_sync_payloads-AllMessages w =
        Ensures-map (SyncRound s) Good (send_sync_payloads s)
          (Returns-Ensures _ (send_sync_payloads s) (send_sync_payloads-SyncRound s w))
          (λ r round. subst AllMessages (sym round.state) old)
