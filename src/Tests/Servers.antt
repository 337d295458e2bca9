-- ===== src/Tests/Servers.antt =====
-- Tests of the server.
use cpsc.Common.{ℕ, pos, [], ◌∷◌, ◌≡◌, refl, arith, returns, Returns, map, inl}
use cpsc.Text.{Bytes, codes, find, equals, to_string}
use cpsc.Constants.{mt_client_ack, mt_server_sync, mt_server_send}
use cpsc.Message.{
  DataMessage, text_message, sync_message, as_char_vector, view_message_type_as_string,
  create_server_sync_payload, set_message_type,
}
use cpsc.Connection.{remote_connection, datagram}
use cpsc.Server.State.{
  Server, construct, add_client_connection, remove_client_connection, is_connected,
  add_to_message_list,
}
use cpsc.Server.State.WellFormed.{IsWellFormed}
use cpsc.Server.State.Construct.{new_server, construct-new_server}
use cpsc.Server.State.Connections.{remove-add_client_connection_behind}
use cpsc.Server.Routing.{process_client_send_message, process_server_relay_message, attempt_forward}
use cpsc.Server.Routing.Routes.{Routes, process_client_send_message-Routes}
use cpsc.Server.Routing.Relay.{Relays, process_server_relay_message-Relays}
use cpsc.Server.Routing.Waiting.{Sorted, attempt_forward-Sorted}
use cpsc.Server.Routing.Preserve.{StaysWellFormed}
use cpsc.Server.Mailbox.{send_messages_to_client, remove_received_message_from_list}
use cpsc.Server.Mailbox.Delivery.{Serves, send_messages_to_client-Serves}
use cpsc.Server.Mailbox.Acknowledge.{Acknowledges, remove_received_message_from_list-Acknowledges}
use cpsc.Server.Mailbox.Emptied.{
  number, messages_for, messages_for_others, acknowledge_all, acknowledge_all-messages_for,
}
use cpsc.Server.Mailbox.Boxes.{boxes_of, put, without, Carry, boxes_of-Server}
use cpsc.Server.Sync.{send_sync_payloads}
use cpsc.Server.Sync.Round.{SyncRound, send_sync_payloads-SyncRound}
use cpsc.Server.Listen.{listen_udp, dispatch}
use cpsc.Server.Listen.Hop.{IsCarried, listen_udp-sync_message, listen_udp-as_char_vector}
use cpsc.Server.Listen.Effects.{RoundEffects, listen_udp-RoundEffects}
use cpsc.Server.Listen.Reach.{here, construct-Reach}
use cpsc.Tests.Fixtures.{
  Address, endpoint, resolve, any_port, bob_address, alpha_address, charlie_address, message_to,
  kept_message, bravo, bravo-IsWellFormed,
}

abbrev now : ℕ
now = 7

abbrev to_cat : DataMessage
to_cat = message_to (codes "cat")

abbrev to_cat_bytes : Bytes
to_cat_bytes = codes "1/?client send/?ann/?cat/? hi/?-1/?"

-- A message from Alpha for the client on Charlie goes to the right, unchanged.
to_cat_route :
    process_client_send_message to_cat bravo
    ≡ returns (bravo, record { to = charlie_address; bytes = to_cat_bytes } ∷ [])
unfolding process_client_send_message as_char_vector view_message_type_as_string to_string equals
    is_connected
to_cat_route = refl

process_client_send_message-Routes_example :
    Routes to_cat bravo (process_client_send_message to_cat bravo)
process_client_send_message-Routes_example =
    process_client_send_message-Routes to_cat bravo bravo-IsWellFormed (λ e. cc)

process_server_relay_message-Relays_example :
    Relays to_cat bravo (process_server_relay_message to_cat bravo)
process_server_relay_message-Relays_example =
    process_server_relay_message-Relays to_cat bravo bravo-IsWellFormed (λ e. cc)

attempt_forward-Sorted_example :
    Returns (Sorted bravo (to_cat ∷ []) (kept_message ∷ []) []) (attempt_forward bravo)
attempt_forward-Sorted_example = attempt_forward-Sorted bravo bravo-IsWellFormed

send_messages_to_client-Serves_example :
    Returns
      (λ r. (r.0 ≡ bravo) × Serves (codes "bob") bravo.connected_clients bravo.message_list r.1)
      (send_messages_to_client (codes "bob") bravo)
send_messages_to_client-Serves_example =
    send_messages_to_client-Serves (codes "bob") bravo bravo-IsWellFormed

abbrev ack_of_one : DataMessage
ack_of_one = text_message (pos 1) mt_client_ack (codes "bob") (codes "Bravo") (codes "blank")

remove_received_message_from_list-Acknowledges_example :
    Acknowledges ack_of_one bravo.message_list
      (remove_received_message_from_list ack_of_one bravo).message_list
remove_received_message_from_list-Acknowledges_example =
    remove_received_message_from_list-Acknowledges ack_of_one bravo

abbrev for_amy : DataMessage
for_amy = text_message (pos 2) mt_server_send (codes "ann") (codes "amy") (codes " hi")

abbrev shared_bravo : Server Address ℕ
shared_bravo = record bravo { message_list = kept_message ∷ for_amy ∷ [] }

kept_numbers :
    map number (ack_of_one ∷ [])
    ≡ map number (messages_for (codes "bob") (kept_message ∷ for_amy ∷ []))
unfolding messages_for equals
kept_numbers = refl

acknowledge_all-messages_for_example :
    acknowledge_all (ack_of_one ∷ []) shared_bravo ≡ record bravo {
      message_list = messages_for_others (codes "bob") (kept_message ∷ for_amy ∷ []);
    }
acknowledge_all-messages_for_example =
    acknowledge_all-messages_for (codes "bob") (ack_of_one ∷ []) shared_bravo
      (((λ e. cc), tt), (tt, tt)) kept_numbers

boxes_of-Server_example :
    (boxes_of (add_to_message_list to_cat shared_bravo) (codes "bob")
      ≡ put (set_message_type mt_server_send to_cat) (boxes_of shared_bravo) (codes "bob"))
    × (boxes_of (remove_received_message_from_list ack_of_one shared_bravo) (codes "bob")
        ≡ without (pos 1) (boxes_of shared_bravo (codes "bob")))
    × Returns
        (λ r. (endpoint : Address) × Carry endpoint (boxes_of shared_bravo (codes "bob")) r.1)
        (send_messages_to_client (codes "bob") shared_bravo)
boxes_of-Server_example =
    boxes_of-Server shared_bravo (codes "bob") to_cat ack_of_one
      (record {
        placed = bravo-IsWellFormed.placed;
        tables = refl;
        kept = (refl, (refl, tt));
        waiting = (refl, tt);
      })
      (((λ e. cc), tt), (tt, tt)) (inl refl)

send_sync_payloads-SyncRound_example : Returns (SyncRound bravo) (send_sync_payloads bravo)
send_sync_payloads-SyncRound_example = send_sync_payloads-SyncRound bravo bravo-IsWellFormed

construct-new_server_example :
    construct resolve now any_port 8081 1 ≡ returns (new_server resolve now endpoint 1)
construct-new_server_example =
    construct-new_server resolve now endpoint (λ host port. refl) any_port 8081 1 (omega arith)

-- A client that connects behind bob cannot disconnect.
remove-add_client_connection_behind_example :
    remove_client_connection
      (codes "eve")
      (add_client_connection (codes "eve") charlie_address 8 bravo)
    ≡ add_client_connection (codes "eve") charlie_address 8 bravo
remove-add_client_connection_behind_example =
    remove-add_client_connection_behind (codes "eve") charlie_address 8 bravo
      (remote_connection (codes "bob") bob_address 7) [] refl (ground arith)

abbrev empty_bravo : Server Address ℕ
empty_bravo = record bravo { connected_clients = [] }

abbrev sync : DataMessage
sync =
    sync_message (pos 5) mt_server_sync (codes "Alpha") (codes "Bravo")
      (codes "ann" ∷ codes "amy" ∷ []) (pos 0)

abbrev sync_bytes : Bytes
sync_bytes = codes "5/?server sync/?Alpha/?Bravo/?ann,amy,/?0/?"

sync-IsCarried : IsCarried sync sync_bytes
unfolding find as_char_vector view_message_type_as_string to_string create_server_sync_payload
sync-IsCarried = record {
  plain = record { source = refl; destination = refl; payload = refl; origin = refl };
  number = refl;
  printed = refl;
  fits = omega arith;
}

listen_udp-as_char_vector_example :
    listen_udp 9 (datagram alpha_address sync_bytes) bravo
    ≡ dispatch 9 alpha_address sync mt_server_sync bravo
listen_udp-as_char_vector_example =
    listen_udp-as_char_vector 9 alpha_address sync sync_bytes bravo sync-IsCarried

listen_udp-sync_message_example :
    listen_udp 9 (datagram alpha_address sync_bytes) bravo
    ≡ returns (
      record bravo {
        clients_served_by_server_index =
            (codes "ann" ∷ codes "amy" ∷ []) ∷ [] ∷ (codes "cat" ∷ []) ∷ [] ∷ [] ∷ [];
      },
      [],
    )
listen_udp-sync_message_example =
    listen_udp-sync_message 9 alpha_address (pos 5) (codes "Alpha") (codes "Bravo") sync_bytes
      (codes "ann" ∷ codes "amy" ∷ []) 0 bravo (omega arith) (omega arith) sync-IsCarried

listen_udp-RoundEffects_example :
    RoundEffects 9
      (datagram alpha_address sync_bytes)
      bravo
      (listen_udp 9 (datagram alpha_address sync_bytes) bravo)
listen_udp-RoundEffects_example =
    listen_udp-RoundEffects 9 (datagram alpha_address sync_bytes) bravo bravo-IsWellFormed

construct-Reach_example :
    IsWellFormed (new_server resolve now endpoint 1)
    × Returns StaysWellFormed (attempt_forward (new_server resolve now endpoint 1))
    × Returns StaysWellFormed (send_sync_payloads (new_server resolve now endpoint 1))
construct-Reach_example =
    construct-Reach resolve now endpoint any_port 8081 1 (λ host port. refl) (omega arith)
      (construct-new_server resolve now endpoint (λ host port. refl) any_port 8081 1 (omega arith))
      here
