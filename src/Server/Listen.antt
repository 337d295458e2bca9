-- ===== src/Server/Listen.antt =====
-- A round of `listenLoopUDP`, and the rounds of all threads as one step of the server.
pub mod Hop
pub mod Handling
pub mod Endings
pub mod Effects
pub mod Keeps
pub mod Release
pub mod Reach
pub mod Carried
pub mod Sources
use cpsc.Common.{[], Outcome, returns, throws, aborts, undefined, ◌>>=◌}
use cpsc.Constants.{
  MessageType, mt_undefined, mt_client_connect, mt_client_disconnect, mt_client_send, mt_client_get,
  mt_client_ack, mt_server_send, mt_server_ack, mt_server_sync, mt_ping,
  server_index_to_server_name, to_uint8,
}
use cpsc.Message.{DataMessage, of_char_vector, received_vector, view_message_type_as_string}
use cpsc.Connection.{Event, datagram, failure}
use cpsc.Server.State.{
  Server, Result, add_client_connection, remove_client_connection,
  receive_clients_from_adjacent_servers,
}
use cpsc.Server.Mailbox.{send_messages_to_client, remove_received_message_from_list}
use cpsc.Server.Routing.{process_client_send_message, process_server_relay_message}

module _ {E T : Type 0} where
  -- The `switch`; the name of the origin is printed behind a sync.
  unfoldable pub dispatch : T → E → DataMessage → MessageType → Server E T → Result E T
  dispatch now sender m mt_undefined s = aborts
  dispatch now sender m mt_client_connect s =
      returns (add_client_connection m.source_identifier sender now s, [])
  dispatch now sender m mt_client_disconnect s =
      returns (remove_client_connection m.source_identifier s, [])
  dispatch now sender m mt_client_send s = process_client_send_message m s
  dispatch now sender m mt_client_get s = send_messages_to_client m.source_identifier s
  dispatch now sender m mt_client_ack s = returns (remove_received_message_from_list m s, [])
  dispatch now sender m mt_server_send s = process_server_relay_message m s
  dispatch now sender m mt_server_ack s = returns (s, [])
  dispatch now sender m mt_server_sync s = receive_clients_from_adjacent_servers m s >>= λ s'.
      server_index_to_server_name (to_uint8 m.server_sync_payload_origin_index) >>= λ origin.
      returns (s', [])
  dispatch now sender m mt_ping s = returns (s, [])

  -- The type is printed before the `switch`.
  handle : T → E → DataMessage → Server E T → Result E T
  unfolding dispatch
  handle now sender m s = view_message_type_as_string m.message_type >>= λ type_name.
      dispatch now sender m m.message_type s

  -- `catch(...)`: what cannot be read is dropped.
  handle_read : T → E → Outcome DataMessage → Server E T → Result E T
  unfolding handle
  handle_read now sender throws s = returns (s, [])
  handle_read now sender (returns m) s = handle now sender m s
  handle_read now sender aborts s = aborts
  handle_read now sender undefined s = undefined

  unfoldable pub listen_udp : T → Event E → Server E T → Result E T
  unfolding handle_read
  listen_udp now failure s = returns (s, [])
  listen_udp now (datagram sender bytes) s =
      handle_read now sender (of_char_vector (received_vector bytes)) s
