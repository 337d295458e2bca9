-- ===== src/Server/Mailbox.antt =====
-- The messages kept for the clients of a server: `sendMessagesToClient` on a get, and
-- `removeReceivedMessageFromList` on an acknowledgement.
pub mod Delivery
pub mod Acknowledge
pub mod Emptied
pub mod Boxes
use cpsc.Common.{eqb_ℤ, List, [], ◌∷◌, if◌then◌else◌, Outcome, returns, ◌>>=◌}
use cpsc.Text.{Bytes, equals}
use cpsc.Message.{DataMessage, as_char_vector}
use cpsc.Connection.{RemoteConnection, Datagram}
use cpsc.Server.State.{Server, Result}

module _ {E : Type 0} where
  -- The inner loop: all messages for the client go to its endpoint.
  send_messages : Bytes → E → List DataMessage → Outcome (List (Datagram E))
  send_messages client endpoint [] = returns []
  send_messages client endpoint (m ∷ ms) =
      let rest = send_messages client endpoint ms in
      if equals m.destination_identifier client
      then (do
        bytes ← as_char_vector m
        sent ← rest
        returns (record { to = endpoint; bytes = bytes } ∷ sent))
      else rest

  -- The outer loop stops at the first connection of that name.
  send_to_connection :
      {T : Type 0}
      → Bytes
      → List DataMessage
      → List (RemoteConnection E T)
      → Outcome (List (Datagram E))
  unfolding send_messages
  send_to_connection client ms [] = returns []
  send_to_connection client ms (c ∷ cs) =
      let rest = send_to_connection client ms cs in
      if equals c.identifier client then send_messages client c.endpoint ms else rest

-- The first message with the number of the acknowledgement.
remove_message : DataMessage → List DataMessage → List DataMessage
remove_message ack [] = []
remove_message ack (m ∷ ms) =
    if eqb_ℤ m.sequence_number ack.sequence_number then ms else m ∷ remove_message ack ms

module _ {E T : Type 0} where
  unfoldable pub send_messages_to_client : Bytes → Server E T → Result E T
  unfolding send_to_connection
  send_messages_to_client client s = do
    sent ← send_to_connection client s.message_list s.connected_clients
    returns (s, sent)

  unfoldable pub remove_received_message_from_list : DataMessage → Server E T → Server E T
  unfolding remove_message
  remove_received_message_from_list ack s = record s {
    message_list = remove_message ack s.message_list;
  }
