-- ===== src/Client.antt =====
-- src/Client/client.h and client.cpp: the state of a client, a round of each of its loops, and what
-- they send and show.
pub mod Command
pub mod Input
pub mod Receive
pub mod Threads
use cpsc.Common.{
  ℕ, zero, suc, ℤ, pos, increment64, [], ◌∷◌, ◌++◌, List, Bool, true, false, ◌||◌, if◌then◌else◌,
  Outcome, returns, throws, aborts, undefined, ◌>>=◌,
}
use cpsc.Text.{Bytes, codes, equals, to_string, StringStream, extract, getline}
use cpsc.Constants.{
  server_host_name, server_index_to_server_name, MessageType, mt_undefined, mt_client_connect,
  mt_client_disconnect, mt_client_send, mt_client_get, mt_client_ack, mt_server_send, mt_server_ack,
  mt_server_sync, mt_ping,
}
use cpsc.Message.{DataMessage, text_message, as_char_vector, of_char_vector, received_vector}
use cpsc.Connection.{Datagram, Event, datagram, failure}

pub data Protocol : Type 0 where
  p_undefined p_udp p_bluetooth : Protocol

-- `server_index` is an `int8_t` that is never negative.
pub record Client (E : Type 0) : Type 0 where
  pub server_end_point : E
  pub active_protocol : Protocol
  pub terminate : Bool
  pub sequence_number : ℤ
  pub username : Bytes
  pub server_port : ℕ
  pub server_index : ℕ

-- What a client does: it sends a datagram, shows a text to the user, or prints an exception.
pub data Effect (E : Type 0) : Type 0 where
  sends : Datagram E → Effect E
  shows : Bytes → Effect E
  reports_exception : Effect E

abbrev pub Result : Type 0 → Type 0
Result E = Outcome (Client E × List (Effect E))

module _ {E : Type 0} where
  -- `sequenceNumber()`: the new number is also the result.
  unfoldable pub next_sequence_number : Client E → Client E × ℤ
  next_sequence_number c =
      let n = increment64 c.sequence_number in (record c { sequence_number = n }, n)

  unfoldable pub send_over_udp : DataMessage → Client E → Result E
  send_over_udp m c = as_char_vector m >>= λ bytes.
      returns (c, sends (record { to = c.server_end_point; bytes = bytes }) ∷ [])

  -- Bluetooth is not implemented.
  unfoldable pub send_over_bluetooth : DataMessage → Client E → Result E
  send_over_bluetooth m c = returns (c, [])

  -- The constructor. `resolve` is Boost's resolver.
  unfoldable pub construct : (Bytes → Bytes → Outcome E) → Bytes → ℕ → ℕ → Result E
  unfolding send_over_udp next_sequence_number
  construct resolve username port index = server_host_name index >>= λ address.
      resolve address (to_string (pos port)) >>= λ endpoint.
      server_index_to_server_name index >>= λ destination.
      let c : Client E = record {
        server_end_point = endpoint;
        active_protocol = p_udp;
        terminate = false;
        sequence_number = pos 0;
        username = username;
        server_port = port;
        server_index = index;
      } in
      let (c', n) = next_sequence_number c in
      send_over_udp
        (text_message n mt_client_connect username destination
          (username ++ codes " has connected."))
        c'

  -- A round of `getLoop`.
  unfoldable pub get_round : Client E → Result E
  unfolding send_over_udp next_sequence_number
  get_round c =
      let (c', n) = next_sequence_number c in
      server_index_to_server_name c.server_index >>= λ destination.
      send_over_udp (text_message n mt_client_get c.username destination (codes "blank")) c'

-- `/message` and `/m` are the commands.
unfoldable pub is_command : Bytes → Bool
is_command word = equals word (codes "/message") || equals word (codes "/m")

-- The destination and the text of a command, read behind its first word; `input` is the line.
unfoldable pub command_arguments : Bytes → StringStream → Bytes × Bytes
command_arguments input ss =
    let (ss', destination) = extract ss (codes "broadcast") in
    let (ss'', text) = getline ss' input in (destination, text)

module _ {E : Type 0} where
  -- Branch on the protocol.
  send_over : Protocol → DataMessage → Client E → Result E
  unfolding send_over_udp send_over_bluetooth
  send_over p_udp m c = send_over_udp m c
  send_over p_bluetooth m c = send_over_bluetooth m c
  send_over p_undefined m c = aborts

  -- A message with the text of a command, or the end of the session.
  send_command : Bytes → Bytes → Client E → Result E
  unfolding send_over next_sequence_number
  send_command destination text c =
      let (c', n) = next_sequence_number c in
      let m = text_message n mt_client_send c.username destination text in
      if equals m.payload (codes "/exit")
      then (let (c'', n') = next_sequence_number (record c' { terminate = true }) in
          send_over_udp
            (text_message n' mt_client_disconnect c.username destination
              (c.username ++ codes " has disconnected."))
            c'')
      else send_over c.active_protocol m c'

  -- A round of `inputLoop` on the line that the user entered.
  unfoldable pub input_round : Bytes → Client E → Result E
  unfolding send_command
  input_round input c =
      let (ss, word) = extract (record { rest = input; good = true }) [] in
      if is_command word
      then (let (destination, text) = command_arguments input ss in send_command destination text c)
      else returns
          (c, shows (codes "Invalid command. (Use '/m' || '/message' <target> <message>") ∷ [])

  -- The `switch` of `receiveOverUDP`.
  unfoldable pub react : DataMessage → MessageType → Client E → Result E
  unfolding send_over_udp
  react m mt_server_send c = server_index_to_server_name c.server_index >>= λ destination.
      send_over_udp
        (text_message m.sequence_number mt_client_ack c.username destination (codes "blank")) c
      >>= λ r. returns (r.0, shows (m.source_identifier ++ (codes " says: " ++ m.payload)) ∷ r.1)
  react m mt_ping c = returns (c, [])
  react m mt_undefined c = aborts
  react m mt_client_connect c = aborts
  react m mt_client_disconnect c = aborts
  react m mt_client_send c = aborts
  react m mt_client_get c = aborts
  react m mt_client_ack c = aborts
  react m mt_server_ack c = aborts
  react m mt_server_sync c = aborts

  react_to_read : Bytes → Outcome DataMessage → Client E → Result E
  react_to_read bytes throws c = returns (c, reports_exception ∷ [])
  react_to_read bytes aborts c = aborts
  react_to_read bytes undefined c = undefined
  react_to_read [] (returns m) c = returns (c, [])
  react_to_read (b ∷ bytes) (returns m) c = react m m.message_type c

  -- A round of `receiveOverUDP`: `receive_from` stores the sender as the server's endpoint.
  unfoldable pub receive_over_udp : Event E → Client E → Result E
  unfolding react_to_read
  receive_over_udp failure c = returns (c, reports_exception ∷ [])
  receive_over_udp (datagram sender bytes) c =
      react_to_read bytes (of_char_vector (received_vector bytes))
        (record c { server_end_point = sender })

  -- Bluetooth is not implemented.
  unfoldable pub receive_over_bluetooth : Client E → Result E
  receive_over_bluetooth c = returns (c, [])

  -- A round of `receiveLoop`.
  unfoldable pub receive_round : Event E → Client E → Result E
  unfolding receive_over_bluetooth
  receive_round event c = receive_over_udp event c >>= λ r.
      receive_over_bluetooth r.0 >>= λ q. returns (q.0, r.1 ++ q.1)
