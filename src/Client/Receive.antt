-- ===== src/Client/Receive.antt =====
-- A round of `receiveOverUDP`, and a message on its way from a server to a client and back.
use cpsc.Common.{[], ◌∷◌, ◌++◌, ◌≡◌, ◌<◌, refl, sym, ap, ◌∙◌, ℕ, returns, subst}
use cpsc.Constants.{mt_server_send, mt_client_ack, number_of_servers, server_index_to_server_name}
use cpsc.Constants.Identifiers.{index_lookup}
use cpsc.Text.{Bytes, codes}
use cpsc.Message.{DataMessage, text_message, as_char_vector, of_char_vector, received_vector}
use cpsc.Server.Routing.Routes.{as_char_vector-total}
use cpsc.Server.State.{Server}
use cpsc.Server.Listen.{listen_udp, dispatch}
use cpsc.Server.Listen.Hop.{IsCarried, IsCarried-of_char_vector, listen_udp-as_char_vector}
use cpsc.Server.Mailbox.{remove_received_message_from_list}
use cpsc.Server.Mailbox.Acknowledge.{remove_received_message_from_list_same}
use cpsc.Connection.{datagram}
use cpsc.Client.{Client, Result, sends, shows, react, receive_over_udp, send_over_udp}

module _ {E : Type 0} where
  -- The acknowledgement of a message by a client of server `name`.
  abbrev pub acknowledgement : DataMessage → Bytes → Client E → DataMessage
  acknowledgement m name c =
      text_message m.sequence_number mt_client_ack c.username name (codes "blank")

  -- The client shows the message and acknowledges it to the sender of the datagram, which it takes
  -- for its server from then on.
  pub record Receives (m : DataMessage) (sender : E) (c : Client E) (r : Result E) : Type 0 where
    pub server : Bytes
    pub bytes : Bytes
    pub named : server_index_to_server_name c.server_index ≡ returns server
    pub printed : as_char_vector (acknowledgement m server c) ≡ returns bytes
    pub result :
        r
        ≡ returns (
          record c { server_end_point = sender },
          shows (m.source_identifier ++ (codes " says: " ++ m.payload))
              ∷ sends (record { to = sender; bytes = bytes })
              ∷ [],
        )

  receive_carried :
      (m : DataMessage) (b : ℕ) (bytes : Bytes) (sender : E) (c : Client E)
      → of_char_vector (received_vector (b ∷ bytes)) ≡ returns m
      → receive_over_udp (datagram sender (b ∷ bytes)) c
        ≡ react m m.message_type (record c { server_end_point = sender })
  unfolding receive_over_udp
  receive_carried m b bytes sender c e = rw e refl

  pub react-Receives :
      (m : DataMessage) (sender : E) (c : Client E)
      → c.server_index < number_of_servers
      → Receives m sender c (react m mt_server_send (record c { server_end_point = sender }))
  unfolding react send_over_udp
  react-Receives m sender c inside =
      let (name, _, named, _, _) = index_lookup c.server_index inside in
      let (bytes, e) = as_char_vector-total (acknowledgement m name c) (λ u. cc) in
      record {
        server = name;
        bytes = bytes;
        named = named;
        printed = e;
        result = rw (named, e) refl;
      }

  -- A client that receives a message from a server shows its source and payload, and sends an
  -- acknowledgement with the message's number.
  pub receive_over_udp-Receives :
      (m : DataMessage) (b : ℕ) (bytes : Bytes) (sender : E) (c : Client E)
      → c.server_index < number_of_servers
      → m.message_type ≡ mt_server_send
      → IsCarried m (b ∷ bytes)
      → Receives m sender c (receive_over_udp (datagram sender (b ∷ bytes)) c)
  receive_over_udp-Receives m b bytes sender c inside type carried =
      rw (receive_carried m b bytes sender c (IsCarried-of_char_vector m (b ∷ bytes) carried)) (
        subst (λ t. Receives m sender c (react m t (record c { server_end_point = sender })))
          (sym type) (react-Receives m sender c inside))

  -- When that acknowledgement reaches the server, the first message with the number of `m` leaves
  -- the message list, and nothing is sent.
  pub listen_udp-acknowledgement :
      {T : Type 0} (m : DataMessage) (name bytes : Bytes) (c : Client E) (now : T) (client : E)
      (s : Server E T)
      → IsCarried (acknowledgement m name c) bytes
      → listen_udp now (datagram client bytes) s
        ≡ returns (remove_received_message_from_list m s, [])
  listen_udp-acknowledgement m name bytes c now client s carried =
      listen_udp-as_char_vector now client (acknowledgement m name c) bytes s carried
      ∙ unfold dispatch in
        ap (λ t. returns (t, []))
          (remove_received_message_from_list_same (acknowledgement m name c) m s refl)
