-- ===== src/Network/Conversation.antt =====
-- A message from one user to another: from the command line of the one over the row of servers to
-- the screen of the other, and the acknowledgement.
use cpsc.Common.{
  ℕ, ◌<◌, ◌≡◌, ◌≢◌, ◌∙◌, [], ◌∷◌, ◌++◌, List, refl, sym, ap, subst, arith, All, returns,
  returns_inj, Returns, Returns-map, increment64,
}
use mathlib.Core.Path.{ap₂}
use cpsc.Text.{Bytes, codes, equals_iff}
use cpsc.Constants.{
  number_of_servers, server_index_to_server_name, mt_client_send, mt_client_get, mt_server_send,
}
use cpsc.Message.{DataMessage, text_message, set_message_type, as_char_vector}
use cpsc.Connection.{datagram, RemoteConnection}
use cpsc.Server.State.{Server, add_to_message_list}
use cpsc.Server.State.WellFormed.{add_to_message_list-IsWellFormed}
use cpsc.Server.Mailbox.{send_messages_to_client}
use cpsc.Server.Mailbox.Acknowledge.{
  remove_received_message_from_list-add_to_message_list, remove_received_message_from_list_same,
}
use cpsc.Server.Mailbox.Delivery.{IsFirst, send_messages_to_client-Serves}
use cpsc.Server.Mailbox.Boxes.{Carry, boxes_of, boxes_of-IsFirst, messages_for-append}
use cpsc.Server.Listen.{listen_udp, dispatch}
use cpsc.Server.Listen.Hop.{IsCarried, listen_udp-as_char_vector}
use cpsc.Client.{
  Client, sends, shows, p_udp, input_round, get_round, receive_over_udp, send_over_udp,
  next_sequence_number,
}
use cpsc.Client.Command.{command_line, IsWord, IsLine}
use cpsc.Client.Input.{input_round-command_line}
use cpsc.Client.Receive.{acknowledgement, receive_over_udp-Receives, listen_udp-acknowledgement}
use cpsc.Network.{Flight, Runs}
use cpsc.Network.Row.{IsRow, on_way, delivered}
use cpsc.Network.Kept.{kept-IsCarried}
use cpsc.Network.Delivery.{IsKnownAt, Runs-delivered}

module _ {E T : Type 0} (address : ℕ → E) (now : T) (server : ℕ → Server E T)
    (before behind : List (Flight E)) (sender receiver : Client E) (from to : E) (i k : ℕ) (d : ℕ)
    (w text name bytes get_bytes ack_bytes : Bytes) where
  -- The message that the sender's command makes.
  abbrev message : DataMessage
  message =
      text_message (increment64 sender.sequence_number) mt_client_send sender.username (d ∷ w)
        (32 ∷ text)

  abbrev kept : DataMessage
  kept = set_message_type mt_server_send message

  -- The receiver, when it has asked for its messages, and the message by which it asks.
  abbrev asked : Client E
  asked = record receiver { sequence_number = increment64 receiver.sequence_number }

  abbrev get_message : DataMessage
  get_message = text_message asked.sequence_number mt_client_get (d ∷ w) name (codes "blank")

  -- The server of the receiver, with the message.
  abbrev stored : Server E T
  stored = add_to_message_list message (server k)

  -- From the line of one user to the screen of the other, and back to where the servers were.
  pub record Converses : Type 0 where
    pub entered :
        input_round (command_line (d ∷ w) text) sender
        ≡ returns (
          record sender { sequence_number = increment64 sender.sequence_number },
          sends (record { to = address i; bytes = bytes }) ∷ [],
        )
    pub crosses :
        Runs address now
          (on_way server before behind bytes from (address i))
          (delivered server before behind message k)
    pub asks :
        get_round receiver
        ≡ returns (asked, sends (record { to = address k; bytes = get_bytes }) ∷ [])
    pub answered :
        Returns
          (λ r. (r.0 ≡ stored) × Carry to (boxes_of (server k) (d ∷ w) ++ kept ∷ []) r.1)
          (listen_udp now (datagram to get_bytes) stored)
    pub kept_bytes : Bytes
    pub printed : as_char_vector kept ≡ returns kept_bytes
    pub shown :
        receive_over_udp (datagram (address k) kept_bytes) asked
        ≡ returns (
          record asked { server_end_point = address k },
          shows (sender.username ++ (codes " says: " ++ 32 ∷ text))
              ∷ sends (record { to = address k; bytes = ack_bytes })
              ∷ [],
        )
    pub settled : listen_udp now (datagram to ack_bytes) stored ≡ returns (server k, [])

  message_entered :
      sender.active_protocol ≡ p_udp
      → sender.server_end_point ≡ address i
      → IsWord (d ∷ w)
      → IsLine text
      → IsCarried message bytes
      → input_round (command_line (d ∷ w) text) sender
        ≡ returns (
          record sender { sequence_number = increment64 sender.sequence_number },
          sends (record { to = address i; bytes = bytes }) ∷ [],
        )
  message_entered udp at word line c =
      let s = input_round-command_line d w text sender udp word line in
      s.result
      ∙ ap
          (λ (p : E × Bytes). returns (
            record sender { sequence_number = increment64 sender.sequence_number },
            sends (record { to = p.0; bytes = p.1 }) ∷ [],
          ))
          (ap₂ (λ a b. (a, b)) at (returns_inj (sym s.printed ∙ c.printed)))

  message_asked :
      receiver.username ≡ d ∷ w
      → receiver.server_end_point ≡ address k
      → receiver.server_index ≡ k
      → server_index_to_server_name k ≡ returns name
      → IsCarried get_message get_bytes
      → get_round receiver
        ≡ returns (asked, sends (record { to = address k; bytes = get_bytes }) ∷ [])
  unfolding get_round send_over_udp next_sequence_number
  message_asked user at place named get = rw (place, named, user, get.printed, at) refl

  message_answered :
      (c : RemoteConnection E T)
      → IsFirst (d ∷ w) (server k).connected_clients c
      → c.endpoint ≡ to
      → IsRow address server
      → IsKnownAt server (d ∷ w) k
      → k < number_of_servers
      → IsCarried get_message get_bytes
      → Returns
          (λ r. (r.0 ≡ stored) × Carry to (boxes_of (server k) (d ∷ w) ++ kept ∷ []) r.1)
          (listen_udp now (datagram to get_bytes) stored)
  unfolding dispatch add_to_message_list
  message_answered c first place row known inside carried =
      let boxes : boxes_of stored (d ∷ w) ≡ boxes_of (server k) (d ∷ w) ++ kept ∷ [] =
        messages_for-append (d ∷ w) kept (server k).message_list
        ∙ rw ((equals_iff (d ∷ w) (d ∷ w)).1 refl) refl in
      rw (listen_udp-as_char_vector now to get_message get_bytes stored carried) (
        Returns-map _ _ (send_messages_to_client (d ∷ w) stored)
          (send_messages_to_client-Serves (d ∷ w) stored
            (add_to_message_list-IsWellFormed message (row.well_formed k inside)))
          (λ r h.
            let carry = boxes_of-IsFirst stored (d ∷ w) c r.1 known.connected first h.1 in
            (
              h.0,
              subst (λ (a : E). Carry a (boxes_of (server k) (d ∷ w) ++ kept ∷ []) r.1) place
                  (subst (λ l. Carry c.endpoint l r.1) boxes carry),
            )))

  message_shown :
      (b : ℕ) (more : Bytes)
      → IsCarried kept (b ∷ more)
      → receiver.server_index ≡ k
      → k < number_of_servers
      → server_index_to_server_name k ≡ returns name
      → IsCarried (acknowledgement kept name asked) ack_bytes
      → receive_over_udp (datagram (address k) (b ∷ more)) asked
        ≡ returns (
          record asked { server_end_point = address k },
          shows (sender.username ++ (codes " says: " ++ 32 ∷ text))
              ∷ sends (record { to = address k; bytes = ack_bytes })
              ∷ [],
        )
  message_shown b more c place inside named ack =
      let r =
        receive_over_udp-Receives kept b more (address k) asked (omega (arith, place, inside)) refl
          c in
      let same_name = returns_inj (sym r.named ∙ ap server_index_to_server_name place ∙ named) in
      let same_bytes = returns_inj (
        sym r.printed
        ∙ ap (λ n. as_char_vector (acknowledgement kept n asked)) same_name
        ∙ ack.printed) in
      r.result
      ∙ ap
          (λ (x : Bytes). returns (
            record asked { server_end_point = address k },
            shows (sender.username ++ (codes " says: " ++ 32 ∷ text))
                ∷ sends (record { to = address k; bytes = x })
                ∷ [],
          ))
          same_bytes

  -- The whole way of a message. A user's command with a one-word destination and a text without
  -- line breaks sends one datagram to the user's server, and it can come hop by hop to the server
  -- of the destination. When the client of that name then asks, this server sends to the client's
  -- own endpoint what it had for it, in order, and this message last. The client shows the sender's
  -- name and the text, and its acknowledgement takes the message out of the list again, so that the
  -- server is as it was. The row is well formed, both clients talk to their servers in it, the
  -- destination is connected to its server alone, the server's first connection of that name has
  -- the endpoint that the client sends from, the lists of the others name it for that server and no
  -- other, the messages can be carried, and no message in that server's list has the same number.
  pub input_round-Converses :
      sender.active_protocol ≡ p_udp
      → sender.server_end_point ≡ address i
      → IsWord (d ∷ w)
      → IsLine text
      → IsCarried message bytes
      → i < number_of_servers
      → k < number_of_servers
      → IsRow address server
      → IsKnownAt server (d ∷ w) k
      → (connection : RemoteConnection E T)
      → IsFirst (d ∷ w) (server k).connected_clients connection
      → connection.endpoint ≡ to
      → All (λ x. x.sequence_number ≢ increment64 sender.sequence_number) (server k).message_list
      → receiver.username ≡ d ∷ w
      → receiver.server_end_point ≡ address k
      → receiver.server_index ≡ k
      → server_index_to_server_name k ≡ returns name
      → IsCarried get_message get_bytes
      → IsCarried (acknowledgement kept name asked) ack_bytes
      → Converses
  input_round-Converses udp at word line c i_inside k_inside row known connection first back fresh
        user at_k place named get ack =
      let (b, more, k_c) =
        kept-IsCarried (increment64 sender.sequence_number) sender.username (d ∷ w) (32 ∷ text)
          bytes c in
      record {
        entered = message_entered udp at word line c;
        crosses =
            Runs-delivered address now message bytes server k before behind c refl row known
              k_inside i from i_inside;
        asks = message_asked user at_k place named get;
        answered = message_answered connection first back row known k_inside get;
        kept_bytes = b ∷ more;
        printed = k_c.printed;
        shown = message_shown b more k_c place k_inside named ack;
        settled =
            listen_udp-acknowledgement kept name ack_bytes asked now to stored ack
            ∙ ap (λ s. returns (s, []))
                (remove_received_message_from_list_same kept message stored refl
                  ∙ remove_received_message_from_list-add_to_message_list message (server k) fresh);
      }
