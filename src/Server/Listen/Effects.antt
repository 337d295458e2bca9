-- ===== src/Server/Listen/Effects.antt =====
-- What a round of `listenLoopUDP` does, for each datagram and each message type.
use cpsc.Common.{
  ℕ, pos, ◌<◌, ◌++◌, [], ◌∷◌, List, ◌≡◌, ◌≢◌, ◌⊎◌, inl, inr, refl, ap, Outcome, returns, throws,
  aborts, undefined, Returns, Bool-cases, not_of_false, set, if◌then◌else◌,
}
use cpsc.Text.{Bytes, equals, equals_iff}
use cpsc.Constants.{
  number_of_servers, MessageType, mt_undefined, mt_client_connect, mt_client_disconnect,
  mt_client_send, mt_client_get, mt_client_ack, mt_server_send, mt_server_ack, mt_server_sync,
  mt_ping,
}
use cpsc.Message.{
  DataMessage, of_char_vector, received_vector, view_message_type_as_string,
  view_server_sync_payload,
}
use cpsc.Message.Types.{view_message_type_as_string-ne}
use cpsc.Message.Parsed.{
  HasUnknownType, of_char_vector-HasUnknownType, of_char_vector-defined, of_char_vector-typed,
}
use cpsc.Connection.{Event, datagram, failure, RemoteConnection, remote_connection}
use cpsc.Server.State.{
  Server, Result, add_client_connection, remove_client_connection, remove_connection,
}
use cpsc.Server.State.WellFormed.{IsWellFormed, receive_clients_out_of_range}
use cpsc.Server.Mailbox.{remove_received_message_from_list}
use cpsc.Server.Mailbox.Acknowledge.{Acknowledges, remove_received_message_from_list-Acknowledges}
use cpsc.Server.Mailbox.Delivery.{Serves, send_messages_to_client-Serves}
use cpsc.Server.Routing.Routes.{Routes, process_client_send_message-Routes}
use cpsc.Server.Routing.Relay.{Relays, process_server_relay_message-Relays}
use cpsc.Server.Listen.{listen_udp, handle_read, handle, dispatch}
use cpsc.Server.Listen.Handling.{CanStore, CanStore-cases}
use cpsc.Server.Listen.Hop.{dispatch_sync}

module _ {E T : Type 0} where
  -- A disconnection removes the first connection of all, if it has the name, and else nothing.
  abbrev pub Disconnects :
      Bytes → List (RemoteConnection E T) → List (RemoteConnection E T) → Type 0
  Disconnects name [] cs' = cs' ≡ []
  Disconnects name (c ∷ cs) cs' =
      ((c.identifier ≡ name) × (cs' ≡ cs)) ⊎ ((c.identifier ≢ name) × (cs' ≡ c ∷ cs))

  abbrev pub Stores : DataMessage → Server E T → Result E T → Type 0
  Stores m s r =
      ((i : ℕ) × (m.server_sync_payload_origin_index ≡ pos i)
        × (i < number_of_servers)
        × (r
            ≡ returns (
              record s {
                clients_served_by_server_index =
                    set s.clients_served_by_server_index i (view_server_sync_payload m);
              },
              [],
            )))
      ⊎ ((¬ CanStore m) × (r ≡ undefined))

  -- What each type of message does to the server, and what the server sends.
  abbrev pub Effects : MessageType → T → E → DataMessage → Server E T → Result E T → Type 0
  Effects mt_undefined now sender m s r = ⊥
  Effects mt_client_connect now sender m s r =
      r
      ≡ returns (
        record s {
          connected_clients =
              s.connected_clients ++ remote_connection m.source_identifier sender now ∷ [];
        },
        [],
      )
  Effects mt_client_disconnect now sender m s r =
      (cs : List (RemoteConnection E T)) × Disconnects m.source_identifier s.connected_clients cs
      × (r ≡ returns (record s { connected_clients = cs }, []))
  Effects mt_client_send now sender m s r = Routes m s r
  Effects mt_client_get now sender m s r =
      Returns (λ q. (q.0 ≡ s) × Serves m.source_identifier s.connected_clients s.message_list q.1) r
  Effects mt_client_ack now sender m s r =
      (ms : List DataMessage) × Acknowledges m s.message_list ms
      × (r ≡ returns (record s { message_list = ms }, []))
  Effects mt_server_send now sender m s r = Relays m s r
  Effects mt_server_ack now sender m s r = r ≡ returns (s, [])
  Effects mt_server_sync now sender m s r = Stores m s r
  Effects mt_ping now sender m s r = r ≡ returns (s, [])

  -- What a datagram does that the parser reads, or throws on.
  abbrev pub ReadEffects : Outcome DataMessage → T → E → Server E T → Result E T → Type 0
  ReadEffects throws now sender s r = r ≡ returns (s, [])
  ReadEffects aborts now sender s r = ⊥
  ReadEffects undefined now sender s r = ⊥
  ReadEffects (returns m) now sender s r = Effects m.message_type now sender m s r

  abbrev pub RoundEffects : T → Event E → Server E T → Result E T → Type 0
  RoundEffects now failure s r = r ≡ returns (s, [])
  RoundEffects now (datagram sender bytes) s r =
      (HasUnknownType (received_vector bytes) × (r ≡ aborts))
      ⊎ ((¬ HasUnknownType (received_vector bytes))
          × ReadEffects (of_char_vector (received_vector bytes)) now sender s r)

  remove_connection-Disconnects :
      (name : Bytes) (cs : List (RemoteConnection E T))
      → Disconnects name cs (remove_connection name cs)
  unfolding remove_connection
  remove_connection-Disconnects name [] = refl
  remove_connection-Disconnects name (c ∷ cs) = elim (Bool-cases (equals c.identifier name)) [
    | inl e ↦ inl ((equals_iff c.identifier name).0 e, ap (λ b. if b then cs else c ∷ cs) e)
    | inr e ↦
        inr (not_of_false _ (equals_iff c.identifier name) e, ap (λ b. if b then cs else c ∷ cs) e)
  ]

  dispatch-Effects :
      (now : T) (sender : E) (m : DataMessage) (t : MessageType) (s : Server E T)
      → IsWellFormed s
      → m.message_type ≢ mt_undefined
      → t ≢ mt_undefined
      → Effects t now sender m s (dispatch now sender m t s)
  unfolding dispatch add_client_connection remove_client_connection
      remove_received_message_from_list
  dispatch-Effects now sender m mt_undefined s w typed known = known refl
  dispatch-Effects now sender m mt_client_connect s w typed known = refl
  dispatch-Effects now sender m mt_client_disconnect s w typed known =
      (_, remove_connection-Disconnects m.source_identifier s.connected_clients, refl)
  dispatch-Effects now sender m mt_client_send s w typed known =
      process_client_send_message-Routes m s w typed
  dispatch-Effects now sender m mt_client_get s w typed known =
      send_messages_to_client-Serves m.source_identifier s w
  dispatch-Effects now sender m mt_client_ack s w typed known =
      (_, remove_received_message_from_list-Acknowledges m s, refl)
  dispatch-Effects now sender m mt_server_send s w typed known =
      process_server_relay_message-Relays m s w typed
  dispatch-Effects now sender m mt_server_ack s w typed known = refl
  dispatch-Effects now sender m mt_server_sync s w typed known = elim (CanStore-cases m) [
    | inl (i, e, inside) ↦
        inl
          (i, e, inside, dispatch_sync now sender m i (view_server_sync_payload m) s e inside refl)
    | inr outside ↦ inr (outside, rw (receive_clients_out_of_range m s outside) refl)
  ]
  dispatch-Effects now sender m mt_ping s w typed known = refl

  handle_read-ReadEffects :
      (now : T) (sender : E) (read : Outcome DataMessage) (s : Server E T)
      → IsWellFormed s
      → read ≢ undefined
      → read ≢ aborts
      → ((m : DataMessage)
          → read ≡ returns m
          → (name : Bytes) × (view_message_type_as_string m.message_type ≡ returns name))
      → ReadEffects read now sender s (handle_read now sender read s)
  unfolding handle_read handle
  handle_read-ReadEffects now sender throws s w defined known typed = refl
  handle_read-ReadEffects now sender aborts s w defined known typed = known refl
  handle_read-ReadEffects now sender undefined s w defined known typed = defined refl
  handle_read-ReadEffects now sender (returns m) s w defined known typed =
      let (name, e) = typed m refl in
      let has_type = view_message_type_as_string-ne m.message_type name e in
      rw e (dispatch-Effects now sender m m.message_type s w has_type has_type)

  -- What a round of `listenLoopUDP` on a well-formed server does. An error of the socket changes
  -- nothing and sends nothing. A datagram with a number and a text that is no message type's fails
  -- an assertion, and no other does so in the parser; one that makes the parser throw changes
  -- nothing and sends nothing. Else a message was read, and: a connect adds a connection to the
  -- sender behind the others; a disconnect removes the first connection of all if it has the name;
  -- a text message is routed, a get served, an acknowledged message removed, a relayed message
  -- kept or passed on, unless the row ends there, which fails an assertion; a sync stores its list
  -- as its origin's, or is undefined if that is no server of the row; and an acknowledgement of a
  -- server and a ping do nothing.
  pub listen_udp-RoundEffects :
      (now : T) (event : Event E) (s : Server E T)
      → IsWellFormed s
      → RoundEffects now event s (listen_udp now event s)
  unfolding listen_udp handle_read
  listen_udp-RoundEffects now failure s w = refl
  listen_udp-RoundEffects now (datagram sender bytes) s w =
      let v = received_vector bytes in
      elim (of_char_vector-HasUnknownType v) [
        | inl (unknown, e) ↦ inl (unknown, ap (λ read. handle_read now sender read s) e)
        | inr (known, e) ↦ inr (
          known,
          handle_read-ReadEffects now sender (of_char_vector v) s w (of_char_vector-defined v) e
              (λ m. of_char_vector-typed v m),
        )
      ]
