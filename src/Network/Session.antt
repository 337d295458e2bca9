-- ===== src/Network/Session.antt =====
-- A client's first exchange with its server: the connect message of its constructor, and the first
-- get of `getLoop`.
use cpsc.Common.{
  ℕ, pos, ◌<◌, ◌≡◌, ◌∙◌, [], ◌∷◌, ◌++◌, List, refl, ap, subst, inl, inr, Holds, Outcome, returns,
  Returns, Returns-map, map, increment64, false,
}
use cpsc.Text.{Bytes, to_string}
use cpsc.Constants.{number_of_servers, server_host_name}
use cpsc.Constants.Identifiers.{index_lookup}
use cpsc.Connection.{Datagram, datagram, remote_connection, RemoteConnection}
use cpsc.Server.State.{Server, add_client_connection}
use cpsc.Server.State.WellFormed.{IsWellFormed, add_client_connection-IsWellFormed}
use cpsc.Server.Routing.Search.{IsConnected}
use cpsc.Server.Mailbox.{send_messages_to_client}
use cpsc.Server.Mailbox.Delivery.{Serves, Delivers, send_messages_to_client-Serves}
use cpsc.Server.Listen.{listen_udp, dispatch}
use cpsc.Server.Listen.Hop.{IsCarried, listen_udp-as_char_vector}
use cpsc.Client.{Client, sends, p_udp, construct, get_round, send_over_udp, next_sequence_number}
use cpsc.Network.Greeting.{
  IsUsername, connect_message, get_message, connect-IsCarried, get-IsCarried,
}

module _ {E T : Type 0} (u : Bytes) where
  -- Behind connections of other names, the connection that was added last is the one of its name.
  last-first :
      (cs before behind : List (RemoteConnection E T)) (last c : RemoteConnection E T)
      → ¬ Holds u (map (λ b. b.identifier) cs)
      → cs ++ last ∷ [] ≡ before ++ c ∷ behind
      → c.identifier ≡ u
      → c.endpoint ≡ last.endpoint
  last-first [] [] behind last c new e named = cc
  last-first [] (b ∷ []) behind last c new e named = cc
  last-first [] (b ∷ d ∷ before) behind last c new e named = cc
  last-first (x ∷ cs) [] behind last c new e named =
      let same : x ≡ c = cc in absurd (new (inl (ap (λ b. b.identifier) same ∙ named)))
  last-first (x ∷ cs) (b ∷ before) behind last c new e named =
      let tails : cs ++ last ∷ [] ≡ before ++ c ∷ behind = cc in
      last-first cs before behind last c (λ h. new (inr h)) tails named

  connected-last :
      (cs : List (RemoteConnection E T)) (last : RemoteConnection E T)
      → last.identifier ≡ u
      → Holds u (map (λ b. b.identifier) (cs ++ last ∷ []))
  connected-last [] last e = inl e
  connected-last (x ∷ cs) last e = inr (connected-last cs last e)

  new_client-Delivers :
      (address : E) (now : T) (s : Server E T) (o : List (Datagram E))
      → ¬ IsConnected u s
      → Serves u (s.connected_clients ++ remote_connection u address now ∷ []) s.message_list o
      → Delivers u address s.message_list o
  new_client-Delivers address now s o new (inl (absent, _)) =
      absurd (absent (connected-last s.connected_clients (remote_connection u address now) refl))
  new_client-Delivers address now s o new (inr (c, first, sent)) =
      subst (λ (a : E). Delivers u a s.message_list o)
        (last-first s.connected_clients first.before first.behind (remote_connection u address now)
          c new first.split first.named)
        sent

module _ {E T : Type 0} (resolve : Bytes → Bytes → Outcome E) (address : E) (now : T) (u : Bytes)
    (port i : ℕ) (s : Server E T) (endpoint : Bytes → Bytes → E) where
  -- The client `client` of user `u` connects and asks `s` for its messages. It sends to server `i`,
  -- by the host name of that server.
  pub record HasSession : Type 0 where
    pub client : Client E
    pub host : Bytes
    pub hosted : server_host_name i ≡ returns host
    pub connect_bytes : Bytes
    pub get_bytes : Bytes
    pub connects :
        construct resolve u port i
        ≡ returns (
          client,
          sends (record { to = endpoint host (to_string (pos port)); bytes = connect_bytes }) ∷ [],
        )
    pub gets :
        get_round client
        ≡ returns (
          record client { sequence_number = pos 2 },
          sends (record { to = endpoint host (to_string (pos port)); bytes = get_bytes }) ∷ [],
        )
    pub connected :
        listen_udp now (datagram address connect_bytes) s
        ≡ returns (add_client_connection u address now s, [])
    pub served :
        Returns
          (λ r.
            (r.0 ≡ add_client_connection u address now s) × Delivers u address s.message_list r.1)
          (listen_udp now (datagram address get_bytes) (add_client_connection u address now s))

  connect-received :
      (server connect_bytes : Bytes)
      → IsCarried (connect_message u server) connect_bytes
      → listen_udp now (datagram address connect_bytes) s
        ≡ returns (add_client_connection u address now s, [])
  unfolding dispatch
  connect-received server connect_bytes c =
      listen_udp-as_char_vector now address (connect_message u server) connect_bytes s c

  served-Delivers :
      (server get_bytes : Bytes)
      → IsWellFormed s
      → ¬ IsConnected u s
      → IsCarried (get_message u server) get_bytes
      → Returns
          (λ r.
            (r.0 ≡ add_client_connection u address now s) × Delivers u address s.message_list r.1)
          (listen_udp now (datagram address get_bytes) (add_client_connection u address now s))
  unfolding dispatch add_client_connection
  served-Delivers server get_bytes w new g =
      let t = add_client_connection u address now s in
      rw (listen_udp-as_char_vector now address (get_message u server) get_bytes t g) (
        Returns-map _ _ (send_messages_to_client u t)
          (send_messages_to_client-Serves u t (add_client_connection-IsWellFormed u address now w))
          (λ r h. (h.0, new_client-Delivers u address now s r.1 new h.1)))

  -- The constructor of a client and the first round of its `getLoop` send two datagrams to the
  -- endpoint of the host name of its server, which the resolver gives for the client's port. When a
  -- well-formed server to which no client of the name is connected receives them in this order, the
  -- first one connects the client, at the endpoint that it came from, and makes the server send
  -- nothing; and for the second one it sends to this endpoint each message of its list for the user,
  -- in order, and nothing else; if host names resolve and the user's name has no slash and at most
  -- 100 characters.
  pub construct-HasSession :
      ((host port : Bytes) → resolve host port ≡ returns (endpoint host port))
      → IsUsername u
      → i < number_of_servers
      → IsWellFormed s
      → ¬ IsConnected u s
      → HasSession
  unfolding construct get_round send_over_udp next_sequence_number increment64
  construct-HasSession resolves name inside w new =
      let (server, host, named, hosted, _) = index_lookup i inside in
      let (connect_bytes, c) = connect-IsCarried u server i name named in
      let (get_bytes, g) = get-IsCarried u server i name named in
      record {
        client = record {
          server_end_point = endpoint host (to_string (pos port));
          active_protocol = p_udp;
          terminate = false;
          sequence_number = pos 1;
          username = u;
          server_port = port;
          server_index = i;
        };
        host = host;
        hosted = hosted;
        connect_bytes = connect_bytes;
        get_bytes = get_bytes;
        connects = rw (hosted, resolves host (to_string (pos port)), named, c.printed) refl;
        gets = rw (named, g.printed) refl;
        connected = connect-received server connect_bytes c;
        served = served-Delivers server get_bytes w new g;
      }
