-- ===== src/Network/FirstConversation.antt =====
-- From five newly constructed servers and a newly constructed client to the first message on its
-- screen.
use cpsc.Common.{
  Bool, ◌+◌, ℕ, zero, suc, pos, ◌+◌, ◌<◌, [], ◌∷◌, ◌≡◌, ◌≢◌, ◌∙◌, refl, sym, subst, ap, arith, List,
  All, Outcome, returns, returns_inj, increment64, false,
}
use cpsc.Text.{Bytes, to_string}
use cpsc.Constants.{
  number_of_servers, server_index_to_server_name, server_host_name, mt_client_send,
}
use cpsc.Message.{text_message}
use cpsc.Message.SyncPayload.{IsListable}
use cpsc.Connection.{remote_connection}
use cpsc.Server.State.{construct}
use cpsc.Server.Listen.Hop.{IsCarried}
use cpsc.Client.{
  Client, Effect, sends, shows, reports_exception, p_udp, send_over_udp, next_sequence_number,
}
use cpsc.Client
use cpsc.Client.Command.{IsWord, IsLine}
use cpsc.Server.Mailbox.Delivery.{IsFirst}
use cpsc.Network.{Flight, Network}
use cpsc.Network.Greeting.{
  IsUsername, connect_message, connect-IsCarried, get-IsCarried, ack-IsCarried,
}
use cpsc.Network.Work.{Work}
use cpsc.Network.Everywhere.{row_address}
use cpsc.Network.Introduced.{construct-Introduces}
use cpsc.Network.Conversation.{Converses, input_round-Converses}

module _ {E : Type 0} where
  -- What a client at `address` puts on its way.
  abbrev pub sent_from : E → List (Effect E) → List (Flight E)
  sent_from address [] = []
  sent_from address (sends d ∷ o) = record { sender = address; content = d } ∷ sent_from address o
  sent_from address (shows text ∷ o) = sent_from address o
  sent_from address (reports_exception ∷ o) = sent_from address o

module _ {E T : Type 0} (resolve : Bytes → Bytes → Outcome E) (now : T)
    (endpoint : Bytes → Bytes → E) where
  -- The client of user `u` on server `k`, when its constructor has returned.
  first_client : Bytes → ℕ → Client E
  first_client u k = record {
    server_end_point = row_address resolve now endpoint k;
    active_protocol = p_udp;
    terminate = false;
    sequence_number = pos 1;
    username = u;
    server_port = 8080 + k;
    server_index = k;
  }

  -- The constructor of the client finds its server of the row.
  record Joins (u : Bytes) (k : ℕ) : Type 0 where
    name : Bytes
    named : server_index_to_server_name k ≡ returns name
    connect_bytes : Bytes
    connects : IsCarried (connect_message u name) connect_bytes
    constructed :
        Client.construct resolve u (8080 + k) k
        ≡ returns (
          first_client u k,
          sends (record { to = row_address resolve now endpoint k; bytes = connect_bytes }) ∷ [],
        )

  module _ (resolves : (host port : Bytes) → resolve host port ≡ returns (endpoint host port)) where
    server_found :
        (k : ℕ)
        → k < number_of_servers
        → (name : Bytes) × (host : Bytes) × (server_index_to_server_name k ≡ returns name)
          × (server_host_name k ≡ returns host)
          × (endpoint host (to_string (pos (8080 + k))) ≡ row_address resolve now endpoint k)
    unfolding server_index_to_server_name server_host_name
    server_found zero h = (_, _, refl, refl, refl)
    server_found (suc zero) h = (_, _, refl, refl, refl)
    server_found (suc (suc zero)) h = (_, _, refl, refl, refl)
    server_found (suc (suc (suc zero))) h = (_, _, refl, refl, refl)
    server_found (suc (suc (suc (suc zero)))) h = (_, _, refl, refl, refl)
    server_found (suc (suc (suc (suc (suc i))))) h = absurd (omega arith)

    construct-Joins : (u : Bytes) (k : ℕ) → IsUsername u → k < number_of_servers → Joins u k
    unfolding Client.construct send_over_udp next_sequence_number increment64 first_client
    construct-Joins u k user inside =
        let (name, host, named, hosted, place) = server_found k inside in
        let (connect_bytes, c) = connect-IsCarried u name k user named in
        record {
          name = name;
          named = named;
          connect_bytes = connect_bytes;
          connects = c;
          constructed =
              rw (hosted, resolves host (to_string (pos (8080 + k))), named, c.printed, place) refl;
        }

  -- Five servers and a client of one of them are newly constructed, and what the client's
  -- constructor sent is on its way. By receipts and rounds of the servers' threads alone, without a
  -- loss, the servers come to a state in which a message goes its whole way to this client: what
  -- the user of another client, at any server, enters for it comes hop by hop to its server; when
  -- the client asks, its server sends the message to the endpoint that the client's constructor
  -- sent from; the client shows it, and its acknowledgement takes it out of the server's list
  -- again. The client's name is one word without a slash or a comma and of at most 100 characters,
  -- the text has no line break, the message can be carried, the other client talks to its server by
  -- UDP, and every host name resolves.
  pub construct-Converses :
      ((host port : Bytes) → resolve host port ≡ returns (endpoint host port))
      → (port_is_free : ℕ → Bool) (n : Network E T) (r : Client E × List (Effect E))
        (sender : Client E) (from to : E) (i k d : ℕ) (w text bytes : Bytes)
      → ((j : ℕ)
          → j < number_of_servers
          → construct resolve now port_is_free (8080 + j) j ≡ returns (n.server j))
      → Client.construct resolve (d ∷ w) (8080 + k) k ≡ returns r
      → n.in_flight ≡ sent_from to r.1
      → IsUsername (d ∷ w)
      → IsListable (d ∷ w)
      → IsWord (d ∷ w)
      → IsLine text
      → i < number_of_servers
      → k < number_of_servers
      → sender.active_protocol ≡ p_udp
      → sender.server_end_point ≡ row_address resolve now endpoint i
      → IsCarried
          (text_message
            (increment64 sender.sequence_number)
            mt_client_send
            sender.username
            (d ∷ w)
            (32 ∷ text))
          bytes
      → (n' : Network E T) × Work (row_address resolve now endpoint) now n n'
        × (name : Bytes) × (get_bytes : Bytes) × (ack_bytes : Bytes) × Converses
            (row_address resolve now endpoint)
            now
            n'.server
            n'.in_flight
            []
            sender
            r.0
            from
            to
            i
            k
            d
            w
            text
            name
            bytes
            get_bytes
            ack_bytes
  unfolding first_client increment64
  construct-Converses resolves port_is_free n r sender from to i k d w text bytes constructed joined
        taken user no_comma word line i_inside k_inside udp at carried =
      let address = row_address resolve now endpoint in
      let joins = construct-Joins resolves (d ∷ w) k user k_inside in
      let made = returns_inj (sym joins.constructed ∙ joined) in
      let (n', introduced) =
        construct-Introduces resolve now endpoint (d ∷ w) k resolves port_is_free n to joins.name
          joins.connect_bytes [] constructed (taken ∙ ap (λ x. sent_from to x.1) (sym made)) user
          no_comma k_inside joins.connects in
      let (get_bytes, get) = get-IsCarried (d ∷ w) joins.name k user joins.named in
      let (ack_bytes, ack) =
        ack-IsCarried (increment64 sender.sequence_number) (d ∷ w) joins.name k carried.number user
          joins.named in
      (
        n',
        introduced.work,
        joins.name,
        get_bytes,
        ack_bytes,
        subst
            (λ receiver.
              Converses address now n'.server n'.in_flight [] sender receiver from to i k d w text
                joins.name bytes get_bytes ack_bytes)
            (ap (λ x. x.0) made)
            (input_round-Converses address now n'.server n'.in_flight [] sender
              (first_client (d ∷ w) k) from to i k d w text joins.name bytes get_bytes ack_bytes udp
              at word line carried i_inside k_inside introduced.row introduced.known
              (remote_connection (d ∷ w) to now)
              (subst (λ cs. IsFirst (d ∷ w) cs (remote_connection (d ∷ w) to now))
                (sym introduced.connections)
                (record { before = []; behind = []; split = refl; others = tt; named = refl }))
              refl
              (subst (All (λ x. x.sequence_number ≢ increment64 sender.sequence_number))
                (sym introduced.empty) tt)
              refl refl refl joins.named get ack),
      )
