-- ===== src/Network/FirstMessage.antt =====
-- The first message that a newly constructed row of servers delivers.
use cpsc.Common.{
  Bool, ◌+◌, ℕ, ◌<◌, [], ◌∷◌, ◌≡◌, sym, subst, ap, Outcome, returns, refl, ==_iff, ◌++◌,
}
use cpsc.Text.{Bytes}
use cpsc.Constants.{number_of_servers, mt_client_send, mt_server_send}
use cpsc.Message.{DataMessage, set_message_type}
use cpsc.Message.SyncPayload.{IsListable}
use cpsc.Server.State.{construct, add_to_message_list}
use cpsc.Server.Listen.Hop.{IsCarried}
use cpsc.Network.{Flight, Network, Runs}
use cpsc.Network.Greeting.{IsUsername, connect_message}
use cpsc.Network.Work.{Work, then_runs}
use cpsc.Network.Everywhere.{row_address}
use cpsc.Network.Introduced.{construct-Introduces}
use cpsc.Network.Delivery.{Runs-delivered}
use cpsc.Network.Row.{delivered}

module _ {E T : Type 0} (resolve : Bytes → Bytes → Outcome E) (now : T)
    (endpoint : Bytes → Bytes → E) where
  -- Five servers are newly constructed, a client's connection message is on its way to its
  -- server, and another client's message for that client is on its way to any server. By receipts
  -- and rounds of the servers' threads alone, without a loss, the servers come to a state in which
  -- the client's server keeps the message for it, as a message from a server, and no other. The
  -- client's name is one that a user can enter and that has no comma, the message can be carried,
  -- and every host name resolves.
  pub construct-delivered :
      ((host port : Bytes) → resolve host port ≡ returns (endpoint host port))
      → (port_is_free : ℕ → Bool) (n : Network E T) (m : DataMessage) (client sender : E) (k i : ℕ)
        (server connect_bytes bytes : Bytes)
      → ((j : ℕ)
          → j < number_of_servers
          → construct resolve now port_is_free (8080 + j) j ≡ returns (n.server j))
      → n.in_flight
        ≡ record {
          sender = client;
          content = record { to = row_address resolve now endpoint k; bytes = connect_bytes };
        }
          ∷ record {
            sender = sender;
            content = record { to = row_address resolve now endpoint i; bytes = bytes };
          }
          ∷ []
      → IsUsername m.destination_identifier
      → IsListable m.destination_identifier
      → k < number_of_servers
      → i < number_of_servers
      → IsCarried (connect_message m.destination_identifier server) connect_bytes
      → IsCarried m bytes
      → m.message_type ≡ mt_client_send
      → (n' : Network E T) × Work (row_address resolve now endpoint) now n n'
        × ((n'.server k).message_list ≡ set_message_type mt_server_send m ∷ [])
  unfolding add_to_message_list
  construct-delivered resolves port_is_free n m client sender k i server connect_bytes bytes
        constructed taken name no_comma k_inside i_inside connects carried sends =
      let u = m.destination_identifier in
      let address = row_address resolve now endpoint in
      let flight : Flight E = record {
        sender = sender;
        content = record { to = address i; bytes = bytes };
      } in
      let (n', introduced) =
        construct-Introduces resolve now endpoint u k resolves port_is_free n client server
          connect_bytes (flight ∷ []) constructed taken name no_comma k_inside connects in
      let arrived = delivered n'.server [] introduced.extra m k in
      let runs =
        Runs-delivered address now m bytes n'.server k [] introduced.extra carried sends
          introduced.row introduced.known k_inside i sender i_inside in
      (
        arrived,
        then_runs introduced.work (
            subst (λ o. Runs address now (record { server = n'.server; in_flight = o }) arrived)
              (sym introduced.in_flight) runs),
        rw ((==_iff k k).1 refl)
            (ap (λ l. l ++ set_message_type mt_server_send m ∷ []) introduced.empty),
      )
