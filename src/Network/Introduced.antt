-- ===== src/Network/Introduced.antt =====
-- Five new servers, one of them with a client, when all of them know of the client.
use cpsc.Common.{Bool, ◌+◌, ℕ, ◌<◌, [], ◌∷◌, ◌++◌, ◌≡◌, ◌∙◌, sym, subst, ap, Outcome, returns, List}
use cpsc.Text.{Bytes}
use cpsc.Constants.{number_of_servers}
use cpsc.Message.SyncPayload.{IsListable}
use cpsc.Connection.{remote_connection}
use cpsc.Server.State.{Server, construct}
use cpsc.Server.State.Construct.{constructed-new_server}
use cpsc.Server.Routing.Search.{IsConnected}
use cpsc.Server.Listen.Hop.{IsCarried}
use cpsc.Network.{Flight, Network, done, then_receives}
use cpsc.Network.Row.{IsRow}
use cpsc.Network.Greeting.{IsUsername, connect_message}
use cpsc.Network.Steps.{start, then_happens, receives}
use cpsc.Network.Work.{Work, rest, then_runs, Work-Work}
use cpsc.Network.Everywhere.{row_address, construct-IsRunningRow}
use cpsc.Network.Announced.{announce_both}
use cpsc.Network.Delivery.{IsKnownAt}
use cpsc.Network.Start.{
  with_client-first_servers, first-IsConnected, first-message_list, first-connected_clients,
  connected_network, connected-Receives, connected-IsQuiet,
}

module _ {E T : Type 0} (resolve : Bytes → Bytes → Outcome E) (now : T)
    (endpoint : Bytes → Bytes → E) (u : Bytes) (k : ℕ) where
  -- All servers know of the client, which has no message yet.
  pub record Introduces (client : E) (queue : List (Flight E)) (n n' : Network E T) : Type 0 where
    pub work : Work (row_address resolve now endpoint) now n n'
    pub row : IsRow (row_address resolve now endpoint) n'.server
    pub known : IsKnownAt n'.server u k
    pub extra : List (Flight E)
    pub in_flight : n'.in_flight ≡ queue ++ extra
    pub empty : (n'.server k).message_list ≡ []
    pub connections : (n'.server k).connected_clients ≡ remote_connection u client now ∷ []

  -- Five newly constructed servers receive a client's connection message and sync.
  pub construct-Introduces :
      ((host port : Bytes) → resolve host port ≡ returns (endpoint host port))
      → (port_is_free : ℕ → Bool) (n : Network E T) (client : E) (server connect_bytes : Bytes)
        (queue : List (Flight E))
      → ((j : ℕ)
          → j < number_of_servers
          → construct resolve now port_is_free (8080 + j) j ≡ returns (n.server j))
      → n.in_flight
        ≡ record {
          sender = client;
          content = record { to = row_address resolve now endpoint k; bytes = connect_bytes };
        }
          ∷ queue
      → IsUsername u
      → IsListable u
      → k < number_of_servers
      → IsCarried (connect_message u server) connect_bytes
      → (n' : Network E T) × Introduces client queue n n'
  unfolding connected_network
  construct-Introduces resolves port_is_free n client server connect_bytes queue constructed taken
        name no_comma inside connects =
      let address = row_address resolve now endpoint in
      let made = λ (j : ℕ) (inside : j < number_of_servers). sym (
        constructed-new_server resolve now endpoint resolves port_is_free (8080 + j) j inside
          (constructed j inside)) in
      let n1 = connected_network resolve now endpoint u client k n.server queue in
      let step =
        connected-Receives resolve now endpoint u client k n queue server connect_bytes inside
          connects taken in
      let running =
        construct-IsRunningRow resolve now endpoint resolves port_is_free n n1 constructed
          (then_happens start (receives now step)) in
      let same =
        with_client-first_servers resolve now endpoint u client k n.server k (made k inside)
          (made k inside) in
      let (n2, announced) =
        announce_both address now u k inside 0 n1
          (connected-IsQuiet resolve now endpoint u client k n queue name no_comma inside made
            running)
          (subst (IsConnected u) (sym same) (first-IsConnected resolve now endpoint u client k)) in
      (
        n2,
        record {
          work = Work-Work address now (then_runs rest (then_receives step done)) announced.work;
          row = announced.quiet.running.row;
          known = announced.known;
          extra = announced.extra;
          in_flight = announced.in_flight;
          empty =
              announced.messages k
              ∙ ap (λ (s : Server E T). s.message_list) same
              ∙ first-message_list resolve now endpoint u client k;
          connections =
              announced.connections k
              ∙ ap (λ (s : Server E T). s.connected_clients) same
              ∙ first-connected_clients resolve now endpoint u client k;
        },
      )
