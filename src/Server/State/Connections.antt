-- ===== src/Server/State/Connections.antt =====
-- `addClientConnection` and `removeClientConnection` one after the other.
use cpsc.Common.{[], ◌∷◌, ◌++◌, List, ◌≡◌, ◌≢◌, refl, ap, ◌∙◌, sym}
use cpsc.Text.{Bytes, equals_self, equals_ne}
use cpsc.Connection.{RemoteConnection, remote_connection}
use cpsc.Server.State.{Server, add_client_connection, remove_client_connection, remove_connection}

module _ {E T : Type 0} (username : Bytes) (endpoint : E) (now : T) (s : Server E T) where
  -- The only client of a server leaves no trace when it disconnects.
  pub remove-add_client_connection_alone :
      s.connected_clients ≡ []
      → remove_client_connection username (add_client_connection username endpoint now s) ≡ s
  unfolding remove_client_connection add_client_connection
  remove-add_client_connection_alone e =
      ap (λ l. record s { connected_clients = l }) (removed ∙ sym e)
    where
      removed :
          remove_connection username
            (s.connected_clients ++ remote_connection username endpoint now ∷ [])
          ≡ []
      removed = rw e (rw (equals_self username) refl)

  -- A client that connected behind another one stays connected when it disconnects: the loop ends
  -- after the first connection.
  pub remove-add_client_connection_behind :
      (c : RemoteConnection E T) (cs : List (RemoteConnection E T))
      → s.connected_clients ≡ c ∷ cs
      → c.identifier ≢ username
      → remove_client_connection username (add_client_connection username endpoint now s)
        ≡ add_client_connection username endpoint now s
  unfolding remove_client_connection add_client_connection
  remove-add_client_connection_behind c cs e other =
      let joined = s.connected_clients ++ remote_connection username endpoint now ∷ [] in
      ap (λ l. record s { connected_clients = l })
        (skipped joined (cs ++ remote_connection username endpoint now ∷ []) (rw e refl))
    where
      skipped :
          (l rest : List (RemoteConnection E T)) → l ≡ c ∷ rest → remove_connection username l ≡ l
      skipped l rest h = rw h (rw (equals_ne c.identifier username other) refl)
