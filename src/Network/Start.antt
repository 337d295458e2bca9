-- ===== src/Network/Start.antt =====
-- From five newly constructed servers to the first message that one of them keeps for a client.
use cpsc.Common.{
  List, ℕ, zero, suc, pos, ◌+◌, ◌<◌, [], ◌∷◌, ◌++◌, ◌≡◌, ◌≢◌, ◌∙◌, refl, sym, subst, ap, arith,
  All-append, length, length-append, inl, inr, Bool-cases, ◌==◌, ==_iff, not_of_false, Outcome,
  returns,
}
use cpsc.Text.{Bytes, All-Lacks, find}
use cpsc.Constants.{number_of_servers}
use cpsc.Message.{create_server_sync_payload}
use cpsc.Message.SyncPayload.{IsListable}
use cpsc.Connection.{datagram, remote_connection}
use cpsc.Server.State.{Server, clients_served, add_client_connection}
use cpsc.Server.State.Construct.{new_server}
use cpsc.Server.Routing.Search.{IsConnected}
use cpsc.Server.Listen.{listen_udp, dispatch}
use cpsc.Server.Listen.Hop.{IsCarried, listen_udp-as_char_vector}
use cpsc.Network.{Flight, Network, Receives}
use cpsc.Network.Greeting.{IsUsername, connect_message}
use cpsc.Network.Work.{with_server, with_server_self, with_server_ne}
use cpsc.Network.Everywhere.{row_address, IsRunningRow}
use cpsc.Network.Short.{IsShort}
use cpsc.Network.Spread.{own_names}
use cpsc.Network.Quiet.{IsFair, IsQuiet}

nil-IsShort : IsShort []
unfolding find create_server_sync_payload
nil-IsShort = record { tellable = record { listable = tt; plain = refl }; short = omega arith }

one-IsShort : (u : Bytes) → IsUsername u → IsListable u → IsShort (u ∷ [])
unfolding create_server_sync_payload
one-IsShort u name no_comma =
    let size : length (create_server_sync_payload (u ∷ [])) ≡ length u + 1 =
      length-append u (b',' ∷ []) in
    record {
      tellable = record {
        listable = (no_comma, tt);
        plain =
            All-Lacks b'/' (b'?' ∷ []) (u ++ b',' ∷ [])
              (All-append (λ c. c ≢ b'/') u (b',' ∷ []) name.no_slash (omega arith));
      };
      short = omega (arith, size, name.short);
    }

nil-IsFair : (u : Bytes) (k i : ℕ) → IsFair u k i []
nil-IsFair u k i = record { short = nil-IsShort; only = λ h. absurd h }

module _ {E T : Type 0} (resolve : Bytes → Bytes → Outcome E) (now : T)
    (endpoint : Bytes → Bytes → E) (u : Bytes) (client : E) (k : ℕ) where
  -- Server `k` when the client has connected to it, and the others as they were constructed.
  abbrev pub first_servers : ℕ → Server E T
  first_servers =
      with_server (new_server resolve now endpoint) k
        (add_client_connection u client now (new_server resolve now endpoint k))

  new_server_lists : (i j : ℕ) → clients_served (new_server resolve now endpoint i) j ≡ []
  unfolding new_server
  new_server_lists i zero = refl
  new_server_lists i (suc zero) = refl
  new_server_lists i (suc (suc zero)) = refl
  new_server_lists i (suc (suc (suc zero))) = refl
  new_server_lists i (suc (suc (suc (suc zero)))) = refl
  new_server_lists i (suc (suc (suc (suc (suc j))))) = refl

  new_server_names : (i : ℕ) → own_names (new_server resolve now endpoint i) ≡ []
  unfolding new_server
  new_server_names i = refl

  new_server_number : (i : ℕ) → (new_server resolve now endpoint i).sequence_number ≡ pos 0
  unfolding new_server
  new_server_number i = refl

  new_server_messages : (i : ℕ) → (new_server resolve now endpoint i).message_list ≡ []
  unfolding new_server
  new_server_messages i = refl

  -- The two kinds of server.
  first_cases :
      (P : ℕ → Server E T → Type 0)
      → P k (add_client_connection u client now (new_server resolve now endpoint k))
      → ((i : ℕ) → i ≢ k → P i (new_server resolve now endpoint i))
      → (i : ℕ) → P i (first_servers i)
  first_cases P here others i = elim (Bool-cases (i == k)) [
    | inl same ↦
        subst (λ x. P x (first_servers x)) (sym ((==_iff i k).0 same))
          (subst (P k) (sym (with_server_self (new_server resolve now endpoint) k _)) here)
    | inr other ↦
        let apart = not_of_false _ (==_iff i k) other in
        subst (P i) (sym (with_server_ne (new_server resolve now endpoint) k _ i apart))
          (others i apart)
  ]

  first-IsQuiet :
      (n : Network E T)
      → IsUsername u
      → IsListable u
      → IsRunningRow (row_address resolve now endpoint) n
      → ((i : ℕ) → i < number_of_servers → n.server i ≡ first_servers i)
      → IsQuiet (row_address resolve now endpoint) u k 44 n
  unfolding add_client_connection new_server
  first-IsQuiet n name no_comma running same = record {
    running = running;
    lists = λ i inside j inside'.
        subst (λ s. IsFair u k j (clients_served s j)) (sym (same i inside))
          (first_cases (λ x s. IsFair u k j (clients_served s j))
            (subst (IsFair u k j) (sym (new_server_lists k j)) (nil-IsFair u k j))
            (λ x other. subst (IsFair u k j) (sym (new_server_lists x j)) (nil-IsFair u k j)) i);
    own = λ i inside.
        subst (λ s. IsFair u k i (own_names s)) (sym (same i inside))
          (first_cases (λ x s. IsFair u k x (own_names s))
            (record { short = one-IsShort u name no_comma; only = λ h. refl })
            (λ x other. nil-IsFair u k x) i);
    numbers = λ i inside. (
      0,
      ap (λ (s : Server E T). s.sequence_number) (same i inside)
          ∙ first_cases (λ x s. s.sequence_number ≡ pos 0) refl (λ x other. refl) i,
      omega arith,
    );
  }

  connected_server :
      (server connect_bytes : Bytes) (s : Server E T)
      → IsCarried (connect_message u server) connect_bytes
      → listen_udp now (datagram client connect_bytes) s
        ≡ returns (add_client_connection u client now s, [])
  unfolding dispatch
  connected_server server connect_bytes s c =
      listen_udp-as_char_vector now client (connect_message u server) connect_bytes s c

  -- The servers when the client's first message has been received.
  unfoldable pub with_client : (ℕ → Server E T) → ℕ → Server E T
  with_client servers = with_server servers k (add_client_connection u client now (servers k))

  pub with_client-first_servers :
      (servers : ℕ → Server E T) (i : ℕ)
      → servers k ≡ new_server resolve now endpoint k
      → servers i ≡ new_server resolve now endpoint i
      → with_client servers i ≡ first_servers i
  unfolding with_client
  with_client-first_servers servers i e_k e_i = elim (Bool-cases (i == k)) [
    | inl same ↦
        subst (λ x. with_client servers x ≡ first_servers x) (sym ((==_iff i k).0 same))
          (with_server_self servers k _
            ∙ ap (add_client_connection u client now) e_k
            ∙ sym (with_server_self (new_server resolve now endpoint) k _))
    | inr other ↦
        let apart = not_of_false _ (==_iff i k) other in
        with_server_ne servers k _ i apart
        ∙ e_i
        ∙ sym (with_server_ne (new_server resolve now endpoint) k _ i apart)
  ]

  pub first-IsConnected : IsConnected u (first_servers k)
  unfolding add_client_connection new_server
  first-IsConnected =
      subst (IsConnected u) (sym (with_server_self (new_server resolve now endpoint) k _))
        (inl refl)

  pub first-connected_clients :
      (first_servers k).connected_clients ≡ remote_connection u client now ∷ []
  unfolding add_client_connection new_server
  first-connected_clients =
      ap (λ (s : Server E T). s.connected_clients)
        (with_server_self (new_server resolve now endpoint) k _)

  pub first-message_list : (first_servers k).message_list ≡ []
  unfolding add_client_connection
  first-message_list =
      ap (λ (s : Server E T). s.message_list)
        (with_server_self (new_server resolve now endpoint) k _)
      ∙ new_server_messages k

  -- The first client's connection message is received, and `rest` stays on its way.
  unfoldable pub connected_network : (ℕ → Server E T) → List (Flight E) → Network E T
  connected_network servers rest = record { server = with_client servers; in_flight = rest }

  pub connected-Receives :
      (n : Network E T) (rest : List (Flight E)) (server connect_bytes : Bytes)
      → k < number_of_servers
      → IsCarried (connect_message u server) connect_bytes
      → n.in_flight
        ≡ record {
          sender = client;
          content = record { to = row_address resolve now endpoint k; bytes = connect_bytes };
        }
          ∷ rest
      → Receives (row_address resolve now endpoint) now n (connected_network n.server rest)
  unfolding connected_network with_client
  connected-Receives n rest server connect_bytes inside c taken = record {
    i = k;
    inside = inside;
    flight = record {
      sender = client;
      content = record { to = row_address resolve now endpoint k; bytes = connect_bytes };
    };
    before = [];
    behind = rest;
    sent = [];
    taken = taken;
    arrived = refl;
    handled =
        connected_server server connect_bytes (n.server k) c
        ∙ ap (λ s. returns (s, [])) (sym (with_server_self n.server k _));
    others = with_server_ne n.server k _;
    rest = refl;
  }

  pub connected-IsQuiet :
      (n : Network E T) (rest : List (Flight E))
      → IsUsername u
      → IsListable u
      → k < number_of_servers
      → ((i : ℕ) → i < number_of_servers → n.server i ≡ new_server resolve now endpoint i)
      → IsRunningRow (row_address resolve now endpoint) (connected_network n.server rest)
      → IsQuiet (row_address resolve now endpoint) u k 44 (connected_network n.server rest)
  unfolding connected_network
  connected-IsQuiet n rest name no_comma inside made running =
      first-IsQuiet (connected_network n.server rest) name no_comma running
        (λ i below. with_client-first_servers n.server i (made k inside) (made i below))
