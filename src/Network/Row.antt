-- ===== src/Network/Row.antt =====
-- A text message on its way over the row of servers, hop by hop.
use cpsc.Common.{
  ℕ, zero, suc, ◌<◌, ◌+◌, List, [], ◌∷◌, ◌++◌, some, ◌≡◌, refl, arith, subst, returns, ◌==◌, ==_iff,
  ==_ne, if◌then◌else◌, ◌≤◌,
}
use cpsc.Text.{Bytes}
use cpsc.Constants.{number_of_servers, mt_client_send}
use cpsc.Message.{DataMessage}
use cpsc.Connection.{datagram, RemoteConnection}
use cpsc.Server.State.{Server, add_to_message_list}
use cpsc.Server.State.WellFormed.{IsWellFormed}
use cpsc.Server.Routing.Search.{IsConnected, IsServedLeft, IsServedRight}
use cpsc.Server.Listen.{listen_udp}
use cpsc.Server.Listen.Hop.{IsCarried}
use cpsc.Network.Forwarding.{received_here, received_left_of, received_right_of}
use cpsc.Network.{Flight, Network, Receives, Runs, done, then_receives}

module _ {E T : Type 0} (address : ℕ → E) (server : ℕ → Server E T) where
  -- Five well-formed servers in a row, each connected to the endpoints of its neighbours.
  pub record IsRow : Type 0 where
    pub well_formed : (i : ℕ) → i < number_of_servers → IsWellFormed (server i)
    pub index : (i : ℕ) → i < number_of_servers → (server i).index ≡ i
    pub to_left :
        (i : ℕ) (c : RemoteConnection E T)
        → suc i < number_of_servers
        → (server (suc i)).left_adjacent_server_connection ≡ some c
        → c.endpoint ≡ address i
    pub to_right :
        (i : ℕ) (c : RemoteConnection E T)
        → suc i < number_of_servers
        → (server i).right_adjacent_server_connection ≡ some c
        → c.endpoint ≡ address (suc i)

module _ {E T : Type 0} (server : ℕ → Server E T) where
  -- Each server from `j` to the one before `k` sends what is for the client to the right.
  pub record IsKnownFromLeft (name : Bytes) (j k : ℕ) : Type 0 where
    pub connected : IsConnected name (server k)
    pub away : (i : ℕ) → j ≤ i → i < k → ¬ IsConnected name (server i)
    pub not_left : (i : ℕ) → j ≤ i → i < k → ¬ IsServedLeft name (server i)
    pub right : (i : ℕ) → j ≤ i → i < k → IsServedRight name (server i)

  -- Each server from the one behind `k` to `j` sends what is for the client to the left.
  pub record IsKnownFromRight (name : Bytes) (k j : ℕ) : Type 0 where
    pub connected : IsConnected name (server k)
    pub away : (i : ℕ) → k < i → i ≤ j → ¬ IsConnected name (server i)
    pub left : (i : ℕ) → k < i → i ≤ j → IsServedLeft name (server i)

module _ {E T : Type 0} (server : ℕ → Server E T) (before behind : List (Flight E)) where
  -- The message is on its way to the endpoint `to`, among whatever else is on its way.
  abbrev pub on_way : Bytes → E → E → Network E T
  on_way bytes sender to = record {
    server = server;
    in_flight =
        before ++ record { sender = sender; content = record { to = to; bytes = bytes } } ∷ behind;
  }

  -- Server `k` has stored the message, and nothing else has changed.
  abbrev pub delivered : DataMessage → ℕ → Network E T
  delivered m k = record {
    server = λ j. if j == k then add_to_message_list m (server k) else server j;
    in_flight = before ++ behind;
  }

module _ {E T : Type 0} (address : ℕ → E) (now : T) (m : DataMessage) (bytes : Bytes)
    (server : ℕ → Server E T) (k : ℕ) (before behind : List (Flight E))
    (carried : IsCarried m bytes) (sends : m.message_type ≡ mt_client_send)
    (row : IsRow address server) (k_inside : k < number_of_servers) where
  abbrev at_server : E → ℕ → Network E T
  at_server sender i = on_way server before behind bytes sender (address i)

  abbrev stored : Network E T
  stored = delivered server before behind m k

  pub pass :
      (sender : E) (i i' : ℕ)
      → i < number_of_servers
      → listen_udp now (datagram sender bytes) (server i)
        ≡ returns (server i, record { to = address i'; bytes = bytes } ∷ [])
      → Receives address now (at_server sender i) (at_server (address i) i')
  pass sender i i' inside h = record {
    i = i;
    inside = inside;
    flight = record { sender = sender; content = record { to = address i; bytes = bytes } };
    before = before;
    behind = behind;
    sent = record { to = address i'; bytes = bytes } ∷ [];
    taken = refl;
    arrived = refl;
    handled = h;
    others = λ j other. refl;
    rest = refl;
  }

  arrive :
      IsConnected m.destination_identifier (server k)
      → (sender : E) → Runs address now (at_server sender k) stored
  arrive here sender =
      then_receives
        (record {
          i = k;
          inside = k_inside;
          flight = record { sender = sender; content = record { to = address k; bytes = bytes } };
          before = before;
          behind = behind;
          sent = [];
          taken = refl;
          arrived = refl;
          handled = rw ((==_iff k k).1 refl) (
              received_here now sender m bytes carried sends (server k) (row.well_formed k k_inside)
                here);
          others = λ j other. rw (==_ne j k other) refl;
          rest = refl;
        })
        done

  pub from_left :
      (d j : ℕ) (sender : E)
      → j + d ≡ k
      → IsKnownFromLeft server m.destination_identifier j k
      → Runs address now (at_server sender j) stored
  from_left zero j sender e known =
      subst (λ i. Runs address now (at_server sender i) stored) (omega (arith, e))
        (arrive known.connected sender)
  from_left (suc d) j sender e known =
      let inside : j < number_of_servers = omega arith in
      let below : j < k = omega arith in
      then_receives
        (pass sender j (suc j) inside (
          received_left_of now sender m bytes carried sends (server j) (row.well_formed j inside)
            (address (suc j)) (known.away j (omega arith) below)
            (known.not_left j (omega arith) below) (known.right j (omega arith) below)
            (λ c at. row.to_right j c (omega arith) at)))
        (from_left d (suc j) (address j) (omega arith) (record {
          connected = known.connected;
          away = λ i h. known.away i (omega arith);
          not_left = λ i h. known.not_left i (omega arith);
          right = λ i h. known.right i (omega arith);
        }))

  pub from_right :
      (d j : ℕ) (sender : E)
      → k + d ≡ j
      → j < number_of_servers
      → IsKnownFromRight server m.destination_identifier k j
      → Runs address now (at_server sender j) stored
  from_right zero j sender e inside known =
      subst (λ i. Runs address now (at_server sender i) stored) (omega (arith, e))
        (arrive known.connected sender)
  from_right (suc d) zero sender e inside known = absurd (omega arith)
  from_right (suc d) (suc j) sender e inside known =
      then_receives
        (pass sender (suc j) j inside (
          received_right_of now sender m bytes carried sends (server (suc j))
            (row.well_formed (suc j) inside) (address j)
            (known.away (suc j) (omega arith) (omega arith))
            (known.left (suc j) (omega arith) (omega arith)) (λ c at. row.to_left j c inside at)))
        (from_right d j (address (suc j)) (omega arith) (omega arith) (record {
          connected = known.connected;
          away = λ i h h'. known.away i h (omega arith);
          left = λ i h h'. known.left i h (omega arith);
        }))
