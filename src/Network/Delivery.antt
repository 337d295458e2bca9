-- ===== src/Network/Delivery.antt =====
-- A text message on its way over several servers, from the one that its sender talks to, to the
-- one that its destination is connected to.
use cpsc.Common.{ℕ, ◌<◌, List, ◌≡◌, ◌≢◌, arith, leb, ◌-◌, inl, inr, Bool-cases, Holds}
use cpsc.Text.{Bytes}
use cpsc.Constants.{number_of_servers, mt_client_send}
use cpsc.Message.{DataMessage}
use cpsc.Server.State.{Server, clients_served}
use cpsc.Server.Routing.Search.{IsConnected}
use cpsc.Server.Listen.Hop.{IsCarried}
use cpsc.Network.{Flight, Runs}
use cpsc.Network.Row.{
  IsRow, IsKnownFromLeft, IsKnownFromRight, on_way, delivered, from_left, from_right,
}

module _ {E T : Type 0} (server : ℕ → Server E T) where
  -- The client is connected to server `k` and to no other, and the lists of the other servers
  -- name it for server `k` alone.
  pub record IsKnownAt (name : Bytes) (k : ℕ) : Type 0 where
    pub connected : IsConnected name (server k)
    pub away : (i : ℕ) → i < number_of_servers → i ≢ k → ¬ IsConnected name (server i)
    pub listed : (i : ℕ) → i < number_of_servers → i ≢ k → Holds name (clients_served (server i) k)
    pub only :
        (i j : ℕ)
        → i < number_of_servers
        → i ≢ k
        → j < number_of_servers
        → Holds name (clients_served (server i) j)
        → j ≡ k

module _ {E T : Type 0} (address : ℕ → E) (server : ℕ → Server E T) (name : Bytes) (k : ℕ)
    (row : IsRow address server) (known : IsKnownAt server name k)
    (k_inside : k < number_of_servers) where
  pub known_from_left : (j : ℕ) → IsKnownFromLeft server name j k
  known_from_left j = record {
    connected = known.connected;
    away = λ i _ below. known.away i (omega arith) (λ e. absurd (omega arith));
    not_left = λ i _ below (l, left, found).
        let place = row.index i (omega arith) in
        absurd (
          omega (
            arith,
            left,
            place,
            below,
            known.only i l (omega arith) (λ e. absurd (omega arith)) (omega (arith, left, place))
                found,
          ));
    right = λ i _ below.
        let place = row.index i (omega arith) in
        (
          k,
          omega (arith, place, below),
          k_inside,
          known.listed i (omega arith) (λ e. absurd (omega arith)),
        );
  }

  pub known_from_right : (j : ℕ) → j < number_of_servers → IsKnownFromRight server name k j
  known_from_right j inside = record {
    connected = known.connected;
    away = λ i above at_most. known.away i (omega arith) (λ e. absurd (omega arith));
    left = λ i above at_most.
        let place = row.index i (omega arith) in
        (k, omega (arith, place, above), known.listed i (omega arith) (λ e. absurd (omega arith)));
  }

module _ {E T : Type 0} (address : ℕ → E) (now : T) (m : DataMessage) (bytes : Bytes)
    (server : ℕ → Server E T) (k : ℕ) (before behind : List (Flight E))
    (carried : IsCarried m bytes) (sends : m.message_type ≡ mt_client_send)
    (row : IsRow address server) (known : IsKnownAt server m.destination_identifier k)
    (k_inside : k < number_of_servers) where
  -- A text message that the format and the buffer can carry and that is on its way to any server
  -- of a row of well-formed servers, connected to their neighbours' endpoints, can come to the
  -- server that its destination is connected to, if that client is connected there alone and
  -- every other server's lists name it for that server and for no other: there is a run of
  -- receipts that ends with the message in that server's message list, and with every other
  -- server and every other datagram on its way as they were.
  pub Runs-delivered :
      (i : ℕ) (sender : E)
      → i < number_of_servers
      → Runs address now
          (on_way server before behind bytes sender (address i))
          (delivered server before behind m k)
  Runs-delivered i sender inside = elim (Bool-cases (leb i k)) [
    | inl e ↦
        from_left address now m bytes server k before behind carried sends row k_inside (k - i) i
          sender (ground arith)
          (known_from_left address server m.destination_identifier k row known k_inside i)
    | inr e ↦
        from_right address now m bytes server k before behind carried sends row k_inside (i - k) i
          sender (ground arith) inside
          (known_from_right address server m.destination_identifier k row known k_inside i inside)
  ]
