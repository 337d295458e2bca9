-- ===== src/Network/Bounce.antt =====
-- A message between two neighbours of which each takes the other's side for the way to a client.
use cpsc.Common.{ℕ, suc, ◌<◌, List, ◌≡◌, arith}
use cpsc.Text.{Bytes}
use cpsc.Constants.{number_of_servers, mt_client_send}
use cpsc.Message.{DataMessage}
use cpsc.Server.State.{Server}
use cpsc.Server.Routing.Search.{IsConnected, IsServedLeft, IsServedRight}
use cpsc.Server.Listen.Hop.{IsCarried}
use cpsc.Network.Forwarding.{received_left_of, received_right_of}
use cpsc.Network.Row.{IsRow, on_way, pass}
use cpsc.Network.{Flight, Receives}

module _ {E T : Type 0} (server : ℕ → Server E T) where
  -- Server `i` and the one to its right have lists of one another's side that name a client which
  -- is connected to neither.
  pub record IsMislaid (name : Bytes) (i : ℕ) : Type 0 where
    pub not_here : ¬ IsConnected name (server i)
    pub not_there : ¬ IsConnected name (server (suc i))
    pub not_left : ¬ IsServedLeft name (server i)
    pub right : IsServedRight name (server i)
    pub back : IsServedLeft name (server (suc i))

module _ {E T : Type 0} (address : ℕ → E) (now : T) (m : DataMessage) (bytes : Bytes)
    (server : ℕ → Server E T) (before behind : List (Flight E)) where
  -- The message goes from server `i` to the next one and from there back to server `i`, which does
  -- the same with it again.
  pub record Bounces (i : ℕ) (sender : E) : Type 0 where
    pub arrives :
        Receives address now
          (on_way server before behind bytes sender (address i))
          (on_way server before behind bytes (address i) (address (suc i)))
    pub returns_back :
        Receives address now
          (on_way server before behind bytes (address i) (address (suc i)))
          (on_way server before behind bytes (address (suc i)) (address i))
    pub leaves_again :
        Receives address now
          (on_way server before behind bytes (address (suc i)) (address i))
          (on_way server before behind bytes (address i) (address (suc i)))

  -- Two neighbours of which the left one's lists name a client for a server to its right, and the
  -- right one's for a server to its left, pass a text message for the client to one another without
  -- end, if the client is connected to neither of them and the left one does not know it from
  -- further left: no server changes, and every second receipt leads back to the same datagrams on
  -- their way. The row is well formed and the message can be carried.
  pub IsMislaid-Bounces :
      (i : ℕ) (sender : E)
      → IsCarried m bytes
      → m.message_type ≡ mt_client_send
      → IsRow address server
      → suc i < number_of_servers
      → IsMislaid server m.destination_identifier i
      → Bounces i sender
  IsMislaid-Bounces i sender carried sends row inside mislaid =
      let i_inside : i < number_of_servers = omega arith in
      let rightwards = λ (from : E).
        pass address now m bytes server i before behind carried sends row i_inside from i (suc i)
          i_inside
          (received_left_of now from m bytes carried sends (server i) (row.well_formed i i_inside)
            (address (suc i)) mislaid.not_here mislaid.not_left mislaid.right
            (λ c at. row.to_right i c inside at)) in
      record {
        arrives = rightwards sender;
        returns_back =
            pass address now m bytes server i before behind carried sends row i_inside (address i)
              (suc i) i inside
              (received_right_of now (address i) m bytes carried sends (server (suc i))
                (row.well_formed (suc i) inside) (address i) mislaid.not_there mislaid.back
                (λ c at. row.to_left i c inside at));
        leaves_again = rightwards (address (suc i));
      }
