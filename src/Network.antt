-- ===== src/Network.antt =====
-- The row of servers and the datagrams on their way: `listenLoopUDP` of src/Server/server.cpp on
-- each of the five servers. `address i` is the endpoint of server `i`.
pub mod Forwarding
pub mod Row
pub mod Delivery
pub mod Lists
pub mod Greeting
pub mod Session
pub mod Direction
pub mod Spread
pub mod Chain
pub mod EndToEnd
pub mod Kept
pub mod Conversation
pub mod Bounce
pub mod Steps
pub mod Everywhere
pub mod Alone
pub mod Termination
pub mod Work
pub mod Short
pub mod Quiet
pub mod Heard
pub mod Telling
pub mod Knowing
pub mod Announced
pub mod Start
pub mod Introduced
pub mod FirstMessage
pub mod FirstConversation
use cpsc.Common.{ℕ, ◌<◌, List, ◌++◌, ◌∷◌, map, ◌≡◌, ◌≢◌, returns}
use cpsc.Constants.{number_of_servers}
use cpsc.Connection.{Datagram, datagram}
use cpsc.Server.State.{Server}
use cpsc.Server.Listen.{listen_udp}

-- A datagram on its way, and who sent it.
pub record Flight (E : Type 0) : Type 0 where
  pub sender : E
  pub content : Datagram E

-- The servers by index; the order of what is on its way has no meaning.
pub record Network (E T : Type 0) : Type 0 where
  pub server : ℕ → Server E T
  pub in_flight : List (Flight E)

module _ {E T : Type 0} (address : ℕ → E) (now : T) where
  -- Server `i` receives one of the datagrams that are on their way to it, and handles it.
  pub record Receives (n n' : Network E T) : Type 0 where
    pub i : ℕ
    pub inside : i < number_of_servers
    pub flight : Flight E
    pub before : List (Flight E)
    pub behind : List (Flight E)
    pub sent : List (Datagram E)
    pub taken : n.in_flight ≡ before ++ flight ∷ behind
    pub arrived : flight.content.to ≡ address i
    pub handled :
        listen_udp now (datagram flight.sender flight.content.bytes) (n.server i)
        ≡ returns (n'.server i, sent)
    pub others : (j : ℕ) → j ≢ i → n'.server j ≡ n.server j
    pub rest :
        n'.in_flight
        ≡ before ++ (map (λ d. record { sender = address i; content = d }) sent ++ behind)

  -- Any number of such steps.
  pub data Runs : Network E T → Network E T → Type 0 where
    done : {n : Network E T} → Runs n n
    then_receives : {n n' n'' : Network E T} → Receives n n' → Runs n' n'' → Runs n n''
