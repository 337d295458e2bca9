-- ===== src/Network/Steps.antt =====
-- All that can happen in the network: a round of a thread of any server, and what the network and
-- those outside do to the datagrams on their way.
use cpsc.Common.{ℕ, ◌<◌, List, ◌++◌, map, ◌≡◌, ◌≢◌}
use cpsc.Constants.{number_of_servers}
use cpsc.Connection.{Datagram, datagram}
use cpsc.Server.Listen.Reach.{Step, listens}
use cpsc.Network.{Network, Receives}

module _ {E T : Type 0} (address : ℕ → E) where
  -- Server `i` does a round of one of its threads that did not wait for a datagram on its way: one
  -- that forwards or syncs, or a receipt of something else. What it sends is on its way then.
  pub record Acts (n n' : Network E T) : Type 0 where
    pub i : ℕ
    pub inside : i < number_of_servers
    pub sent : List (Datagram E)
    pub did : Step (n.server i) (n'.server i) sent
    pub others : (j : ℕ) → j ≢ i → n'.server j ≡ n.server j
    pub added :
        n'.in_flight ≡ n.in_flight ++ map (λ d. record { sender = address i; content = d }) sent

  -- `carries`: the datagrams on their way are others than before. Some are lost, come twice or in
  -- another order, and a client or anyone else has sent some.
  pub data Happens (n n' : Network E T) : Type 0 where
    receives : (now : T) → Receives address now n n' → Happens n n'
    acts : Acts n n' → Happens n n'
    carries : ((i : ℕ) → n'.server i ≡ n.server i) → Happens n n'

  -- Any number of such events.
  pub data History (n : Network E T) : Network E T → Type 0 where
    start : History n n
    then_happens : {n' n'' : Network E T} → History n n' → Happens n' n'' → History n n''

  -- The one server that an event is about.
  pub record Moves (n n' : Network E T) : Type 0 where
    pub i : ℕ
    pub inside : i < number_of_servers
    pub sent : List (Datagram E)
    pub did : Step (n.server i) (n'.server i) sent
    pub others : (j : ℕ) → j ≢ i → n'.server j ≡ n.server j

  pub Receives-Moves : {n n' : Network E T} (now : T) → Receives address now n n' → Moves n n'
  Receives-Moves now r = record {
    i = r.i;
    inside = r.inside;
    sent = r.sent;
    did = listens now (datagram r.flight.sender r.flight.content.bytes) r.handled;
    others = r.others;
  }

  pub Acts-Moves : {n n' : Network E T} → Acts n n' → Moves n n'
  Acts-Moves a = record {
    i = a.i;
    inside = a.inside;
    sent = a.sent;
    did = a.did;
    others = a.others;
  }
