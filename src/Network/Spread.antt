-- ===== src/Network/Spread.antt =====
-- How the list of a server comes to the next server, to the right or to the left, by a round of
-- `sendSyncPayloads`.
use cpsc.Common.{
  ℕ, ℤ, pos, ◌+◌, ◌<◌, ◌≤◌, ◌^◌, List, ◌≡◌, ◌≢◌, inl, inr, All, length, returns, Ensures-returns,
  Returns-Ensures, map, none, Option, get_or-set_self, get_or-set_ne, arith, [],
}
use cpsc.Text.{Bytes}
use cpsc.Constants.{number_of_servers}
use cpsc.Message.{arbitrary_length}
use cpsc.Connection.{Datagram, RemoteConnection}
use cpsc.Server.State.{Server, clients_served}
use cpsc.Server.State.WellFormed.{IsWellFormed}
use cpsc.Server.Sync.{send_sync_payloads, refresh_own_clients}
use cpsc.Server.Sync.Round.{SyncRound, Side}
use cpsc.Network.Direction.{
  Direction, sources, neighbour, neighbour_index, datagrams, number_before, number_behind, side,
}
use cpsc.Network.Lists.{IsTellable, Learns, listen_to, Syncs-Learns}

-- The names of the clients that are connected.
abbrev pub own_names : {E T : Type 0} → Server E T → List Bytes
own_names s = map (λ c. c.identifier) s.connected_clients

module _ {E T : Type 0} where
  pub own_entry :
      (s : Server E T)
      → IsWellFormed s
      → clients_served (refresh_own_clients s) s.index ≡ own_names s
  unfolding refresh_own_clients
  own_entry s w =
      get_or-set_self s.clients_served_by_server_index s.index (own_names s) []
        (omega (arith, w.placed.in_range, w.tables))

  pub other_entry :
      (s : Server E T) (i : ℕ)
      → s.index ≢ i
      → clients_served (refresh_own_clients s) i ≡ clients_served s i
  unfolding refresh_own_clients
  other_entry s i other =
      get_or-set_ne s.clients_served_by_server_index s.index i (own_names s) [] other

  -- Server `s` does a round of `sendSyncPayloads`, and its neighbour `t` on that side receives what
  -- it was sent, in order, and is `t'` then. The lists can be carried.
  pub record Tells (d : Direction) (s t t' : Server E T) : Type 0 where
    pub now : T
    pub sender : E
    pub result : Server E T × List (Datagram E)
    pub did : send_sync_payloads s ≡ returns result
    pub round : SyncRound s result
    pub connected : neighbour d s ≢ none
    pub start : ℕ
    pub numbered : number_before round d ≡ pos start
    pub room : start + length (sources d s.index) < 2 ^ 31
    pub lists :
        All
          (λ i. (i < number_of_servers) × IsTellable (clients_served (refresh_own_clients s) i))
          (sources d s.index)
    pub fit : All (λ x. length x.bytes ≤ arbitrary_length) (datagrams round d)
    pub heard : listen_to now sender (datagrams round d) t ≡ returns t'
    pub well_formed : IsWellFormed s
    pub heard_well_formed : IsWellFormed t

  Side-Learns :
      (s t t' : Server E T) (to : Option (RemoteConnection E T)) (j n' : ℤ) (a : ℕ) {n : ℤ}
      (is : List ℕ) (o : List (Datagram E)) (now : T) (sender : E)
      → to ≢ none
      → n ≡ pos a
      → a + length is < 2 ^ 31
      → All (λ i. (i < number_of_servers) × IsTellable (clients_served s i)) is
      → All (λ d. length d.bytes ≤ arbitrary_length) o
      → length t.clients_served_by_server_index ≡ number_of_servers
      → listen_to now sender o t ≡ returns t'
      → Side s j to n is o n'
      → Learns s is t t'
  Side-Learns s t t' to j n' a is o now sender exists start room lists fit tables heard
        (inl (e, _, _)) =
      absurd (exists e)
  Side-Learns s t t' to j n' a is o now sender exists start room lists fit tables heard
        (inr (c, _, syncs)) =
      Ensures-returns (Learns s is t) (listen_to now sender o t) heard (
        Returns-Ensures (Learns s is t) (listen_to now sender o t)
          (Syncs-Learns now sender s t j c a is o start room lists fit tables syncs))

  pub Tells-Learns :
      (d : Direction) {s t t' : Server E T}
      → Tells d s t t'
      → Learns (refresh_own_clients s) (sources d s.index) t t'
  Tells-Learns d {s} {t} {t'} tells =
      Side-Learns (refresh_own_clients s) t t' (neighbour d s) (neighbour_index d s)
        (number_behind tells.round d) tells.start (sources d s.index) (datagrams tells.round d)
        tells.now tells.sender tells.connected tells.numbered tells.room tells.lists tells.fit
        tells.heard_well_formed.tables tells.heard (side tells.round d)
