-- ===== src/Network/Heard.antt =====
-- A round of `sendSyncPayloads` with short lists, as the neighbour on one side hears it.
use cpsc.Common.{
  ℕ, ℤ, ◌+◌, ◌<◌, ◌≤◌, ◌^◌, pos, List, [], ◌∷◌, ◌≡◌, ◌∙◌, subst, arith, All, Holds-All, length,
  some, Option, inl, inr, returns, Returns-eq,
}
use cpsc.Constants.{number_of_servers}
use cpsc.Connection.{Datagram, RemoteConnection}
use cpsc.Server.State.{Server, clients_served}
use cpsc.Server.State.WellFormed.{IsWellFormed}
use cpsc.Server.Sync.{send_sync_payloads, refresh_own_clients}
use cpsc.Server.Sync.Payloads.{Syncs}
use cpsc.Server.Sync.Round.{SyncRound, Side, send_sync_payloads-SyncRound}
use cpsc.Network.Direction.{
  Direction, rightward, leftward, neighbour, neighbour_index, datagrams, number_before, side,
  sources, sources-inside, length-sources,
}
use cpsc.Network.Lists.{Learns, listen_to, Syncs-Learns, IsTellable}
use cpsc.Network.Short.{IsShort, Syncs-Fits}

module _ {E T : Type 0} where
  -- The numbers that a round to one side uses up.
  Side-number :
      (s : Server E T) (j : ℤ) (to : Option (RemoteConnection E T)) (a : ℕ) {n n' : ℤ} (is : List ℕ)
      (o : List (Datagram E))
      → n ≡ pos a
      → a + length is < 2 ^ 31
      → All (λ i. (i < number_of_servers) × IsShort (clients_served s i)) is
      → Side s j to n is o n'
      → (b : ℕ) × (n' ≡ pos b) × (b ≤ a + length is)
  Side-number s j to a is o start number lists (inl (_, _, e)) = (a, e ∙ start, omega arith)
  Side-number s j to a is o start number lists (inr (c, _, syncs)) =
      let f = Syncs-Fits s j c a is o start number lists syncs in (f.last, f.numbered, f.below)

  Side-Syncs :
      (s : Server E T) (j : ℤ) (to : Option (RemoteConnection E T)) (c : RemoteConnection E T)
      {n n' : ℤ} (is : List ℕ) (o : List (Datagram E))
      → to ≡ some c
      → Side s j to n is o n'
      → Syncs s j c n is o n'
  Side-Syncs s j to c is o exists (inl (absent, _, _)) = cc
  Side-Syncs s j to c {n} {n'} is o exists (inr (c', e, syncs)) =
      let same : c' ≡ c = cc in subst (λ x. Syncs s j x n is o n') same syncs

  abbrev pub HasShortLists : Server E T → Type 0
  HasShortLists s = (i : ℕ) → i < number_of_servers → IsShort (clients_served s i)

  All-sources :
      (s : Server E T) (d : Direction)
      → s.index < number_of_servers
      → HasShortLists (refresh_own_clients s)
      → All
          (λ i. (i < number_of_servers) × IsShort (clients_served (refresh_own_clients s) i))
          (sources d s.index)
  All-sources s d inside lists =
      Holds-All _ (sources d s.index)
        (λ i place. let below = sources-inside d i s.index inside place in (below, lists i below))

  All-IsTellable :
      (s : Server E T) (is : List ℕ)
      → All (λ i. (i < number_of_servers) × IsShort (clients_served s i)) is
      → All (λ i. (i < number_of_servers) × IsTellable (clients_served s i)) is
  All-IsTellable s [] lists = tt
  All-IsTellable s (i ∷ is) lists = ((lists.0.0, lists.0.1.tellable), All-IsTellable s is lists.1)

  -- The numbers before the datagrams to either side, and the last one.
  record Numbers {s : Server E T} {r : Server E T × List (Datagram E)} (round : SyncRound s r)
      (a : ℕ) : Type 0 where
    start : (d : Direction) → (x : ℕ) × (number_before round d ≡ pos x) × (x ≤ a + 5)
    last : (x : ℕ) × (round.last ≡ pos x) × (x ≤ a + 10)

  number_at :
      {s : Server E T} {r : Server E T × List (Datagram E)} (round : SyncRound s r) (a b : ℕ)
      → s.sequence_number ≡ pos a
      → round.between ≡ pos b
      → b ≤ a + 5
      → (d : Direction) → (x : ℕ) × (number_before round d ≡ pos x) × (x ≤ a + 5)
  number_at round a b number between below rightward = (b, between, below)
  number_at round a b number between below leftward = (a, number, omega arith)

  SyncRound-Numbers :
      {s : Server E T} {r : Server E T × List (Datagram E)} (a : ℕ) (round : SyncRound s r)
      → s.index < number_of_servers
      → s.sequence_number ≡ pos a
      → a + 10 < 2 ^ 31
      → HasShortLists (refresh_own_clients s)
      → Numbers round a
  SyncRound-Numbers {s} a round inside number room lists =
      let few = length-sources leftward s.index inside in
      let few' = length-sources rightward s.index inside in
      let (b, between, b_below) =
        Side-number (refresh_own_clients s) s.left_adjacent_server_index
          s.left_adjacent_server_connection a (sources leftward s.index) round.to_left number
          (omega (arith, few)) (All-sources s leftward inside lists) round.left in
      let (l, last, l_below) =
        Side-number (refresh_own_clients s) s.right_adjacent_server_index
          s.right_adjacent_server_connection b (sources rightward s.index) round.to_right between
          (omega (arith, few, few')) (All-sources s rightward inside lists) round.right in
      record {
        start = number_at round a b number between (omega (arith, few));
        last = (l, last, omega (arith, few, few'));
      }

  -- Server `s` syncs, and its neighbour `t` on the side `d` receives what it was sent, in order.
  pub record Heard (now : T) (sender : E) (d : Direction) (s t : Server E T)
      (c : RemoteConnection E T) (a : ℕ) : Type 0 where
    pub result : Server E T × List (Datagram E)
    pub did : send_sync_payloads s ≡ returns result
    pub round : SyncRound s result
    pub last : ℕ
    pub numbered : round.last ≡ pos last
    pub below : last ≤ a + 10
    pub to : All (λ x. x.to ≡ c.endpoint) (datagrams round d)
    pub hearer : Server E T
    pub heard : listen_to now sender (datagrams round d) t ≡ returns hearer
    pub learned : Learns (refresh_own_clients s) (sources d s.index) t hearer

  round-Heard :
      (now : T) (sender : E) (d : Direction) (s t : Server E T) (c : RemoteConnection E T) (a : ℕ)
      (r : Server E T × List (Datagram E))
      → send_sync_payloads s ≡ returns r
      → (round : SyncRound s r) → Numbers round a
      → IsWellFormed s
      → IsWellFormed t
      → neighbour d s ≡ some c
      → a + 10 < 2 ^ 31
      → HasShortLists (refresh_own_clients s)
      → Heard now sender d s t c a
  round-Heard now sender d s t c a r did round numbers w w' exists room lists =
      let (x, start, below) = numbers.start d in
      let (l, last, l_below) = numbers.last in
      let is = sources d s.index in
      let u = refresh_own_clients s in
      let all = All-sources s d w.placed.in_range lists in
      let enough : x + length (sources d s.index) < 2 ^ 31 =
        omega (arith, below, length-sources d s.index w.placed.in_range) in
      let syncs =
        Side-Syncs u (neighbour_index d s) (neighbour d s) c is (datagrams round d) exists
          (side round d) in
      let fits =
        Syncs-Fits u (neighbour_index d s) c x is (datagrams round d) start enough all syncs in
      let (t', heard, learned) =
        Returns-eq (Learns u is t) (listen_to now sender (datagrams round d) t) (
          Syncs-Learns now sender u t (neighbour_index d s) c x is (datagrams round d) start enough
            (All-IsTellable u is all) fits.fit w'.tables syncs) in
      record {
        result = r;
        did = did;
        round = round;
        last = l;
        numbered = last;
        below = l_below;
        to = fits.to;
        hearer = t';
        heard = heard;
        learned = learned;
      }

  pub send_sync_payloads-Heard :
      (now : T) (sender : E) (d : Direction) (s t : Server E T) (c : RemoteConnection E T) (a : ℕ)
      → IsWellFormed s
      → IsWellFormed t
      → neighbour d s ≡ some c
      → s.sequence_number ≡ pos a
      → a + 10 < 2 ^ 31
      → HasShortLists (refresh_own_clients s)
      → Heard now sender d s t c a
  send_sync_payloads-Heard now sender d s t c a w w' exists number room lists =
      let (r, did, round) =
        Returns-eq (SyncRound s) (send_sync_payloads s) (send_sync_payloads-SyncRound s w) in
      round-Heard now sender d s t c a r did round
        (SyncRound-Numbers a round w.placed.in_range number room lists) w w' exists room lists
