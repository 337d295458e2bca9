-- ===== src/Network/Telling.antt =====
-- One server tells its neighbour on one side what clients it knows of.
use cpsc.Common.{
  ℕ, ◌+◌, ◌<◌, ◌^◌, pos, List, [], ◌++◌, ◌≡◌, ◌≢◌, ◌∙◌, refl, sym, subst, ap, arith, All, some,
  Option-cases, inl, inr, returns, append_assoc, append-nil, map-append,
}
use cpsc.Constants.{number_of_servers}
use cpsc.Connection.{Datagram, RemoteConnection}
use cpsc.Server.State.{Server}
use cpsc.Server.Sync.{send_sync_payloads, refresh_own_clients}
use cpsc.Server.Sync.Payloads.{with_number}
use cpsc.Server.Sync.Round.{SyncRound}
use cpsc.Server.Listen.Reach.{syncs}
use cpsc.Network.{Flight, Network}
use cpsc.Network.Direction.{Direction, rightward, leftward, IsNext, neighbour, datagrams, sources}
use cpsc.Network.Row.{IsRow}
use cpsc.Network.Work.{
  Work, rest, then_acts, then_runs, flights_of, with_server, with_server_self, with_server_ne,
  listen_to-Runs,
}
use cpsc.Network.Lists.{Learns, listen_to}
use cpsc.Network.Heard.{HasShortLists, send_sync_payloads-Heard}

module _ {E T : Type 0} (address : ℕ → E) (server : ℕ → Server E T) where
  -- The connection to the next server.
  next_connection :
      (d : Direction) (i j : ℕ)
      → IsRow address server
      → i < number_of_servers
      → j < number_of_servers
      → IsNext d i j
      → (c : RemoteConnection E T) × (neighbour d (server i) ≡ some c) × (c.endpoint ≡ address j)
  next_connection rightward i j row i_inside j_inside next =
      elim (Option-cases (server i).right_adjacent_server_connection) [
        | inl e ↦ absurd (
            omega (
              arith,
              (row.well_formed i i_inside).placed.right_end.0 e,
              row.index i i_inside,
              next,
              j_inside,
            ))
        | inr (c, e) ↦
            (c, e, row.to_right i c (omega (arith, next, j_inside)) e ∙ ap address (sym next))
      ]
  next_connection leftward i j row i_inside j_inside next =
      elim (Option-cases (server i).left_adjacent_server_connection) [
        | inl e ↦ absurd (
            omega
              (arith, (row.well_formed i i_inside).placed.left_end.0 e, row.index i i_inside, next))
        | inr (c, e) ↦ (
          c,
          e,
          row.to_left j c (omega (arith, next, i_inside))
              (subst (λ x. (server x).left_adjacent_server_connection ≡ some c) next e),
        )
      ]

module _ {E T : Type 0} (address : ℕ → E) (now : T) where
  -- The datagrams to one side among those of the round.
  split_round :
      (d : Direction) (sender : E) {s : Server E T} {r : Server E T × List (Datagram E)}
      (round : SyncRound s r) (in_flight : List (Flight E))
      → (before : List (Flight E)) × (behind : List (Flight E)) × (in_flight
            ++ flights_of sender r.1
          ≡ (in_flight ++ before) ++ (flights_of sender (datagrams round d) ++ behind))
  split_round rightward sender round in_flight = (
    flights_of sender round.to_left,
    [],
    ap (λ o. in_flight ++ flights_of sender o) round.sent
        ∙ ap (λ o. in_flight ++ o) (map-append _ round.to_left round.to_right)
        ∙ simp (append_assoc, append-nil),
  )
  split_round leftward sender round in_flight = (
    [],
    flights_of sender round.to_right,
    ap (λ o. in_flight ++ flights_of sender o) round.sent
        ∙ ap (λ o. in_flight ++ o) (map-append _ round.to_left round.to_right)
        ∙ simp append-nil,
  )

  -- Server `i` has told server `j`, and no other server has changed.
  pub record Tells (d : Direction) (i j a : ℕ) (n n' : Network E T) : Type 0 where
    pub work : Work address now n n'
    pub last : ℕ
    pub below : last < a + 11
    pub teller : n'.server i ≡ with_number (pos last) (refresh_own_clients (n.server i))
    pub learned : Learns (refresh_own_clients (n.server i)) (sources d i) (n.server j) (n'.server j)
    pub others : (l : ℕ) → l ≢ i → l ≢ j → n'.server l ≡ n.server l
    pub extra : List (Flight E)
    pub in_flight : n'.in_flight ≡ n.in_flight ++ extra

  pub send_sync_payloads-Tells :
      (d : Direction) (i j a : ℕ) (n : Network E T)
      → IsRow address n.server
      → i < number_of_servers
      → j < number_of_servers
      → i ≢ j
      → IsNext d i j
      → (n.server i).sequence_number ≡ pos a
      → a + 10 < 2 ^ 31
      → HasShortLists (refresh_own_clients (n.server i))
      → (n' : Network E T) × Tells d i j a n n'
  send_sync_payloads-Tells d i j a n row i_inside j_inside apart next number room lists =
      let (c, exists, place) = next_connection address n.server d i j row i_inside j_inside next in
      let h =
        send_sync_payloads-Heard now (address i) d (n.server i) (n.server j) c a
          (row.well_formed i i_inside) (row.well_formed j j_inside) exists number room lists in
      let n1 : Network E T = record {
        server = with_server n.server i h.result.0;
        in_flight = n.in_flight ++ flights_of (address i) h.result.1;
      } in
      let (before, behind, split) = split_round d (address i) h.round n.in_flight in
      let did : send_sync_payloads (n.server i) ≡ returns (n1.server i, h.result.1) =
        h.did ∙ ap (λ t. returns (t, h.result.1)) (sym (with_server_self n.server i h.result.0)) in
      let (n', runs, becomes) =
        listen_to-Runs address now (address i) j (datagrams h.round d) n1 h.hearer
          (n.in_flight ++ before) behind j_inside
          (subst (λ e. All (λ x. x.to ≡ e) (datagrams h.round d)) place h.to) split
          (ap (listen_to now (address i) (datagrams h.round d))
              (with_server_ne n.server i h.result.0 j (λ e. apart (sym e)))
            ∙ h.heard) in
      (
        n',
        record {
          work =
              then_runs
                (then_acts rest
                  (record {
                    i = i;
                    inside = i_inside;
                    sent = h.result.1;
                    did = syncs did;
                    others = with_server_ne n.server i h.result.0;
                    added = refl;
                  })
                  (inr did))
                runs;
          last = h.last;
          below = omega (arith, h.below);
          teller =
              becomes.others i apart
              ∙ with_server_self n.server i h.result.0
              ∙ h.round.state
              ∙ ap (λ x. with_number x (refresh_own_clients (n.server i))) h.numbered;
          learned =
              subst
                (λ l.
                  Learns (refresh_own_clients (n.server i)) (sources d l) (n.server j)
                    (n'.server j))
                (row.index i i_inside)
                (subst
                  (Learns (refresh_own_clients (n.server i)) (sources d (n.server i).index)
                    (n.server j))
                  (sym becomes.here) h.learned);
          others = λ l other other'.
              becomes.others l other' ∙ with_server_ne n.server i h.result.0 l other;
          extra = before ++ becomes.extra;
          in_flight = becomes.in_flight ∙ append_assoc n.in_flight before becomes.extra;
        },
      )
