-- ===== src/Server/Sync/Round.antt =====
-- A whole round of `sendSyncPayloads`.
use cpsc.Common.{
  ℕ, ℤ, zero, suc, pos, ◌+◌, ◌-◌, ◌<◌, [], ◌++◌, List, ◌≡◌, ◌≢◌, refl, ap, ◌∙◌, arith, ◌⊎◌, inl,
  inr, Option, none, some, Returns, Returns-bind, Returns-map, map,
}
use cpsc.Constants.{number_of_servers, highest_server_index}
use cpsc.Connection.{RemoteConnection, Datagram}
use cpsc.Server.State.{Server, left_of}
use cpsc.Server.State.WellFormed.{IsWellFormed, Placed, set-IsWellFormed}
use cpsc.Server.Routing.{ascending, descending}
use cpsc.Server.Sync.{
  send_sync_if, send_sync_loop, send_sync_payloads_left, send_sync_payloads_right,
  send_sync_payloads, refresh_own_clients,
}
use cpsc.Server.Sync.Payloads.{Syncs, with_number, send_sync_loop-Sent}

module _ {E T : Type 0} where
  -- To one side: nothing where there is no neighbour, and else the lists of the servers `is`.
  abbrev pub Side :
      Server E T → ℤ → Option (RemoteConnection E T) → ℤ → List ℕ → List (Datagram E) → ℤ → Type 0
  Side s j to n is o n' =
      ((to ≡ none) × (o ≡ []) × (n' ≡ n))
      ⊎ ((c : RemoteConnection E T) × (to ≡ some c) × Syncs s j c n is o n')

  SentTo :
      Server E T
      → ℤ
      → Option (RemoteConnection E T)
      → ℤ
      → List ℕ
      → Server E T × List (Datagram E)
      → Type 0
  SentTo s j to n is r = (n' : ℤ) × (r.0 ≡ with_number n' s) × Side s j to n is r.1 n'

  send_sync_if-Side :
      (s : Server E T) (j : ℤ) (to : Option (RemoteConnection E T)) (n : ℤ) (is : List ℕ)
      → s.index < number_of_servers
      → (to ≢ none → (k : ℕ) × (j ≡ pos k) × (k < number_of_servers))
      → Returns (SentTo s j to n is) (send_sync_if j to is (with_number n s))
  unfolding send_sync_if SentTo
  send_sync_if-Side s j none n is inside near = (n, refl, inl (refl, refl, refl))
  send_sync_if-Side s j (some c) n is inside near =
      let (k, e, below) = near (λ h. cc) in
      Returns-map _ _ (send_sync_loop j c is (with_number n s))
        (send_sync_loop-Sent s j c inside k e below n is)
        (λ r (n', f, syncs). (n', f, inr (c, refl, syncs)))

  near_left :
      (s : Server E T)
      → Placed s
      → s.left_adjacent_server_connection ≢ none
      → (k : ℕ) × (s.left_adjacent_server_index ≡ pos k) × (k < number_of_servers)
  near_left s p exists = go s.index refl
    where
      go :
          (i : ℕ)
          → s.index ≡ i
          → (k : ℕ) × (s.left_adjacent_server_index ≡ pos k) × (k < number_of_servers)
      go zero e = absurd (exists (p.left_end.1 e))
      go (suc k) e = (k, p.left_index ∙ ap left_of e, omega (arith, p.in_range))

  near_right :
      (s : Server E T)
      → Placed s
      → s.right_adjacent_server_connection ≢ none
      → (k : ℕ) × (s.right_adjacent_server_index ≡ pos k) × (k < number_of_servers)
  near_right s p exists =
      let inner : s.index ≢ highest_server_index = λ e. exists (p.right_end.1 e) in
      (suc s.index, p.right_index, omega (arith, p.in_range))

  -- What a round of `sendSyncPayloads` does to `s`: the server's own entry becomes the names of its
  -- clients, and in that state `t` the lists go out, to the left those of `t` and the servers right
  -- of it, to the right those of `t` and the servers left of it.
  pub record SyncRound (s : Server E T) (r : Server E T × List (Datagram E)) : Type 0 where
    pub to_left : List (Datagram E)
    pub to_right : List (Datagram E)
    pub between : ℤ
    pub last : ℤ
    pub left :
        Side
          (refresh_own_clients s)
          s.left_adjacent_server_index
          s.left_adjacent_server_connection
          s.sequence_number
          (ascending (highest_server_index + 1 - s.index) s.index)
          to_left
          between
    pub right :
        Side
          (refresh_own_clients s)
          s.right_adjacent_server_index
          s.right_adjacent_server_connection
          between
          (descending (s.index + 1) s.index)
          to_right
          last
    pub state : r.0 ≡ with_number last (refresh_own_clients s)
    pub sent : r.1 ≡ to_left ++ to_right

  -- A round of `sendSyncPayloads` on a well-formed server always returns, and sends each side the
  -- lists that are not empty, in order and with consecutive sequence numbers.
  pub send_sync_payloads-SyncRound :
      (s : Server E T) → IsWellFormed s → Returns (SyncRound s) (send_sync_payloads s)
  unfolding send_sync_payloads send_sync_payloads_left send_sync_payloads_right refresh_own_clients
      SentTo
  send_sync_payloads-SyncRound s w =
      let t = refresh_own_clients s in
      Returns-bind
        (SentTo t s.left_adjacent_server_index s.left_adjacent_server_connection s.sequence_number
          (ascending (highest_server_index + 1 - s.index) s.index))
        _ (send_sync_payloads_left t) _
        (send_sync_if-Side t s.left_adjacent_server_index s.left_adjacent_server_connection
          s.sequence_number (ascending (highest_server_index + 1 - s.index) s.index)
          w.placed.in_range (near_left s w.placed))
        (λ r (n, e, left). rw e (
          Returns-bind
            (SentTo t s.right_adjacent_server_index s.right_adjacent_server_connection n
              (descending (s.index + 1) s.index))
            _ (send_sync_payloads_right (with_number n t)) _
            (send_sync_if-Side t s.right_adjacent_server_index s.right_adjacent_server_connection n
              (descending (s.index + 1) s.index) w.placed.in_range (near_right s w.placed))
            (λ q (n', f, right). record {
              to_left = r.1;
              to_right = q.1;
              between = n;
              last = n';
              left = left;
              right = right;
              state = f;
              sent = refl;
            })))

  pub refresh-IsWellFormed :
      (s : Server E T) (n : ℤ)
      → IsWellFormed s
      → IsWellFormed (with_number n (refresh_own_clients s))
  unfolding refresh_own_clients
  refresh-IsWellFormed s n w = record {
    placed = w.placed;
    kept = w.kept;
    waiting = w.waiting;
    tables = (set-IsWellFormed s.index (map (λ c. c.identifier) s.connected_clients) s w).tables;
  }
