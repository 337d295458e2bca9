-- ===== src/Network/EndToEnd.antt =====
-- A text message on its way over servers that have heard of its destination by sync messages only.
use cpsc.Common.{
  ℕ, ◌-◌, ◌<◌, List, ◌≡◌, ◌⊎◌, ◌∙◌, refl, sym, ap, subst, arith, inl, inr, Holds, returns,
}
use cpsc.Text.{Bytes}
use cpsc.Constants.{number_of_servers, mt_client_send}
use cpsc.Message.{DataMessage}
use cpsc.Connection.{Datagram}
use cpsc.Server.State.{Server, clients_served}
use cpsc.Server.State.WellFormed.{IsWellFormed}
use cpsc.Server.Routing.Search.{IsConnected}
use cpsc.Server.Sync.{send_sync_payloads, refresh_own_clients}
use cpsc.Server.Sync.Round.{SyncRound}
use cpsc.Server.Listen.Hop.{IsCarried}
use cpsc.Network.Direction.{
  Direction, rightward, leftward, IsFrom, IsPast, IsServedBack, IsPreferred, Holds-IsServedBack,
}
use cpsc.Network.Chain.{Chain, Chain-entry, Chain-IsServedBack, Holds-ne-nil}
use cpsc.Network.Spread.{own_names}
use cpsc.Network.Row.{IsRow, on_way, delivered, from_left, from_right}
use cpsc.Network.{Flight, Runs}

module _ {E T : Type 0} where
  -- `t` has done its own round of `sendSyncPayloads` since it was `told`.
  pub record HasSynced (told t : Server E T) : Type 0 where
    pub sent : List (Datagram E)
    pub did : send_sync_payloads told ≡ returns (t, sent)
    pub round : SyncRound told (t, sent)

  -- Server `t` was told by a chain of servers from `s` on, and may have told the next one.
  pub record IsTold (d : Direction) (s t : Server E T) : Type 0 where
    pub told : Server E T
    pub chain : Chain d s told
    pub since : (t ≡ told) ⊎ HasSynced told t

  refresh_index : (s : Server E T) → (refresh_own_clients s).index ≡ s.index
  unfolding refresh_own_clients
  refresh_index s = refl

  IsTold-IsServedBack :
      (d : Direction) (s t : Server E T) (name : Bytes)
      → IsWellFormed s
      → IsConnected name s
      → IsPast d s.index t.index
      → IsTold d s t
      → IsServedBack d name t
  IsTold-IsServedBack d s t name w here past h = elim h.since [
    | inl e ↦ subst (IsServedBack d name) (sym e) (
        Chain-IsServedBack d s h.told name w here
          (subst (IsPast d s.index) (ap (λ (x : Server E T). x.index) e) past) h.chain)
    | inr synced ↦
        let (entry, _) = Chain-entry d s w (Holds-ne-nil name (own_names s) here) h.chain in
        let state = ap (λ (x : Server E T). clients_served x s.index) synced.round.state in
        Holds-IsServedBack d name s.index t w.placed.in_range past
          (subst (Holds name) (sym (state ∙ entry)) here)
  ]

module _ {E T : Type 0} (m : DataMessage) (server : ℕ → Server E T) (d : Direction)
    (s : Server E T) where
  -- The client of the message is connected to server `s.index`, since the state `s` of it from
  -- which the servers on one side of it, up to server `j`, have been told of it, and is connected
  -- to none of these, nor named for a server further on.
  pub record IsSpread (j : ℕ) : Type 0 where
    pub connected : IsConnected m.destination_identifier s
    pub still : IsConnected m.destination_identifier (server s.index)
    pub told : (i : ℕ) → IsPast d s.index i → IsFrom d i j → IsTold d s (server i)
    pub away :
        (i : ℕ)
        → IsPast d s.index i
        → IsFrom d i j
        → ¬ IsConnected m.destination_identifier (server i)
    pub preferred :
        (i : ℕ)
        → IsPast d s.index i
        → IsFrom d i j
        → IsPreferred d m.destination_identifier (server i)

module _ {E T : Type 0} (address : ℕ → E) (now : T) (m : DataMessage) (bytes : Bytes)
    (server : ℕ → Server E T) (s : Server E T) (before behind : List (Flight E)) where
  spread_back :
      (d : Direction) (i j : ℕ)
      → IsRow address server
      → IsWellFormed s
      → i < number_of_servers
      → IsPast d s.index i
      → IsFrom d i j
      → IsSpread m server d s j
      → IsServedBack d m.destination_identifier (server i)
  spread_back d i j row w inside past from spread =
      IsTold-IsServedBack d s (server i) m.destination_identifier w spread.connected
        (subst (IsPast d s.index) (sym (row.index i inside)) past) (spread.told i past from)

  -- From a sync to a delivery: when rounds of `sendSyncPayloads` have told the servers on one side
  -- of a client's server of the client, one after the other, then a text message for the client
  -- that arrives at the last of them, or at one of them in between, can come back hop by hop to
  -- the client's server, which stores it; and nothing else changes. The row is well formed, the
  -- message can be carried, the client is connected to none of the servers in between, and if these
  -- are on the left, none of them has it in the list of a server to its own left.
  pub IsSpread-Runs :
      (d : Direction) (j : ℕ) (sender : E)
      → IsCarried m bytes
      → m.message_type ≡ mt_client_send
      → IsRow address server
      → IsWellFormed s
      → IsFrom d s.index j
      → j < number_of_servers
      → IsSpread m server d s j
      → Runs address now
          (on_way server before behind bytes sender (address j))
          (delivered server before behind m s.index)
  IsSpread-Runs rightward j sender carried sends row w right inside spread =
      from_right address now m bytes server s.index before behind carried sends row
        w.placed.in_range (j - s.index) j sender (omega (arith, right)) inside
        (record {
          connected = spread.still;
          away = spread.away;
          left = λ i past from.
              spread_back rightward i j row w (omega (arith, from, inside)) past from spread;
        })
  IsSpread-Runs leftward j sender carried sends row w left inside spread =
      from_left address now m bytes server s.index before behind carried sends row w.placed.in_range
        (s.index - j) j sender (omega (arith, left))
        (record {
          connected = spread.still;
          away = λ i from past. spread.away i past from;
          not_left = λ i from past. spread.preferred i past from;
          right = λ i from past.
              spread_back leftward i j row w (omega (arith, past, w.placed.in_range)) past from
                spread;
        })
