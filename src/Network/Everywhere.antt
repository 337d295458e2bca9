-- ===== src/Network/Everywhere.antt =====
-- What holds in every state of the network that five servers can come to.
use cpsc.Common.{
  Bool, ◌+◌, ℕ, suc, ◌<◌, ◌≡◌, ◌∙◌, refl, sym, ap, subst, arith, inl, inr, Bool-cases, ◌==◌, ==_iff,
  not_of_false, false, Outcome, returns,
}
use cpsc.Text.{Bytes}
use cpsc.Constants.{number_of_servers}
use cpsc.Server.State.{Server, construct}
use cpsc.Server.State.WellFormed.{IsWellFormed}
use cpsc.Server.Listen.Reach.{Step-IsWellFormed, Step-Keeps}
use cpsc.Server.State.Construct.{
  connection_to, new_server, new_server_start, new_server-IsWellFormed, constructed-new_server,
}
use cpsc.Network.Row.{IsRow}
use cpsc.Network.Steps.{
  Happens, receives, acts, carries, History, start, then_happens, Moves, Receives-Moves, Acts-Moves,
}
use cpsc.Network.{Network}

module _ {E T : Type 0} (address : ℕ → E) where
  -- A server of the row after an event, against the one before it.
  record Stays (s t : Server E T) : Type 0 where
    well_formed : IsWellFormed t
    index : t.index ≡ s.index
    terminate : t.terminate ≡ s.terminate
    left : t.left_adjacent_server_connection ≡ s.left_adjacent_server_connection
    right : t.right_adjacent_server_connection ≡ s.right_adjacent_server_connection

  same-Stays : (s t : Server E T) → IsWellFormed s → t ≡ s → Stays s t
  same-Stays s t w e = record {
    well_formed = subst IsWellFormed (sym e) w;
    index = ap (λ (x : Server E T). x.index) e;
    terminate = ap (λ (x : Server E T). x.terminate) e;
    left = ap (λ (x : Server E T). x.left_adjacent_server_connection) e;
    right = ap (λ (x : Server E T). x.right_adjacent_server_connection) e;
  }

  Moves-Stays :
      {n n' : Network E T}
      → IsRow address n.server
      → Moves address n n'
      → (j : ℕ) → j < number_of_servers
      → Stays (n.server j) (n'.server j)
  Moves-Stays {n} {n'} row m j inside = elim (Bool-cases (j == m.i)) [
    | inl same ↦
        let w = row.well_formed m.i m.inside in
        let kept = Step-Keeps w m.did in
        subst (λ k. Stays (n.server k) (n'.server k)) (sym ((==_iff j m.i).0 same))
          (record {
            well_formed = Step-IsWellFormed w m.did;
            index = kept.index;
            terminate = kept.terminate;
            left = kept.left;
            right = kept.right;
          })
    | inr other ↦
        same-Stays (n.server j) (n'.server j) (row.well_formed j inside)
          (m.others j (not_of_false _ (==_iff j m.i) other))
  ]

  Stays-IsRow :
      (server server' : ℕ → Server E T)
      → IsRow address server
      → ((j : ℕ) → j < number_of_servers → Stays (server j) (server' j))
      → IsRow address server'
  Stays-IsRow server server' row stays = record {
    well_formed = λ i inside. (stays i inside).well_formed;
    index = λ i inside. (stays i inside).index ∙ row.index i inside;
    to_left = λ i c inside at. row.to_left i c inside (sym (stays (suc i) inside).left ∙ at);
    to_right = λ i c inside at. row.to_right i c inside (sym (stays i (omega arith)).right ∙ at);
  }

  -- A row whose servers all run.
  pub record IsRunningRow (n : Network E T) : Type 0 where
    pub row : IsRow address n.server
    pub live : (i : ℕ) → i < number_of_servers → (n.server i).terminate ≡ false

  Stays-IsRunningRow :
      {n n' : Network E T}
      → IsRunningRow n
      → ((j : ℕ) → j < number_of_servers → Stays (n.server j) (n'.server j))
      → IsRunningRow n'
  Stays-IsRunningRow {n} {n'} r stays = record {
    row = Stays-IsRow n.server n'.server r.row stays;
    live = λ i inside. (stays i inside).terminate ∙ r.live i inside;
  }

  Happens-IsRunningRow :
      {n n' : Network E T} → IsRunningRow n → Happens address n n' → IsRunningRow n'
  Happens-IsRunningRow r (receives now e) =
      Stays-IsRunningRow r (Moves-Stays r.row (Receives-Moves address now e))
  Happens-IsRunningRow r (acts a) = Stays-IsRunningRow r (Moves-Stays r.row (Acts-Moves address a))
  Happens-IsRunningRow {n} {n'} r (carries same) =
      Stays-IsRunningRow r
        (λ j inside. same-Stays (n.server j) (n'.server j) (r.row.well_formed j inside) (same j))

  pub History-IsRunningRow :
      {n n' : Network E T} → IsRunningRow n → History address n n' → IsRunningRow n'
  History-IsRunningRow r start = r
  History-IsRunningRow r (then_happens history e) =
      Happens-IsRunningRow (History-IsRunningRow r history) e

module _ {E T : Type 0} (resolve : Bytes → Bytes → Outcome E) (now : T)
    (endpoint : Bytes → Bytes → E) where
  -- The endpoint of server `i`: its host name, resolved, and its port.
  abbrev pub row_address : ℕ → E
  row_address i = (connection_to resolve now endpoint i).endpoint

  pub new_server-IsRow : IsRow row_address (new_server resolve now endpoint)
  unfolding new_server
  new_server-IsRow = record {
    well_formed = new_server-IsWellFormed resolve now endpoint;
    index = λ i inside. refl;
    to_left = λ i c inside at. ground arith;
    to_right = λ i c inside at. ground arith;
  }

  -- In every state of the network that five newly constructed servers can come to, by rounds of
  -- their threads in any order, and whatever happens to the datagrams and whoever sends some, the
  -- servers are a row of well-formed servers, each connected to the endpoints of its neighbours,
  -- and all of them run; if every host name resolves.
  pub construct-IsRunningRow :
      ((host port : Bytes) → resolve host port ≡ returns (endpoint host port))
      → (port_is_free : ℕ → Bool) (n n' : Network E T)
      → ((i : ℕ)
          → i < number_of_servers
          → construct resolve now port_is_free (8080 + i) i ≡ returns (n.server i))
      → History row_address n n'
      → IsRunningRow row_address n'
  construct-IsRunningRow resolves port_is_free n n' constructed history =
      let made = λ (i : ℕ) (inside : i < number_of_servers). sym (
        constructed-new_server resolve now endpoint resolves port_is_free (8080 + i) i inside
          (constructed i inside)) in
      History-IsRunningRow row_address
        (record {
          row =
              Stays-IsRow row_address (new_server resolve now endpoint) n.server new_server-IsRow
                (λ i inside.
                  same-Stays row_address (new_server resolve now endpoint i) (n.server i)
                    (new_server-IsWellFormed resolve now endpoint i inside) (made i inside));
          live = λ i inside.
              ap (λ (x : Server E T). x.terminate) (made i inside)
              ∙ (new_server_start resolve now endpoint i).1;
        })
        history
