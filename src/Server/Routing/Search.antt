-- ===== src/Server/Routing/Search.antt =====
-- What the search loops of `processClientSendMessage` find.
use cpsc.Common.{
  ℕ, zero, suc, ◌+◌, ◌-◌, ◌<◌, ◌≤◌, [], ◌∷◌, List, true, ◌≡◌, ◌↔◌, inl, inr, refl, sym, subst,
  arith, Holds, map, Bool-cases,
}
use cpsc.Text.{Bytes, equals_iff}
use cpsc.Constants.{highest_server_index, number_of_servers}
use cpsc.Connection.{RemoteConnection}
use cpsc.Server.State.{Server, clients_served, is_connected}
use cpsc.Server.Routing.{ascending, descending, is_listed, is_served_at}

is_listed_iff : (name : Bytes) (l : List Bytes) → (is_listed name l ≡ true) ↔ Holds name l
unfolding is_listed
is_listed_iff name [] = (λ h. cc, λ h. absurd h)
is_listed_iff name (x ∷ l) = (
  λ h. ground (arith, equals_iff x name, is_listed_iff name l),
  λ h. ground (arith, equals_iff x name, is_listed_iff name l),
)

pub ascending_iff :
    (rounds start i : ℕ) → Holds i (ascending rounds start) ↔ ((start ≤ i) × (i < start + rounds))
ascending_iff zero start i = (λ h. absurd h, λ h. absurd (omega arith))
ascending_iff (suc rounds) start i = (
  λ h. ground (arith, ascending_iff rounds (start + 1) i),
  λ h. ground (arith, ascending_iff rounds (start + 1) i),
)

pub descending_iff :
    (rounds start i : ℕ)
    → rounds ≤ start + 1
    → Holds i (descending rounds start) ↔ ((i ≤ start) × (start < i + rounds))
descending_iff zero start i fits = (λ h. absurd h, λ h. absurd (omega arith))
descending_iff (suc rounds) start i fits =
    let rest = descending_iff rounds (start - 1) i (omega arith) in
    (λ h. ground (arith, rest), λ h. ground (arith, rest))

module _ {E T : Type 0} where
  abbrev pub IsConnected : Bytes → Server E T → Type 0
  IsConnected name s = Holds name (map (λ c. c.identifier) s.connected_clients)

  abbrev pub IsServedLeft : Bytes → Server E T → Type 0
  IsServedLeft name s = (i : ℕ) × (i < s.index) × Holds name (clients_served s i)

  abbrev pub IsServedRight : Bytes → Server E T → Type 0
  IsServedRight name s =
      (i : ℕ) × (s.index < i) × (i < number_of_servers) × Holds name (clients_served s i)

  connections_iff :
      (name : Bytes) (cs : List (RemoteConnection E T))
      → (is_connected name cs ≡ true) ↔ Holds name (map (λ c. c.identifier) cs)
  unfolding is_connected
  connections_iff name [] = (λ h. cc, λ h. absurd h)
  connections_iff name (c ∷ cs) = (
    λ h. ground (arith, equals_iff c.identifier name, connections_iff name cs),
    λ h. ground (arith, equals_iff c.identifier name, connections_iff name cs),
  )

  pub is_connected_iff :
      (name : Bytes) (s : Server E T)
      → (is_connected name s.connected_clients ≡ true) ↔ IsConnected name s
  is_connected_iff name s = connections_iff name s.connected_clients

  is_served_at_iff :
      (s : Server E T) (name : Bytes) (is : List ℕ)
      → (is_served_at s name is ≡ true) ↔ ((i : ℕ) × Holds i is × Holds name (clients_served s i))
  unfolding is_served_at
  is_served_at_iff s name [] = (λ h. cc, λ h. absurd h.1)
  is_served_at_iff s name (i ∷ is) =
      let here = is_listed_iff name (clients_served s i) in
      let rest = is_served_at_iff s name is in
      (
        λ h. elim (Bool-cases (is_listed name (clients_served s i))) [
          | inl e ↦ (i, inl refl, here.0 e)
          | inr e ↦ let (j, below, found) = rest.0 (rw e at h) in (j, inr below, found)
        ],
        λ (j, place, found). elim place [
          | inl e ↦ rw (here.1 (subst (λ k. Holds name (clients_served s k)) (sym e) found)) refl
          | inr below ↦ ground (arith, rest.1 (j, below, found))
        ],
      )

  pub IsServedLeft-iff :
      (name : Bytes) (s : Server E T)
      → (is_served_at s name (ascending s.index 0) ≡ true) ↔ IsServedLeft name s
  IsServedLeft-iff name s =
      let search = is_served_at_iff s name (ascending s.index 0) in
      (
        λ h.
            let (i, place, found) = search.0 h in
            (i, omega (arith, (ascending_iff s.index 0 i).0 place), found),
        λ (i, below, found). search.1 (i, (ascending_iff s.index 0 i).1 (omega arith), found),
      )

  pub IsServedRight-iff :
      (name : Bytes) (s : Server E T)
      → s.index < number_of_servers
      → (is_served_at s name (descending (highest_server_index - s.index) highest_server_index)
          ≡ true)
        ↔ IsServedRight name s
  IsServedRight-iff name s inside =
      let search =
        is_served_at_iff s name
          (descending (highest_server_index - s.index) highest_server_index) in
      let places = λ (i : ℕ).
        descending_iff (highest_server_index - s.index) highest_server_index i (omega arith) in
      (
        λ h.
            let (i, place, found) = search.0 h in
            let range = (places i).0 place in (i, omega arith, omega arith, found),
        λ (i, above, below, found). search.1 (i, (places i).1 (omega arith), found),
      )
