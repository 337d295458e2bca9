-- ===== src/Network/Quiet.antt =====
-- A network whose lists of clients are short and name a client for one server at most.
use cpsc.Common.{
  ℕ, ◌+◌, ◌<◌, ◌^◌, pos, List, ◌≡◌, sym, subst, Holds, inl, inr, Bool-cases, ◌==◌, ==_iff,
  not_of_false,
}
use cpsc.Text.{Bytes}
use cpsc.Constants.{number_of_servers}
use cpsc.Server.State.{Server, clients_served}
use cpsc.Server.State.WellFormed.{IsWellFormed}
use cpsc.Server.Sync.{refresh_own_clients}
use cpsc.Network.{Network}
use cpsc.Network.Everywhere.{IsRunningRow}
use cpsc.Network.Short.{IsShort}
use cpsc.Network.Spread.{own_names, own_entry, other_entry}

module _ (name : Bytes) (k : ℕ) where
  -- A list for server `i` that a sync message can carry, and that names the client only if `i` is
  -- the client's server.
  pub record IsFair (i : ℕ) (clients : List Bytes) : Type 0 where
    pub short : IsShort clients
    pub only : Holds name clients → i ≡ k

module _ {E T : Type 0} (name : Bytes) (k : ℕ) where
  abbrev pub HasFairLists : Server E T → Type 0
  HasFairLists s = (i : ℕ) → i < number_of_servers → IsFair name k i (clients_served s i)

  pub refresh-HasFairLists :
      (s : Server E T)
      → IsWellFormed s
      → HasFairLists s
      → IsFair name k s.index (own_names s)
      → HasFairLists (refresh_own_clients s)
  refresh-HasFairLists s w lists own i inside = elim (Bool-cases (i == s.index)) [
    | inl same ↦
        let e = (==_iff i s.index).0 same in
        subst (λ j. IsFair name k j (clients_served (refresh_own_clients s) j)) (sym e)
          (subst (IsFair name k s.index) (sym (own_entry s w)) own)
    | inr other ↦
        subst (IsFair name k i)
          (sym (other_entry s i (λ e. not_of_false _ (==_iff i s.index) other (sym e))))
          (lists i inside)
  ]

module _ {E T : Type 0} (address : ℕ → E) (name : Bytes) (k : ℕ) where
  -- `room` sequence numbers are left to each server before they are no `int`.
  pub record IsQuiet (room : ℕ) (n : Network E T) : Type 0 where
    pub running : IsRunningRow address n
    pub lists : (i : ℕ) → i < number_of_servers → HasFairLists name k (n.server i)
    pub own : (i : ℕ) → i < number_of_servers → IsFair name k i (own_names (n.server i))
    pub numbers :
        (i : ℕ)
        → i < number_of_servers
        → (a : ℕ) × ((n.server i).sequence_number ≡ pos a) × (a + room < 2 ^ 31)
