-- ===== src/Server/Routing/Drain.antt =====
-- When a message stops waiting: rounds of `attemptForward` once the server knows its destination.
use cpsc.Common.{
  ℕ, ◌<◌, [], List, ◌≡◌, ◌≢◌, ◌⊎◌, inl, inr, refl, sym, ap, subst, ◌∙◌, arith, All, Holds, Returns,
  Returns-map, get_or-set_self, set,
}
use cpsc.Text.{Bytes}
use cpsc.Constants.{number_of_servers}
use cpsc.Message.{DataMessage}
use cpsc.Connection.{Datagram}
use cpsc.Server.State.{Server, clients_served}
use cpsc.Server.State.WellFormed.{IsWellFormed}
use cpsc.Server.Routing.{attempt_forward}
use cpsc.Server.Routing.Search.{IsConnected, IsServedLeft, IsServedRight}
use cpsc.Server.Routing.Waiting.{
  Sorts, Sorted, done, keep, pass_left, pass_right, hold, attempt_forward-Sorted,
}

module _ {E T : Type 0} where
  -- The server knows where the client is.
  abbrev pub IsKnown : Server E T → Bytes → Type 0
  IsKnown s name = IsConnected name s ⊎ (IsServedLeft name s ⊎ IsServedRight name s)

  abbrev pub AllKnown : Server E T → List DataMessage → Type 0
  AllKnown s ms = All (λ m. IsKnown s m.destination_identifier) ms

  Sorts-drained :
      (s : Server E T) {ms k h : List DataMessage} {o : List (Datagram E)}
      → AllKnown s ms
      → Sorts s ms k h o
      → h ≡ []
  Sorts-drained s known done = refl
  Sorts-drained s known (keep here rest) = Sorts-drained s known.1 rest
  Sorts-drained s known (pass_left d a b c rest) = Sorts-drained s known.1 rest
  Sorts-drained s known (pass_right d a b c e rest) = Sorts-drained s known.1 rest
  Sorts-drained s known (hold a b c rest) = elim known.0 [
    | inl here ↦ absurd (a here)
    | inr served ↦ elim served [ inl left ↦ absurd (b left) | inr right ↦ absurd (c right) ]
  ]

  -- Once a server knows where the client of each waiting message is, one round of `attemptForward`
  -- leaves no message waiting.
  pub attempt_forward-drained :
      (s : Server E T)
      → IsWellFormed s
      → AllKnown s s.message_list_of_unassociated_clients
      → Returns (λ r. r.0.message_list_of_unassociated_clients ≡ []) (attempt_forward s)
  attempt_forward-drained s w known =
      Returns-map (Sorted s s.message_list_of_unassociated_clients s.message_list [])
        (λ r. r.0.message_list_of_unassociated_clients ≡ []) (attempt_forward s)
        (attempt_forward-Sorted s w)
        (λ r sorted.
          ap (λ t. t.message_list_of_unassociated_clients) sorted.state
          ∙ Sorts-drained s known sorted.sorts)

  abbrev pub with_list : ℕ → List Bytes → Server E T → Server E T
  with_list i clients s = record s {
    clients_served_by_server_index = set s.clients_served_by_server_index i clients;
  }

  -- A list of another server makes its names known.
  pub listed-IsKnown :
      (s : Server E T) (i : ℕ) (clients : List Bytes) (name : Bytes)
      → IsWellFormed s
      → i < number_of_servers
      → i ≢ s.index
      → Holds name clients
      → IsKnown (with_list i clients s) name
  listed-IsKnown s i clients name w inside other found =
      let entry : Holds name (clients_served (with_list i clients s) i) =
        subst (Holds name)
          (sym (
            get_or-set_self s.clients_served_by_server_index i clients []
              (omega (arith, inside, w.tables))))
          found in
      elim (sides i s.index other) [
        | inl left ↦ inr (inl (i, left, entry))
        | inr right ↦ inr (inr (i, right, inside, entry))
      ]
    where
      sides : (i j : ℕ) → i ≢ j → (i < j) ⊎ (j < i)
      sides i j h = ground arith
