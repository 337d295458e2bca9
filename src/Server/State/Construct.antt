-- ===== src/Server/State/Construct.antt =====
-- The constructor of the server.
use cpsc.Common.{
  ap, sym, ◌∙◌, true, Bool, throws, returns_inj, ℕ, zero, suc, ◌+◌, ◌<◌, ◌≤◌, pos, [], ◌∷◌, ◌++◌,
  some, none, ◌≡◌, refl, arith, Outcome, returns, undefined, get_or, Option, ltb, if◌then◌else◌,
  false, ◌↔◌,
}
use cpsc.Text.{Bytes, codes, to_string}
use cpsc.Constants.{
  number_of_servers, server_names, server_host_name, server_index_to_server_name,
  left_adjacent_server_index_is_valid, right_adjacent_server_index_is_valid,
}
use cpsc.Connection.{RemoteConnection, remote_connection}
use cpsc.Server.State.{Server, construct, initialise, left_of}
use cpsc.Server.State.WellFormed.{IsWellFormed}

if_returns :
    {A : Type 0} (b : Bool) (a s : A) → (if b then returns a else throws) ≡ returns s → a ≡ s
if_returns true a s e = returns_inj e
if_returns false a s e = cc

module _ {E T : Type 0} (resolve : Bytes → Bytes → Outcome E) (now : T)
    (endpoint : Bytes → Bytes → E) where
  -- The connection to server `i`, by its name, host name and port.
  abbrev pub connection_to : ℕ → RemoteConnection E T
  connection_to i =
      let name = get_or server_names i [] in
      remote_connection name
        (endpoint (name ++ codes "ServerCPSC3780") (to_string (pos (8080 + i)))) now

  left_connection : ℕ → Option (RemoteConnection E T)
  left_connection zero = none
  left_connection (suc i) = some (connection_to i)

  right_connection : ℕ → Option (RemoteConnection E T)
  right_connection i = if ltb (suc i) number_of_servers then some (connection_to (suc i)) else none

  -- Server `i` of the row before it has heard anything: connected to the servers beside it, by
  -- their own names, hosts and ports, and to none past an end of the row.
  unfoldable pub new_server : ℕ → Server E T
  unfolding left_connection right_connection
  new_server i = record {
    index = i;
    terminate = false;
    sequence_number = pos 0;
    message_list = [];
    message_list_of_unassociated_clients = [];
    connected_clients = [];
    left_adjacent_server_index = left_of i;
    left_adjacent_server_connection = left_connection i;
    right_adjacent_server_index = pos (suc i);
    right_adjacent_server_connection = right_connection i;
    clients_served_by_server_index = [] ∷ [] ∷ [] ∷ [] ∷ [] ∷ [];
  }

  pub new_server_start : (i : ℕ) → ((new_server i).index ≡ i) × ((new_server i).terminate ≡ false)
  unfolding new_server
  new_server_start i = (refl, refl)

  pub new_server-IsWellFormed : (i : ℕ) → i < number_of_servers → IsWellFormed (new_server i)
  unfolding new_server
  new_server-IsWellFormed i h = record {
    placed = record {
      in_range = h;
      left_index = refl;
      right_index = refl;
      left_end = left_end i;
      right_end = ((λ e. ground arith), (λ e. ground arith));
    };
    tables = refl;
    kept = tt;
    waiting = tt;
  }
    where
      left_end : (i : ℕ) → (left_connection i ≡ none) ↔ (i ≡ 0)
      left_end zero = ((λ e. refl), (λ e. refl))
      left_end (suc i) = ((λ e. cc), (λ e. absurd (omega arith)))

  module _ (resolves : (host port : Bytes) → resolve host port ≡ returns (endpoint host port)) where
    initialise-new_server :
        (i : ℕ) → i < number_of_servers → initialise resolve now i ≡ returns (new_server i)
    unfolding new_server initialise server_host_name server_index_to_server_name
        left_adjacent_server_index_is_valid right_adjacent_server_index_is_valid
    initialise-new_server zero h = simp resolves
    initialise-new_server (suc zero) h = simp resolves
    initialise-new_server (suc (suc zero)) h = simp resolves
    initialise-new_server (suc (suc (suc zero))) h = simp resolves
    initialise-new_server (suc (suc (suc (suc zero)))) h = simp resolves
    initialise-new_server (suc (suc (suc (suc (suc i))))) h = absurd (omega arith)

    -- If every host name of the row resolves, the constructor of each of the five indices returns
    -- the empty server of that place, connected to the servers beside it by their names, hosts and
    -- ports, and to none past an end of the row, if the listening port is free; if the port is
    -- taken, it throws.
    pub construct-new_server :
        (port_is_free : ℕ → Bool) (port i : ℕ)
        → i < number_of_servers
        → construct resolve now port_is_free port i
          ≡ (if port_is_free port then returns (new_server i) else throws)
    unfolding construct
    construct-new_server port_is_free port i inside =
        ap (λ o. if port_is_free port then o else throws) (initialise-new_server i inside)

    -- A server that was constructed is that one.
    pub constructed-new_server :
        (port_is_free : ℕ → Bool) (port i : ℕ) {s : Server E T}
        → i < number_of_servers
        → construct resolve now port_is_free port i ≡ returns s
        → new_server i ≡ s
    constructed-new_server port_is_free port i inside e =
        if_returns (port_is_free port) (new_server i) _
          (sym (construct-new_server port_is_free port i inside) ∙ e)

    pub free-new_server :
        (port_is_free : ℕ → Bool) (port i : ℕ)
        → i < number_of_servers
        → port_is_free port ≡ true
        → construct resolve now port_is_free port i ≡ returns (new_server i)
    free-new_server port_is_free port i inside free =
        construct-new_server port_is_free port i inside
        ∙ ap (λ b. if b then returns (new_server i) else throws) free

  -- An index past the table of names is undefined.
  pub initialise_out_of_range :
      (i : ℕ) → number_of_servers ≤ i → initialise resolve now i ≡ undefined
  unfolding initialise server_index_to_server_name
  initialise_out_of_range zero h = absurd (omega arith)
  initialise_out_of_range (suc zero) h = absurd (omega arith)
  initialise_out_of_range (suc (suc zero)) h = absurd (omega arith)
  initialise_out_of_range (suc (suc (suc zero))) h = absurd (omega arith)
  initialise_out_of_range (suc (suc (suc (suc zero)))) h = absurd (omega arith)
  initialise_out_of_range (suc (suc (suc (suc (suc i))))) h = refl
