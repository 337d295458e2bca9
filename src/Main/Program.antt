-- ===== src/Main/Program.antt =====
-- The whole programs: `main` with the threads that it starts, and its `catch`.
use cpsc.Common.{
  Bool, true, sym, ap, ◌+◌, ◌⊎◌, inl, inr, if◌then◌else◌, ℕ, ◌<◌, List, Option, none, some, ◌≡◌,
  ◌∙◌, refl, All, false, Outcome, returns, throws, aborts, undefined, ◌>>=◌, Returns, Returns-eq,
  zero, suc, arith,
}
use cpsc.Text.{Bytes}
use cpsc.Constants.{
  number_of_servers, char_to_server_index, server_host_name, server_index_to_server_name,
  left_adjacent_server_index_is_valid, right_adjacent_server_index_is_valid,
}
use cpsc.Constants.Identifiers.{char_to_server_index-valid, index_lookup}
use cpsc.Connection.{Datagram}
use cpsc.Server.State.{Server, construct, initialise}
use cpsc.Server.State.WellFormed.{IsWellFormed}
use cpsc.Server.State.Construct.{new_server, new_server-IsWellFormed, new_server_start}
use cpsc.Server.Threads.{Round, run}
use cpsc.Server.Threads.Runs.{IsHarmless}
use cpsc.Server.Threads.Endless.{carry_out, run-GoesOn}
use cpsc.Main.{
  read_identifier, read_identifier-valid, launch_server, server_main, server_main-new_server,
}

-- What a program has come to: its threads run, or it has printed an exception and ended.
pub data Status (A : Type 0) : Type 0 where
  runs : A → Status A
  reports_exception : Status A

-- `try` and `catch(std::exception&)` in `main`.
unfoldable pub catching : {A : Type 0} → Outcome A → Outcome (Status A)
catching (returns a) = returns (runs a)
catching throws = returns reports_exception
catching aborts = aborts
catching undefined = undefined

-- An exception that leaves the function of a thread is not seen by `main`: it ends the program by
-- `std::terminate`.
unfoldable pub in_threads : {A : Type 0} → Outcome A → Outcome A
in_threads (returns a) = returns a
in_threads throws = aborts
in_threads aborts = aborts
in_threads undefined = undefined

pub Returns-in_threads :
    {A : Type 0} (P : A → Type 0) (m : Outcome A) → Returns P m → Returns P (in_threads m)
unfolding in_threads
Returns-in_threads P (returns a) h = h
Returns-in_threads P throws h = h
Returns-in_threads P aborts h = h
Returns-in_threads P undefined h = h

module _ {E T : Type 0} (resolve : Bytes → Bytes → Outcome E) (now : T)
    (port_is_free : ℕ → Bool) where
  -- What is left of `main` when the prompt has ended.
  run_launched :
      List (Round E T)
      → Option (Outcome (Server E T))
      → Option (Outcome (Status (Server E T × List (Datagram E))))
  unfolding catching in_threads
  run_launched rounds none = none
  run_launched rounds (some launched) =
      some (catching (launched >>= λ s. in_threads (run rounds s)))

  -- `main` of the server, with the rounds that its threads do.
  unfoldable pub server_program :
      Bytes → List (Round E T) → Option (Outcome (Status (Server E T × List (Datagram E))))
  unfolding run_launched
  server_program input rounds = run_launched rounds (server_main resolve now port_is_free input)

initialise_unresolved :
    {E T : Type 0} (resolve : Bytes → Bytes → Outcome E) (now : T)
    → ((host port : Bytes) → resolve host port ≡ throws)
    → (i : ℕ) → i < number_of_servers
    → initialise resolve now i ≡ throws
unfolding initialise server_host_name server_index_to_server_name
    left_adjacent_server_index_is_valid right_adjacent_server_index_is_valid
initialise_unresolved resolve now fails zero h = simp fails
initialise_unresolved resolve now fails (suc zero) h = simp fails
initialise_unresolved resolve now fails (suc (suc zero)) h = simp fails
initialise_unresolved resolve now fails (suc (suc (suc zero))) h = simp fails
initialise_unresolved resolve now fails (suc (suc (suc (suc zero)))) h = simp fails
initialise_unresolved resolve now fails (suc (suc (suc (suc (suc i))))) h = absurd (omega arith)

if_same {ℓ} : {A : Type ℓ} (b : Bool) (a : A) → (if b then a else a) ≡ a
if_same true a = refl
if_same false a = refl

construct_fails :
    {E T : Type 0} (resolve : Bytes → Bytes → Outcome E) (now : T) (port_is_free : ℕ → Bool)
    (port i : ℕ)
    → i < number_of_servers
    → ((host port : Bytes) → resolve host port ≡ throws) ⊎ (port_is_free port ≡ false)
    → construct resolve now port_is_free port i ≡ throws
unfolding construct
construct_fails resolve now port_is_free port i inside (inr taken) =
    ap (λ b. if b then initialise resolve now i else throws) taken
construct_fails resolve now port_is_free port i inside (inl fails) =
    ap (λ o. if port_is_free port then o else throws)
      (initialise_unresolved resolve now fails i inside)
    ∙ if_same (port_is_free port) throws

run_returns :
    {E T : Type 0} (rounds : List (Round E T)) (s : Server E T)
    → IsWellFormed s
    → s.terminate ≡ false
    → All (IsHarmless s) rounds
    → (r : Server E T × List (Datagram E)) × (run rounds s ≡ returns r)
      × IsWellFormed r.0
      × (r.0.index ≡ s.index)
      × (r.0.terminate ≡ false)
      × (carry_out rounds s ≡ returns r)
run_returns rounds s w live harmless =
    let goes_on = run-GoesOn rounds s w live harmless in
    let (r, e, (w', index, live')) =
      Returns-eq (λ r. IsWellFormed r.0 × (r.0.index ≡ s.index) × (r.0.terminate ≡ false))
        (run rounds s) goes_on.returned in
    (r, e, w', index, live', sym goes_on.carried_out ∙ e)

module _ {E T : Type 0} (resolve : Bytes → Bytes → Outcome E) (now : T) (port_is_free : ℕ → Bool)
    (input rest : Bytes) (c : ℕ) (read : read_identifier input ≡ some (returns (c, rest)))
    (rounds : List (Round E T)) where
  -- If every host name resolves, the input has a valid letter, and the port of that letter's server
  -- is free, the server program does every round of its threads, in whatever order: its result is
  -- that of the bodies of the loops, one after the other, from the new server of the letter; it
  -- neither fails nor ends by itself, if each datagram that arrives can be dropped or handled by
  -- that server.
  pub server_program-runs :
      (endpoint : Bytes → Bytes → E)
      → ((host port : Bytes) → resolve host port ≡ returns (endpoint host port))
      → port_is_free (8080 + char_to_server_index c) ≡ true
      → All (IsHarmless (new_server resolve now endpoint (char_to_server_index c))) rounds
      → (r : Server E T × List (Datagram E)) × (server_program resolve now port_is_free input rounds
          ≡ some (returns (runs r)))
        × IsWellFormed r.0
        × (r.0.index ≡ char_to_server_index c)
        × (r.0.terminate ≡ false)
        × (carry_out rounds (new_server resolve now endpoint (char_to_server_index c)) ≡ returns r)
  unfolding server_program
  server_program-runs endpoint resolves free harmless =
      let (inside, started) =
        server_main-new_server resolve now endpoint resolves port_is_free input rest c read in
      let (index, live) = new_server_start resolve now endpoint (char_to_server_index c) in
      let (r, e, w', index', live', carried) =
        run_returns rounds (new_server resolve now endpoint (char_to_server_index c))
          (new_server-IsWellFormed resolve now endpoint (char_to_server_index c) inside) live
          harmless in
      (r, rw (started, free, e) refl, w', index' ∙ index, live', carried)

  -- If no host name resolves, or the listening port is taken, and the input has a valid letter, the
  -- program prints the exception and ends.
  pub server_program-reports_exception :
      ((host port : Bytes) → resolve host port ≡ throws)
        ⊎ (port_is_free (8080 + char_to_server_index c) ≡ false)
      → server_program resolve now port_is_free input rounds ≡ some (returns reports_exception)
  unfolding server_program server_main launch_server
  server_program-reports_exception fails =
      let i = char_to_server_index c in
      let inside = (char_to_server_index-valid c (read_identifier-valid input rest c read)).0 in
      let (_, _, _, _, port) = index_lookup i inside in
      rw (read, port, construct_fails resolve now port_is_free (8080 + i) i inside fails) refl
