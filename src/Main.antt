-- ===== src/Main.antt =====
-- src/Server/serverMain.cpp and src/Client/clientMain.cpp: how a user chooses a server and starts a
-- program. Standard input is the list of its characters; `none` is a prompt that has not ended.
pub mod Prompt
pub mod Program
pub mod ClientProgram
use cpsc.Common.{
  Bool-cases, inl, inr, sym, ap, ◌∙◌, subst, Bool, length, zero, suc, throws, undefined, ℕ, ◌<◌, [],
  ◌∷◌, Option, none, some, ◌≡◌, refl, true, arith, if◌then◌else◌, ◌==◌, Outcome, returns, ◌>>=◌,
  All, ◌≢◌, ◌++◌, ==_ne, ◌+◌,
}
use cpsc.Text.{Bytes, is_space}
use cpsc.Constants.{
  number_of_servers, identifier_is_valid, char_to_server_index, server_index_to_listening_port,
}
use cpsc.Constants.Identifiers.{char_to_server_index-valid, index_lookup}
use cpsc.Server.State.{Server, construct}
use cpsc.Server.State.Construct.{new_server, construct-new_server}
use cpsc.Client.{Client}
use cpsc.Client

-- `std::cin >> identifier`: the variable, which has no value at first, and the input behind it. At
-- the end of the input the variable is left as it was.
extract_identifier : Option ℕ → Bytes → Option ℕ × Bytes
extract_identifier identifier [] = (identifier, [])
extract_identifier identifier (c ∷ input) =
    let rest = extract_identifier identifier input in if is_space c then rest else (some c, input)

-- The check at the end of a round, with what the further rounds do. A variable without a value must
-- not be read.
check_identifier : Option ℕ → Bytes → Option (Outcome (ℕ × Bytes)) → Option (Outcome (ℕ × Bytes))
check_identifier none rest again = some undefined
check_identifier (some c) rest again =
    if identifier_is_valid c then some (returns (c, rest)) else again

-- A number of rounds of the prompt loop.
pub prompt : ℕ → Option ℕ → Bytes → Option (Outcome (ℕ × Bytes))
unfolding extract_identifier check_identifier
prompt zero identifier input = none
prompt (suc rounds) identifier input =
    let (identifier', rest) = extract_identifier identifier input in
    check_identifier identifier' rest (prompt rounds identifier' rest)

-- The prompt loop, with one round more than the input has characters.
unfoldable pub read_identifier : Bytes → Option (Outcome (ℕ × Bytes))
unfolding prompt
read_identifier input = prompt (suc (length input)) none input

-- `std::getline(std::cin, …)`: the line, and the input behind it.
take_line : Bytes → Bytes × Bytes
take_line [] = ([], [])
take_line (c ∷ input) =
    let (line, rest) = take_line input in if c == 10 then ([], input) else (c ∷ line, rest)

module _ {E : Type 0} (resolve : Bytes → Bytes → Outcome E) where
  -- `main` of the server, up to `run()`.
  launch_server :
      {T : Type 0} → T → (ℕ → Bool) → Option (Outcome (ℕ × Bytes)) → Option (Outcome (Server E T))
  launch_server now port_is_free none = none
  launch_server now port_is_free (some read) = some (
      read >>= λ r. server_index_to_listening_port (char_to_server_index r.0) >>= λ port.
      construct resolve now port_is_free port (char_to_server_index r.0))

  unfoldable pub server_main : {T : Type 0} → T → (ℕ → Bool) → Bytes → Option (Outcome (Server E T))
  unfolding launch_server
  server_main now port_is_free input = launch_server now port_is_free (read_identifier input)

  -- `main` of the client, up to `run()`. The rest of the first line is ignored.
  launch_client : Option (Outcome (ℕ × Bytes)) → Option (Client.Result E)
  unfolding take_line
  launch_client none = none
  launch_client (some read) = some (
      read >>= λ r. server_index_to_listening_port (char_to_server_index r.0) >>= λ port.
      Client.construct resolve (take_line (take_line r.1).1).0 port (char_to_server_index r.0))

  unfoldable pub client_main : Bytes → Option (Client.Result E)
  unfolding launch_client
  client_main input = launch_client (read_identifier input)

check_identifier-valid :
    (i : Option ℕ) (left rest : Bytes) (again : Option (Outcome (ℕ × Bytes))) (c : ℕ)
    → check_identifier i left again ≡ some (returns (c, rest))
    → (again ≡ some (returns (c, rest)) → identifier_is_valid c ≡ true)
    → identifier_is_valid c ≡ true
unfolding check_identifier
check_identifier-valid none left rest again c e h = cc
check_identifier-valid (some x) left rest again c e h = elim (Bool-cases (identifier_is_valid x)) [
  | inl valid ↦
      let e' : some (returns (x, left)) ≡ some (returns (c, rest)) =
        sym (ap (λ b. if b then some (returns (x, left)) else again) valid) ∙ e in
      let same : x ≡ c = cc in subst (λ y. identifier_is_valid y ≡ true) same valid
  | inr other ↦ h (sym (ap (λ b. if b then some (returns (x, left)) else again) other) ∙ e)
]

prompt-valid :
    (rounds : ℕ) (identifier : Option ℕ) (input rest : Bytes) (c : ℕ)
    → prompt rounds identifier input ≡ some (returns (c, rest))
    → identifier_is_valid c ≡ true
unfolding prompt
prompt-valid zero identifier input rest c h = cc
prompt-valid (suc rounds) identifier input rest c h =
    let r = extract_identifier identifier input in
    check_identifier-valid r.0 r.1 rest (prompt rounds r.0 r.1) c h
      (prompt-valid rounds r.0 r.1 rest c)

pub read_identifier-valid :
    (input rest : Bytes) (c : ℕ)
    → read_identifier input ≡ some (returns (c, rest))
    → identifier_is_valid c ≡ true
unfolding read_identifier
read_identifier-valid input rest c h = prompt-valid (suc (length input)) none input rest c h

module _ {E T : Type 0} (resolve : Bytes → Bytes → Outcome E) (now : T)
    (endpoint : Bytes → Bytes → E)
    (resolves : (host port : Bytes) → resolve host port ≡ returns (endpoint host port)) where
  -- Whatever the user types, a server starts only as one of the five of the row: with the index of
  -- the first valid letter, and connected to its neighbours; and only if its port is free.
  pub server_main-new_server :
      (port_is_free : ℕ → Bool) (input rest : Bytes) (c : ℕ)
      → read_identifier input ≡ some (returns (c, rest))
      → (char_to_server_index c < number_of_servers)
        × (server_main resolve now port_is_free input
            ≡ some (
                if port_is_free (8080 + char_to_server_index c)
                then returns (new_server resolve now endpoint (char_to_server_index c))
                else throws))
  unfolding server_main
  server_main-new_server port_is_free input rest c h =
      let inside = (char_to_server_index-valid c (read_identifier-valid input rest c h)).0 in
      let (_, _, _, _, port) = index_lookup (char_to_server_index c) inside in
      (
        inside,
        rw
            (
              h,
              port,
              construct-new_server resolve now endpoint resolves port_is_free
                  (8080 + char_to_server_index c) (char_to_server_index c) inside,
            )
            refl,
      )

take_line-append :
    (line rest : Bytes) → All (λ c. c ≢ 10) line → take_line (line ++ 10 ∷ rest) ≡ (line, rest)
unfolding take_line
take_line-append [] rest h = refl
take_line-append (c ∷ line) rest h = rw (==_ne c 10 h.0, take_line-append line rest h.1) refl

-- A user who enters a valid letter, ends the line, and enters a name on the next one, starts a
-- client of that name for the server of that letter, at the port of that server.
pub client_main-construct :
    {E : Type 0} (resolve : Bytes → Bytes → Outcome E) (input ignored username more : Bytes) (c : ℕ)
    → read_identifier input ≡ some (returns (c, ignored ++ 10 ∷ (username ++ 10 ∷ more)))
    → All (λ x. x ≢ 10) ignored
    → All (λ x. x ≢ 10) username
    → (char_to_server_index c < number_of_servers)
      × (client_main resolve input
          ≡ some (
              Client.construct resolve username
                (8080 + char_to_server_index c)
                (char_to_server_index c)))
unfolding client_main launch_client
client_main-construct resolve input ignored username more c h one_line one_name =
    let inside =
      (char_to_server_index-valid c
        (read_identifier-valid input (ignored ++ 10 ∷ (username ++ 10 ∷ more)) c h)).0 in
    let (_, _, _, _, port) = index_lookup (char_to_server_index c) inside in
    (
      inside,
      rw
          (
            h,
            take_line-append ignored (username ++ 10 ∷ more) one_line,
            take_line-append username more one_name,
            port,
          )
          refl,
    )
