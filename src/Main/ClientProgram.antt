-- ===== src/Main/ClientProgram.antt =====
-- The whole client program: `main` with the threads that it starts, and its `catch`. The key that
-- it waits for at the end is left out.
use cpsc.Common.{
  ℕ, ◌<◌, ◌+◌, List, ◌∷◌, ◌++◌, Option, none, some, ◌≡◌, ◌≢◌, ◌∙◌, refl, ap, All, Outcome, returns,
  ◌>>=◌, Returns, Returns-eq, pos, Returns-bind, increment64,
}
use cpsc.Text.{Bytes, codes, to_string}
use cpsc.Constants.{number_of_servers, char_to_server_index, mt_client_connect}
use cpsc.Constants.Identifiers.{index_lookup}
use cpsc.Message.{text_message}
use cpsc.Server.Routing.Routes.{as_char_vector-total}
use cpsc.Client.{Client, Result, Effect, construct, send_over_udp, next_sequence_number}
use cpsc.Client.Threads.{Round, run}
use cpsc.Client.Threads.Runs.{IsHarmless, IsRunning, SameUser}
use cpsc.Client.Threads.Endless.{number_after_all, run-KeepsRunning}
use cpsc.Main.{read_identifier, client_main, client_main-construct}
use cpsc.Main.Program.{Status, runs, catching, in_threads, Returns-in_threads}

module _ {E : Type 0} (resolve : Bytes → Bytes → Outcome E) where
  -- What is left of `main` when the prompts have ended.
  run_launched :
      List (Round E) → Option (Result E) → Option (Outcome (Status (Client E × List (Effect E))))
  run_launched rounds none = none
  run_launched rounds (some launched) =
      some (
        catching (launched >>= λ r. in_threads (run rounds r.0 >>= λ q. returns (q.0, r.1 ++ q.1))))

  -- `main` of the client, with the rounds that its threads do.
  unfoldable pub client_program :
      Bytes → List (Round E) → Option (Outcome (Status (Client E × List (Effect E))))
  unfolding run_launched
  client_program input rounds = run_launched rounds (client_main resolve input)

module _ {E : Type 0} where
  -- The client as its constructor leaves it, which has sent one message.
  record IsStarted (username : Bytes) (i : ℕ) (r : Client E × List (Effect E)) : Type 0 where
    running : IsRunning r.0
    user : r.0.username ≡ username
    server : r.0.server_index ≡ i
    number : r.0.sequence_number ≡ pos 1

  -- The client of the program, when it has done its rounds.
  pub record HasRun (username : Bytes) (i : ℕ) (rounds : List (Round E))
      (r : Client E × List (Effect E)) : Type 0 where
    pub running : IsRunning r.0
    pub user : r.0.username ≡ username
    pub server : r.0.server_index ≡ i
    pub number : r.0.sequence_number ≡ number_after_all rounds (pos 1)

module _ {E : Type 0} (resolve : Bytes → Bytes → Outcome E) (endpoint : Bytes → Bytes → E)
    (resolves : (host port : Bytes) → resolve host port ≡ returns (endpoint host port)) where
  construct-IsStarted :
      (username : Bytes) (port i : ℕ)
      → i < number_of_servers
      → Returns (IsStarted username i) (construct resolve username port i)
  unfolding construct send_over_udp next_sequence_number increment64
  construct-IsStarted username port i inside =
      let (server, host, named, hosted, _) = index_lookup i inside in
      let (bytes, e) =
        as_char_vector-total
          (text_message (pos 1) mt_client_connect username server
            (username ++ codes " has connected."))
          (λ u. cc) in
      rw (hosted, resolves host (to_string (pos port)), named, e)
        (record {
          running = record { udp = refl; live = refl; inside = inside };
          user = refl;
          server = refl;
          number = refl;
        })

  started-HasRun :
      (username : Bytes) (port i : ℕ) (rounds : List (Round E))
      → i < number_of_servers
      → All IsHarmless rounds
      → Returns (HasRun username i rounds) (
          construct resolve username port i >>= λ r.
          in_threads (run rounds r.0 >>= λ q. returns (q.0, r.1 ++ q.1)))
  started-HasRun username port i rounds inside harmless =
      Returns-bind (IsStarted username i) (HasRun username i rounds)
        (construct resolve username port i) _ (construct-IsStarted username port i inside)
        (λ r started.
          Returns-in_threads (HasRun username i rounds)
            (run rounds r.0 >>= λ q. returns (q.0, r.1 ++ q.1))
            (Returns-bind (SameUser r.0 (number_after_all rounds r.0.sequence_number))
              (HasRun username i rounds) (run rounds r.0) (λ q. returns (q.0, r.1 ++ q.1))
              (run-KeepsRunning rounds r.0 started.running harmless).returned
              (λ q same. record {
                running = same.running;
                user = same.username ∙ started.user;
                server = same.server_index ∙ started.server;
                number = same.number ∙ ap (number_after_all rounds) started.number;
              })))

  -- If every host name resolves, then a user who enters a valid letter, ends the line, and enters
  -- a name on the next one, runs a client of that name for the server of that letter, and it does
  -- every round of its threads, in whatever order and whatever the user enters: it neither fails
  -- nor ends by itself, and each get and each command has taken one sequence number, after the
  -- first one, which the constructor took; if each datagram that arrives makes the parser throw or
  -- is a server's message or a ping.
  pub client_program-runs :
      (input ignored username more : Bytes) (c : ℕ) (rounds : List (Round E))
      → read_identifier input ≡ some (returns (c, ignored ++ 10 ∷ (username ++ 10 ∷ more)))
      → All (λ x. x ≢ 10) ignored
      → All (λ x. x ≢ 10) username
      → All IsHarmless rounds
      → (r : Client E × List (Effect E)) × (client_program resolve input rounds
          ≡ some (returns (runs r)))
        × HasRun username (char_to_server_index c) rounds r
  unfolding client_program run_launched catching
  client_program-runs input ignored username more c rounds read one_line one_name harmless =
      let (inside, started) =
        client_main-construct resolve input ignored username more c read one_line one_name in
      let (r, e, has_run) =
        Returns-eq (HasRun username (char_to_server_index c) rounds)
          (construct resolve username (8080 + char_to_server_index c) (char_to_server_index c)
            >>= λ r. in_threads (run rounds r.0 >>= λ q. returns (q.0, r.1 ++ q.1)))
          (started-HasRun username (8080 + char_to_server_index c) (char_to_server_index c) rounds
            inside harmless) in
      (r, ap (run_launched resolve rounds) started ∙ ap (λ o. some (catching o)) e, has_run)
