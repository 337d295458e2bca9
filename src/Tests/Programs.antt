-- ===== src/Tests/Programs.antt =====
-- The two programs with their threads, and a program that finds no host.
use cpsc.Common.{
  inl, ℕ, [], ◌∷◌, ◌++◌, ◌≡◌, false, some, refl, arith, Outcome, returns, throws, List,
}
use cpsc.Text.{Bytes, codes, is_space, before, after, find, stoi, equals}
use cpsc.Constants.{char_to_server_index, identifier_is_valid}
use cpsc.Message.{of_char_vector, received_vector, string_to_message_type}
use cpsc.Connection.{datagram, failure, Datagram}
use cpsc.Server.State.{Server}
use cpsc.Server.State.WellFormed.{IsWellFormed}
use cpsc.Server.Threads.{Round, listen_loop_udp, listen_loop_bluetooth, sync_loop, forward_loop}
use cpsc.Client.{Client, Effect}
use cpsc.Client.Threads
use cpsc.Client.Threads.Runs.{IsHarmless}
use cpsc.Client.Threads.{get_loop, input_loop, receive_loop}
use cpsc.Main.{read_identifier}
use cpsc.Main.Program.{
  runs, reports_exception, server_program, server_program-runs, server_program-reports_exception,
}
use cpsc.Main.ClientProgram.{HasRun, client_program, client_program-runs}
use cpsc.Server.Threads.Endless.{carry_out}
use cpsc.Server.State.Construct.{new_server}
use cpsc.Tests.Fixtures.{Address, any_port, endpoint, resolve, bravo_address}

abbrev now : ℕ
now = 7

abbrev server_input : Bytes
server_input = codes "x\nc"

server_input_letter : read_identifier server_input ≡ some (returns (b'c', []))
unfolding read_identifier identifier_is_valid is_space
server_input_letter = refl

abbrev server_rounds : List (Round Address ℕ)
server_rounds = listen_loop_udp 8 failure ∷ sync_loop ∷ listen_loop_bluetooth ∷ forward_loop ∷ []

server_program-runs_example :
    (r : Server Address ℕ × List (Datagram Address)) × (server_program resolve now any_port
        server_input server_rounds
      ≡ some (returns (runs r)))
    × IsWellFormed r.0
    × (r.0.index ≡ char_to_server_index b'c')
    × (r.0.terminate ≡ false)
    × (carry_out server_rounds (new_server resolve now endpoint (char_to_server_index b'c'))
        ≡ returns r)
server_program-runs_example =
    server_program-runs resolve now any_port server_input [] b'c' server_input_letter server_rounds
      endpoint (λ host port. refl) refl (tt, (tt, (tt, (tt, tt))))

abbrev no_host : Bytes → Bytes → Outcome Address
no_host host port = throws

server_program-reports_exception_example :
    server_program no_host now any_port server_input server_rounds
    ≡ some (returns reports_exception)
server_program-reports_exception_example =
    server_program-reports_exception no_host now any_port server_input [] b'c' server_input_letter
      server_rounds (inl (λ host port. refl))

abbrev client_input : Bytes
client_input = codes "xB" ++ 10 ∷ (codes "eve" ++ 10 ∷ codes "/m bob hi")

client_input_letter :
    read_identifier client_input
    ≡ some (returns (b'B', [] ++ 10 ∷ (codes "eve" ++ 10 ∷ codes "/m bob hi")))
unfolding read_identifier is_space identifier_is_valid
client_input_letter = refl

abbrev ping_round : Threads.Round Address
ping_round = receive_loop (datagram bravo_address (codes "1/?ping/?Bravo/?eve/?x/?0/?"))

ping_round-IsHarmless : IsHarmless ping_round
unfolding of_char_vector received_vector before after find stoi string_to_message_type equals
ping_round-IsHarmless = tt

abbrev client_rounds : List (Threads.Round Address)
client_rounds = get_loop ∷ input_loop (codes "/m bob hi") ∷ ping_round ∷ []

client_program-runs_example :
    (r : Client Address × List (Effect Address)) × (client_program resolve client_input
        client_rounds
      ≡ some (returns (runs r)))
    × HasRun (codes "eve") (char_to_server_index b'B') client_rounds r
client_program-runs_example =
    client_program-runs resolve endpoint (λ host port. refl) client_input [] (codes "eve")
      (codes "/m bob hi") b'B' client_rounds client_input_letter tt (omega arith)
      (tt, (tt, (ping_round-IsHarmless, tt)))
