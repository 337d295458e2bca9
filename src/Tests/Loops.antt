-- ===== src/Tests/Loops.antt =====
-- Schedules of a server and of a client, and the first exchange between them.
use cpsc.Common.{ℕ, pos, [], ◌∷◌, ◌≡◌, refl, arith, Returns, ◌>>=◌, inl, to_int8}
use cpsc.Text.{Bytes, codes, find, before, after, stoi, equals, to_string}
use cpsc.Constants.{mt_server_sync}
use cpsc.Message.{
  DataMessage, sync_message, of_char_vector, received_vector, string_to_message_type,
  as_char_vector, view_message_type_as_string, create_server_sync_payload,
}
use cpsc.Connection.{datagram, failure}
use cpsc.Server.Listen.{listen_udp}
use cpsc.Server.Listen.Hop.{IsCarried}
use cpsc.Server.Listen.Release.{attempt_forward-listen_udp}
use cpsc.Server.Routing.{attempt_forward}
use cpsc.Server.Threads.{Round, listen_loop_udp, listen_loop_bluetooth, sync_loop, forward_loop}
use cpsc.Server.Threads.Runs.{IsHarmless}
use cpsc.Server.Threads.Endless.{GoesOn, run-GoesOn}
use cpsc.Client.Threads
use cpsc.Client.Threads.{get_loop, input_loop, receive_loop}
use cpsc.Client.Threads.Runs.{IsRunning}
use cpsc.Client.Threads.Runs
use cpsc.Client.Threads.Endless.{KeepsRunning, run-KeepsRunning}
use cpsc.Network.Session.{HasSession, construct-HasSession}
use cpsc.Tests.Fixtures.{
  Address, endpoint, resolve, bravo_address, charlie_address, bravo, bravo-IsWellFormed, bob,
}

abbrev cat_sync_bytes : Bytes
cat_sync_bytes = codes "5/?server sync/?Charlie/?Bravo/?cat,/?2/?"

abbrev cat_sync : DataMessage
cat_sync =
    sync_message (pos 5) mt_server_sync (codes "Charlie") (codes "Bravo") (codes "cat" ∷ []) (pos 2)

cat_sync-IsCarried : IsCarried cat_sync cat_sync_bytes
unfolding find as_char_vector view_message_type_as_string to_string create_server_sync_payload
cat_sync-IsCarried = record {
  plain = record { source = refl; destination = refl; payload = refl; origin = refl };
  number = refl;
  printed = refl;
  fits = omega arith;
}

attempt_forward-listen_udp_example :
    Returns
      (λ r. r.0.message_list_of_unassociated_clients ≡ [])
      (listen_udp 9 (datagram charlie_address cat_sync_bytes) bravo >>= λ r. attempt_forward r.0)
attempt_forward-listen_udp_example =
    attempt_forward-listen_udp 9 charlie_address (pos 5) (codes "Charlie") (codes "Bravo")
      cat_sync_bytes (codes "cat" ∷ []) 2 bravo bravo-IsWellFormed (omega arith) (omega arith)
      (omega arith) cat_sync-IsCarried (inl refl, tt)

abbrev sync_round : Round Address ℕ
sync_round = listen_loop_udp 9 (datagram charlie_address cat_sync_bytes)

sync_round-IsHarmless : IsHarmless bravo sync_round
unfolding of_char_vector received_vector before after find stoi string_to_message_type equals
    to_int8
sync_round-IsHarmless = (2, refl, omega arith)

run-GoesOn_example :
    GoesOn
      (listen_loop_bluetooth
        ∷ forward_loop
        ∷ sync_round
        ∷ sync_loop
        ∷ listen_loop_udp 10 failure
        ∷ [])
      bravo
run-GoesOn_example =
    run-GoesOn
      (listen_loop_bluetooth
        ∷ forward_loop
        ∷ sync_round
        ∷ sync_loop
        ∷ listen_loop_udp 10 failure
        ∷ [])
      bravo bravo-IsWellFormed refl (tt, (tt, (sync_round-IsHarmless, (tt, (tt, tt)))))

abbrev ping_round : Threads.Round Address
ping_round = receive_loop (datagram bravo_address (codes "1/?ping/?Bravo/?bob/?x/?0/?"))

ping_round-IsHarmless : Runs.IsHarmless ping_round
unfolding of_char_vector received_vector before after find stoi string_to_message_type equals
ping_round-IsHarmless = tt

bob-IsRunning : IsRunning bob
bob-IsRunning = record { udp = refl; live = refl; inside = omega arith }

run-KeepsRunning_example :
    KeepsRunning (get_loop ∷ input_loop (codes "/exit") ∷ ping_round ∷ get_loop ∷ []) bob
run-KeepsRunning_example =
    run-KeepsRunning (get_loop ∷ input_loop (codes "/exit") ∷ ping_round ∷ get_loop ∷ []) bob
      bob-IsRunning (tt, (tt, (ping_round-IsHarmless, (tt, tt))))

construct-HasSession_example :
    HasSession resolve charlie_address 9 (codes "eve") 8081 1 bravo endpoint
construct-HasSession_example =
    construct-HasSession resolve charlie_address 9 (codes "eve") 8081 1 bravo endpoint
      (λ host port. refl) (record { no_slash = omega arith; short = omega arith }) (omega arith)
      bravo-IsWellFormed (λ h. absurd (ground arith))
