-- ===== src/Tests/SyncRounds.antt =====
-- Bravo tells Charlie of the client on Alpha.
use cpsc.Common.{ℕ, pos, [], ◌∷◌, refl, arith, Returns, increment64}
use cpsc.Text.{codes, find, to_string}
use cpsc.Message.{as_char_vector, view_message_type_as_string, create_server_sync_payload}
use cpsc.Constants.{server_index_to_server_name}
use cpsc.Connection.{Datagram, remote_connection}
use cpsc.Server.State.{Server, clients_served}
use cpsc.Server.Sync.Payloads.{Syncs, IsSync, skip, send, done}
use cpsc.Network.Lists.{IsTellable, Learns, listen_to, Syncs-Learns}
use cpsc.Tests.Fixtures.{Address, bravo, bravo_address, charlie_address}

abbrev told : Datagram Address
told = record { to = charlie_address; bytes = codes "1/?server sync/?Bravo/?Charlie/?ann,/?0/?" }

abbrev charlie : Server Address ℕ
charlie = record bravo {
  index = 2;
  clients_served_by_server_index = [] ∷ (codes "bob" ∷ []) ∷ (codes "cat" ∷ []) ∷ [] ∷ [] ∷ [];
}

told-IsSync : IsSync bravo (pos 2) (increment64 (pos 0)) 0 told.bytes
unfolding as_char_vector view_message_type_as_string to_string create_server_sync_payload
    server_index_to_server_name increment64
told-IsSync = record {
  source = codes "Bravo";
  destination = codes "Charlie";
  from = refl;
  to = refl;
  printed = refl;
}

told-Syncs :
    Syncs bravo
      (pos 2)
      (remote_connection (codes "Charlie") charlie_address 7)
      (pos 0)
      (1 ∷ 0 ∷ [])
      (told ∷ [])
      (increment64 (pos 0))
told-Syncs = skip refl (send told (λ e. cc) refl told-IsSync done)

empty-IsTellable : IsTellable []
unfolding find create_server_sync_payload
empty-IsTellable = record { listable = tt; plain = refl }

ann-IsTellable : IsTellable (clients_served bravo 0)
unfolding find create_server_sync_payload
ann-IsTellable = record { listable = omega arith; plain = refl }

Syncs-Learns_example :
    Returns (Learns bravo (1 ∷ 0 ∷ []) charlie) (listen_to 9 bravo_address (told ∷ []) charlie)
Syncs-Learns_example =
    Syncs-Learns 9 bravo_address bravo charlie (pos 2)
      (remote_connection (codes "Charlie") charlie_address 7) 0 (1 ∷ 0 ∷ []) (told ∷ []) refl
      (omega arith) ((omega arith, empty-IsTellable), ((omega arith, ann-IsTellable), tt))
      (omega arith, tt) refl told-Syncs
