-- ===== src/Tests/Fixtures.antt =====
-- A row with Bravo at the second place, the client bob on it, ann on Alpha and cat on Charlie.
use cpsc.Common.{Bool, true, ℕ, pos, [], ◌∷◌, some, false, refl, arith, Outcome, returns}
use cpsc.Text.{Bytes, codes}
use cpsc.Constants.{mt_client_send, mt_server_send}
use cpsc.Message.{DataMessage, text_message}
use cpsc.Connection.{remote_connection}
use cpsc.Server.State.{Server}
use cpsc.Server.State.WellFormed.{IsWellFormed}
use cpsc.Client.{Client, p_udp}

-- A host name and a port.
abbrev pub Address : Type 0
Address = Bytes × Bytes

abbrev pub endpoint : Bytes → Bytes → Address
endpoint host port = (host, port)

abbrev pub resolve : Bytes → Bytes → Outcome Address
resolve host port = returns (endpoint host port)

-- Every port is free.
abbrev pub any_port : ℕ → Bool
any_port port = true

abbrev pub bob_address : Address
bob_address = (codes "10.0.0.2", codes "5000")

abbrev pub alpha_address : Address
alpha_address = (codes "AlphaServerCPSC3780", codes "8080")

abbrev pub bravo_address : Address
bravo_address = (codes "BravoServerCPSC3780", codes "8081")

abbrev pub charlie_address : Address
charlie_address = (codes "CharlieServerCPSC3780", codes "8082")

abbrev pub message_to : Bytes → DataMessage
message_to destination = text_message (pos 1) mt_client_send (codes "ann") destination (codes " hi")

abbrev pub kept_message : DataMessage
kept_message = text_message (pos 1) mt_server_send (codes "ann") (codes "bob") (codes " hi")

abbrev pub waiting_message : DataMessage
waiting_message = message_to (codes "cat")

abbrev pub bravo : Server Address ℕ
bravo = record {
  index = 1;
  terminate = false;
  sequence_number = pos 0;
  message_list = kept_message ∷ [];
  message_list_of_unassociated_clients = waiting_message ∷ [];
  connected_clients = remote_connection (codes "bob") bob_address 7 ∷ [];
  left_adjacent_server_index = pos 0;
  left_adjacent_server_connection = some (remote_connection (codes "Alpha") alpha_address 7);
  right_adjacent_server_index = pos 2;
  right_adjacent_server_connection = some (remote_connection (codes "Charlie") charlie_address 7);
  clients_served_by_server_index = (codes "ann" ∷ []) ∷ [] ∷ (codes "cat" ∷ []) ∷ [] ∷ [] ∷ [];
}

pub bravo-IsWellFormed : IsWellFormed bravo
bravo-IsWellFormed = record {
  placed = record {
    in_range = omega arith;
    left_index = refl;
    right_index = refl;
    left_end = ((λ e. cc), (λ e. absurd (omega arith)));
    right_end = ((λ e. cc), (λ e. absurd (omega arith)));
  };
  tables = refl;
  kept = (refl, tt);
  waiting = (refl, tt);
}

abbrev pub bob : Client Address
bob = record {
  server_end_point = bravo_address;
  active_protocol = p_udp;
  terminate = false;
  sequence_number = pos 4;
  username = codes "bob";
  server_port = 8081;
  server_index = 1;
}
