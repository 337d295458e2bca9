-- ===== src/Tests/Spreads.antt =====
-- Bravo is told of the client on Alpha, and a message for the client goes from Bravo to Alpha.
use cpsc.Common.{
  ℕ, zero, suc, pos, [], ◌∷◌, List, ◌<◌, ◌≤◌, ◌==◌, if◌then◌else◌, false, ◌≡◌, refl, arith, inl,
  inr, returns, increment64, to_int8, ==_ne,
}
use cpsc.Text.{Bytes, codes, find, to_string, stoi, equals, before, after}
use cpsc.Constants.{number_of_servers, mt_client_send, server_index_to_server_name}
use cpsc.Message.{
  DataMessage, text_message, as_char_vector, of_char_vector, view_message_type_as_string,
  create_server_sync_payload, view_server_sync_payload, string_to_message_type, received_vector,
}
use cpsc.Connection.{remote_connection, Datagram}
use cpsc.Server.State.{
  Server, left_of, next_sequence_number, clients_served, receive_clients_from_adjacent_servers,
}
use cpsc.Server.State.WellFormed.{IsWellFormed}
use cpsc.Server.Sync.{
  send_sync_payloads, refresh_own_clients, send_sync_payloads_left, send_sync_payloads_right,
  send_sync,
}
use cpsc.Server.Sync.Payloads.{IsSync, send, done}
use cpsc.Server.Sync.Round.{SyncRound}
use cpsc.Server.Listen.{listen_udp, dispatch}
use cpsc.Server.Listen.Hop.{IsCarried}
use cpsc.Network.{Runs}
use cpsc.Network.Lists.{IsTellable, listen_to}
use cpsc.Network.Direction.{rightward}
use cpsc.Network.Spread.{Tells}
use cpsc.Network.Chain.{Chain, first, next}
use cpsc.Network.Row.{IsRow, on_way, delivered}
use cpsc.Tests.Networks.{place, row_left, row_right, row_left_end}
use cpsc.Network.EndToEnd.{IsTold, IsSpread, IsSpread-Runs}

abbrev no_lists : List (List Bytes)
no_lists = [] ∷ [] ∷ [] ∷ [] ∷ [] ∷ []

abbrev with_lists : ℕ → List (List Bytes) → Server ℕ ℕ
with_lists i lists = record {
  index = i;
  terminate = false;
  sequence_number = pos 0;
  message_list = [];
  message_list_of_unassociated_clients = [];
  connected_clients = if i == 0 then remote_connection (codes "ann") 100 7 ∷ [] else [];
  left_adjacent_server_index = left_of i;
  left_adjacent_server_connection = row_left i;
  right_adjacent_server_index = pos (suc i);
  right_adjacent_server_connection = row_right i;
  clients_served_by_server_index = lists;
}

abbrev ann_lists : List (List Bytes)
ann_lists = (codes "ann" ∷ []) ∷ [] ∷ [] ∷ [] ∷ [] ∷ []

-- Alpha and Bravo when Alpha has told Bravo of its client, and the others.
abbrev told_server : ℕ → Server ℕ ℕ
told_server i = with_lists i (if i == 1 then ann_lists else no_lists)

abbrev alpha : Server ℕ ℕ
alpha = with_lists 0 no_lists

told_server-IsWellFormed : (i : ℕ) → i < number_of_servers → IsWellFormed (told_server i)
told_server-IsWellFormed i inside = record {
  placed = record {
    in_range = inside;
    left_index = refl;
    right_index = refl;
    left_end = row_left_end i;
    right_end = ((λ e. ground arith), (λ e. ground arith));
  };
  tables = ground arith;
  kept = tt;
  waiting = tt;
}

told_server-IsRow : IsRow place told_server
told_server-IsRow = record {
  well_formed = told_server-IsWellFormed;
  index = λ i inside. refl;
  to_left = λ i c inside e. ground arith;
  to_right = λ i c inside e. ground arith;
}

abbrev told : Datagram ℕ
told = record { to = 1; bytes = codes "1/?server sync/?Alpha/?Bravo/?ann,/?0/?" }

told-IsSync : IsSync (refresh_own_clients alpha) (pos 1) (increment64 (pos 0)) 0 told.bytes
unfolding as_char_vector view_message_type_as_string to_string create_server_sync_payload
    server_index_to_server_name increment64 refresh_own_clients
told-IsSync = record {
  source = codes "Alpha";
  destination = codes "Bravo";
  from = refl;
  to = refl;
  printed = refl;
}

abbrev synced_alpha : Server ℕ ℕ
synced_alpha = record alpha { sequence_number = pos 1; clients_served_by_server_index = ann_lists }

alpha_syncs : send_sync_payloads alpha ≡ returns (synced_alpha, told ∷ [])
unfolding send_sync_payloads refresh_own_clients send_sync_payloads_left send_sync_payloads_right
    send_sync next_sequence_number as_char_vector view_message_type_as_string to_string
    create_server_sync_payload server_index_to_server_name increment64
alpha_syncs = refl

alpha-SyncRound : SyncRound alpha (synced_alpha, told ∷ [])
unfolding refresh_own_clients increment64
alpha-SyncRound = record {
  to_left = [];
  to_right = told ∷ [];
  between = pos 0;
  last = pos 1;
  left = inl (refl, refl, refl);
  right =
      inr (remote_connection (codes "right") 1 7, refl, send told (λ e. cc) refl told-IsSync done);
  state = refl;
  sent = refl;
}

bravo_hears : listen_to 9 0 (told ∷ []) (with_lists 1 no_lists) ≡ returns (told_server 1)
unfolding listen_to listen_udp dispatch of_char_vector before after find stoi string_to_message_type
    equals received_vector view_message_type_as_string receive_clients_from_adjacent_servers
    view_server_sync_payload server_index_to_server_name to_int8
bravo_hears = refl

ann-IsTellable : IsTellable (clients_served (refresh_own_clients alpha) 0)
unfolding find create_server_sync_payload refresh_own_clients
ann-IsTellable = record { listable = omega arith; plain = refl }

alpha-Tells : Tells rightward alpha (with_lists 1 no_lists) (told_server 1)
unfolding alpha-SyncRound
alpha-Tells = record {
  now = 9;
  sender = 0;
  result = (synced_alpha, told ∷ []);
  did = alpha_syncs;
  round = alpha-SyncRound;
  connected = λ e. cc;
  start = 0;
  numbered = refl;
  room = omega arith;
  lists = ((omega arith, ann-IsTellable), tt);
  fit = (omega arith, tt);
  heard = bravo_hears;
  well_formed = told_server-IsWellFormed 0 (omega arith);
  heard_well_formed = record {
    placed = (told_server-IsWellFormed 1 (omega arith)).placed;
    tables = refl;
    kept = tt;
    waiting = tt;
  };
}

alpha-Chain : Chain rightward alpha (told_server 1)
alpha-Chain = next first alpha-Tells refl

abbrev to_ann : DataMessage
to_ann = text_message (pos 1) mt_client_send (codes "eve") (codes "ann") (codes " hi")

abbrev to_ann_bytes : Bytes
to_ann_bytes = codes "1/?client send/?eve/?ann/? hi/?-1/?"

to_ann-IsCarried : IsCarried to_ann to_ann_bytes
unfolding find as_char_vector view_message_type_as_string to_string
to_ann-IsCarried = record {
  plain = record { source = refl; destination = refl; payload = refl; origin = refl };
  number = refl;
  printed = refl;
  fits = omega arith;
}

bravo-IsTold : (i : ℕ) → 0 < i → i ≤ 1 → IsTold rightward alpha (told_server i)
bravo-IsTold zero above at_most = absurd (omega arith)
bravo-IsTold (suc zero) above at_most = record {
  told = told_server 1;
  chain = alpha-Chain;
  since = inl refl;
}
bravo-IsTold (suc (suc i)) above at_most = absurd (omega arith)

ann-IsSpread : IsSpread to_ann told_server rightward alpha 1
ann-IsSpread = record {
  connected = inl refl;
  still = inl refl;
  told = bravo-IsTold;
  away = λ i above at_most. rw (==_ne i 0 (λ e. absurd (omega arith))) (λ h. h);
  preferred = λ i above at_most. tt;
}

IsSpread-Runs_example :
    Runs place 9
      (on_way told_server [] [] to_ann_bytes 200 (place 1))
      (delivered told_server [] [] to_ann 0)
IsSpread-Runs_example =
    IsSpread-Runs place 9 to_ann to_ann_bytes told_server alpha [] [] rightward 1 200
      to_ann-IsCarried refl told_server-IsRow (told_server-IsWellFormed 0 (omega arith))
      (omega arith) (omega arith) ann-IsSpread
