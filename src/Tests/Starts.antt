-- ===== src/Tests/Starts.antt =====
-- Five new servers, cat who connects to Delta, and ann's message for cat on its way to Alpha.
use cpsc.Common.{
  ◌+◌, ◌<◌, pos, returns, List, false, increment64, ℕ, [], ◌∷◌, ◌≤◌, ◌≡◌, ◌⊎◌, refl, arith, some,
  sym, subst,
}
use cpsc.Text.{Bytes, codes, find, to_string, is_space}
use cpsc.Constants.{
  number_of_servers, server_host_name, server_index_to_server_name, identifier_is_valid,
  mt_server_send,
}
use cpsc.Message.{as_char_vector, view_message_type_as_string, set_message_type}
use cpsc.Message.SyncPayload.{IsListable}
use cpsc.Server.State.{construct}
use cpsc.Server.State.Construct.{new_server, construct-new_server}
use cpsc.Server.Routing.Search.{IsConnected}
use cpsc.Server.Listen.Hop.{IsCarried}
use cpsc.Network.{Flight, Network, Receives, Runs}
use cpsc.Network.Row.{on_way, delivered}
use cpsc.Network.Delivery.{Runs-delivered}
use cpsc.Network.Greeting.{IsUsername, connect_message}
use cpsc.Network.Steps.{History, start, then_happens, receives, carries}
use cpsc.Network.Work.{Work}
use cpsc.Network.Everywhere.{
  row_address, IsRunningRow, History-IsRunningRow, construct-IsRunningRow,
}
use cpsc.Network.Alone.{IsDelivered}
use cpsc.Network.Termination.{receipts, Runs-IsDelivered}
use cpsc.Network.Start.{
  connected_network, connected-Receives, connected-IsQuiet, first-IsConnected,
  with_client-first_servers,
}
use cpsc.Network.Announced.{IsAnnounced, announce_both}
use cpsc.Network.FirstMessage.{construct-delivered}
use cpsc.Main.{read_identifier}
use cpsc.Main.Prompt.{PromptEnds, read_identifier-PromptEnds}
use cpsc.Network.FirstConversation.{construct-Converses}
use cpsc.Network.Conversation.{Converses}
use cpsc.Client.{Client, Effect, sends, p_udp, send_over_udp, next_sequence_number}
use cpsc.Client
use cpsc.Tests.Fixtures.{Address, any_port, endpoint, resolve, waiting_message}
use cpsc.Tests.Networks.{
  place, row_server, row_server-IsRow, cat-IsKnownAt, to_cat_bytes, waiting_message-IsCarried,
}

abbrev to_cat_run :
    Runs place 9
      (on_way row_server [] [] to_cat_bytes 200 (place 0))
      (delivered row_server [] [] waiting_message 3)
to_cat_run =
    Runs-delivered place 9 waiting_message to_cat_bytes row_server 3 [] [] waiting_message-IsCarried
      refl row_server-IsRow cat-IsKnownAt (omega arith) 0 200 (omega arith)

Runs-IsDelivered_example :
    (receipts to_cat_run ≤ 4)
    × (IsDelivered waiting_message row_server 3 (delivered row_server [] [] waiting_message 3)
        ⊎ ((n : Network ℕ ℕ) × Receives place 9 (delivered row_server [] [] waiting_message 3) n))
Runs-IsDelivered_example =
    Runs-IsDelivered place 9 waiting_message to_cat_bytes row_server 3 (λ i j a b e. e)
      waiting_message-IsCarried refl row_server-IsRow cat-IsKnownAt (omega arith) 0 200
      (omega arith) to_cat_run

abbrev pub cat : Bytes
cat = codes "cat"

abbrev pub cat_address : Address
cat_address = (codes "10.0.0.3", codes "5001")

abbrev pub ann_address : Address
ann_address = (codes "10.0.0.1", codes "5002")

abbrev pub cat_bytes : Bytes
cat_bytes = codes "1/?client connect/?cat/?Delta/?cat has connected./?-1/?"

abbrev server_address : ℕ → Address
server_address = row_address {T = ℕ} resolve 7 endpoint

abbrev cat_flight : Flight Address
cat_flight = record {
  sender = cat_address;
  content = record { to = server_address 3; bytes = cat_bytes };
}

abbrev ann_flight : Flight Address
ann_flight = record {
  sender = ann_address;
  content = record { to = server_address 0; bytes = to_cat_bytes };
}

five_servers :
    (i : ℕ)
    → i < number_of_servers
    → construct {T = ℕ} resolve 7 any_port (8080 + i) i ≡ returns (new_server resolve 7 endpoint i)
five_servers i inside =
    construct-new_server resolve 7 endpoint (λ host port. refl) any_port (8080 + i) i inside

abbrev first_network : Network Address ℕ
first_network = record {
  server = new_server resolve 7 endpoint;
  in_flight = cat_flight ∷ ann_flight ∷ [];
}

abbrev empty_network : Network Address ℕ
empty_network = record { server = new_server resolve 7 endpoint; in_flight = [] }

abbrev joining_network : Network Address ℕ
joining_network = record { server = new_server resolve 7 endpoint; in_flight = cat_flight ∷ [] }

pub cat_message-IsCarried : IsCarried (connect_message cat (codes "Delta")) cat_bytes
unfolding find as_char_vector view_message_type_as_string to_string
cat_message-IsCarried = record {
  plain = record { source = refl; destination = refl; payload = refl; origin = refl };
  number = refl;
  printed = refl;
  fits = omega arith;
}

cat-IsUsername : IsUsername cat
cat-IsUsername = record { no_slash = omega arith; short = omega arith }

cat-IsListable : IsListable cat
cat-IsListable = omega arith

abbrev after_connection : Network Address ℕ
after_connection =
    connected_network resolve 7 endpoint cat cat_address 3 (new_server resolve 7 endpoint)
      (ann_flight ∷ [])

first-History : History server_address empty_network after_connection
first-History =
    let sent : History server_address empty_network first_network =
      then_happens start (carries (λ i. refl)) in
    then_happens sent (
      receives 7 (
        connected-Receives resolve 7 endpoint cat cat_address 3 first_network (ann_flight ∷ [])
          (codes "Delta") cat_bytes (omega arith) cat_message-IsCarried refl))

construct-IsRunningRow_example : IsRunningRow server_address after_connection
construct-IsRunningRow_example =
    construct-IsRunningRow resolve 7 endpoint (λ host port. refl) any_port empty_network
      after_connection five_servers first-History

announce_both_example :
    (n : Network Address ℕ) × IsAnnounced server_address 7 cat 3 (omega arith) 0 after_connection n
unfolding connected_network
announce_both_example =
    announce_both server_address 7 cat 3 (omega arith) 0 after_connection
      (connected-IsQuiet resolve 7 endpoint cat cat_address 3 first_network (ann_flight ∷ [])
        cat-IsUsername cat-IsListable (omega arith) (λ i inside. refl)
        (History-IsRunningRow server_address
          (construct-IsRunningRow resolve 7 endpoint (λ host port. refl) any_port empty_network
            empty_network five_servers start)
          first-History))
      (subst (IsConnected cat)
        (sym (
          with_client-first_servers resolve 7 endpoint cat cat_address 3
            (new_server resolve 7 endpoint) 3 refl refl))
        (first-IsConnected resolve 7 endpoint cat cat_address 3))

construct-delivered_example :
    (n : Network Address ℕ) × Work server_address 7 first_network n
    × ((n.server 3).message_list ≡ set_message_type mt_server_send waiting_message ∷ [])
construct-delivered_example =
    construct-delivered resolve 7 endpoint (λ host port. refl) any_port first_network
      waiting_message cat_address ann_address 3 0 (codes "Delta") cat_bytes to_cat_bytes
      five_servers refl cat-IsUsername cat-IsListable (omega arith) (omega arith)
      cat_message-IsCarried waiting_message-IsCarried refl

abbrev cat_client : Client Address
cat_client = record {
  server_end_point = server_address 3;
  active_protocol = p_udp;
  terminate = false;
  sequence_number = pos 1;
  username = cat;
  server_port = 8083;
  server_index = 3;
}

abbrev cat_joined : Client Address × List (Effect Address)
cat_joined = (cat_client, sends (record { to = server_address 3; bytes = cat_bytes }) ∷ [])

cat_constructed : Client.construct resolve cat 8083 3 ≡ returns cat_joined
unfolding Client.construct send_over_udp next_sequence_number increment64 server_host_name
    server_index_to_server_name as_char_vector view_message_type_as_string to_string
cat_constructed = refl

abbrev ann_client : Client Address
ann_client = record {
  server_end_point = server_address 0;
  active_protocol = p_udp;
  terminate = false;
  sequence_number = pos 0;
  username = codes "ann";
  server_port = 8080;
  server_index = 0;
}

construct-Converses_example :
    (n : Network Address ℕ) × Work server_address 7 joining_network n
    × (name : Bytes) × (get_bytes : Bytes) × (ack_bytes : Bytes) × Converses server_address 7
        n.server n.in_flight [] ann_client cat_client ann_address cat_address 0 3 b'c'
        (codes "at")
        (codes "hi")
        name
        to_cat_bytes
        get_bytes
        ack_bytes
unfolding increment64 is_space
construct-Converses_example =
    construct-Converses resolve 7 endpoint (λ host port. refl) any_port joining_network cat_joined
      ann_client ann_address cat_address 0 3 b'c' (codes "at") (codes "hi") to_cat_bytes
      five_servers cat_constructed refl cat-IsUsername cat-IsListable (refl, (refl, (refl, tt)))
      (omega arith) (omega arith) (omega arith) refl refl waiting_message-IsCarried

read_identifier-PromptEnds_example :
    PromptEnds (codes "9 x\nDann") (some (returns (68, codes "ann")))
unfolding read_identifier is_space identifier_is_valid
read_identifier-PromptEnds_example = read_identifier-PromptEnds (codes "9 x\nDann")
