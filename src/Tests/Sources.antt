-- ===== src/Tests/Sources.antt =====
-- Delta, when cat has connected to it and ann's message for cat has arrived.
use cpsc.Common.{ℕ, [], ◌∷◌, ◌≡◌, refl, arith, returns}
use cpsc.Text.{codes, equals}
use cpsc.Connection.{datagram}
use cpsc.Server.State.{Server, add_client_connection, add_to_message_list, is_connected}
use cpsc.Server.State.Construct.{new_server, construct-new_server}
use cpsc.Server.Routing.{process_client_send_message}
use cpsc.Server.Listen.{listen_udp, dispatch}
use cpsc.Server.Listen.Hop.{listen_udp-as_char_vector}
use cpsc.Server.Listen.Reach.{Reach, listens, here, next}
use cpsc.Server.Listen.Carried.{AllMessages}
use cpsc.Server.Listen.Sources.{IsReadFrom, construct-IsReadFrom}
use cpsc.Network.Greeting.{connect_message}
use cpsc.Tests.Fixtures.{Address, endpoint, resolve, any_port, waiting_message}
use cpsc.Tests.Networks.{to_cat_bytes, waiting_message-IsCarried}
use cpsc.Tests.Starts.{cat, cat_bytes, cat_address, ann_address, cat_message-IsCarried}

abbrev delta : Server Address ℕ
delta = new_server resolve 7 endpoint 3

abbrev delta_with_cat : Server Address ℕ
delta_with_cat = add_client_connection cat cat_address 7 delta

abbrev delta_with_message : Server Address ℕ
delta_with_message = add_to_message_list waiting_message delta_with_cat

cat_connects : listen_udp 7 (datagram cat_address cat_bytes) delta ≡ returns (delta_with_cat, [])
unfolding dispatch
cat_connects =
    listen_udp-as_char_vector 7 cat_address (connect_message cat (codes "Delta")) cat_bytes delta
      cat_message-IsCarried

message_arrives :
    listen_udp 7 (datagram ann_address to_cat_bytes) delta_with_cat
    ≡ returns (delta_with_message, [])
unfolding dispatch process_client_send_message is_connected equals add_client_connection new_server
message_arrives =
    listen_udp-as_char_vector 7 ann_address waiting_message to_cat_bytes delta_with_cat
      waiting_message-IsCarried

abbrev delta_run : Reach delta delta_with_message
delta_run =
    next [] (next [] here (listens 7 (datagram cat_address cat_bytes) cat_connects))
      (listens 7 (datagram ann_address to_cat_bytes) message_arrives)

construct-IsReadFrom_example :
    AllMessages (IsReadFrom (to_cat_bytes ∷ cat_bytes ∷ [])) delta_with_message
construct-IsReadFrom_example =
    construct-IsReadFrom resolve 7 endpoint any_port 8083 3 (λ host port. refl) (omega arith)
      (construct-new_server resolve 7 endpoint (λ host port. refl) any_port 8083 3 (omega arith))
      delta_run
