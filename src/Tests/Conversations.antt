-- ===== src/Tests/Conversations.antt =====
-- What ann on Alpha sends to cat on Delta.
use cpsc.Common.{ℕ, pos, [], false, refl, arith, increment64}
use cpsc.Text.{Bytes, codes, find, to_string, is_space}
use cpsc.Constants.{mt_client_send, mt_client_get, mt_client_ack, server_index_to_server_name}
use cpsc.Message.{text_message, as_char_vector, view_message_type_as_string}
use cpsc.Connection.{remote_connection}
use cpsc.Server.Listen.Hop.{IsCarried}
use cpsc.Client.{Client, p_udp}
use cpsc.Network.Conversation.{Converses, input_round-Converses}
use cpsc.Tests.Networks.{place, row_server, row_server-IsRow, cat-IsKnownAt}

abbrev ann : Client ℕ
ann = record {
  server_end_point = 0;
  active_protocol = p_udp;
  terminate = false;
  sequence_number = pos 1;
  username = codes "ann";
  server_port = 8080;
  server_index = 0;
}

abbrev cat : Client ℕ
cat = record {
  server_end_point = 3;
  active_protocol = p_udp;
  terminate = false;
  sequence_number = pos 6;
  username = codes "cat";
  server_port = 8083;
  server_index = 3;
}

abbrev sent_bytes : Bytes
sent_bytes = codes "2/?client send/?ann/?cat/? how are you/?-1/?"

abbrev get_bytes : Bytes
get_bytes = codes "7/?client get/?cat/?Delta/?blank/?-1/?"

abbrev ack_bytes : Bytes
ack_bytes = codes "2/?client ack/?cat/?Delta/?blank/?-1/?"

sent-IsCarried :
    IsCarried
      (text_message (pos 2) mt_client_send (codes "ann") (codes "cat") (codes " how are you"))
      sent_bytes
unfolding find as_char_vector view_message_type_as_string to_string
sent-IsCarried = record {
  plain = record { source = refl; destination = refl; payload = refl; origin = refl };
  number = refl;
  printed = refl;
  fits = omega arith;
}

get-IsCarried :
    IsCarried
      (text_message (pos 7) mt_client_get (codes "cat") (codes "Delta") (codes "blank"))
      get_bytes
unfolding find as_char_vector view_message_type_as_string to_string
get-IsCarried = record {
  plain = record { source = refl; destination = refl; payload = refl; origin = refl };
  number = refl;
  printed = refl;
  fits = omega arith;
}

ack-IsCarried :
    IsCarried
      (text_message (pos 2) mt_client_ack (codes "cat") (codes "Delta") (codes "blank"))
      ack_bytes
unfolding find as_char_vector view_message_type_as_string to_string
ack-IsCarried = record {
  plain = record { source = refl; destination = refl; payload = refl; origin = refl };
  number = refl;
  printed = refl;
  fits = omega arith;
}

input_round-Converses_example :
    Converses place 9 row_server [] [] ann cat 50 100 0 3 b'c'
      (codes "at")
      (codes "how are you")
      (codes "Delta")
      sent_bytes
      get_bytes
      ack_bytes
unfolding is_space server_index_to_server_name increment64
input_round-Converses_example =
    input_round-Converses place 9 row_server [] [] ann cat 50 100 0 3 b'c' (codes "at")
      (codes "how are you") (codes "Delta") sent_bytes get_bytes ack_bytes refl refl
      (refl, (refl, (refl, tt))) (omega arith) sent-IsCarried (omega arith) (omega arith)
      row_server-IsRow cat-IsKnownAt (remote_connection (codes "cat") 100 7)
      (record { before = []; behind = []; split = refl; others = tt; named = refl }) refl tt refl
      refl refl refl get-IsCarried ack-IsCarried
