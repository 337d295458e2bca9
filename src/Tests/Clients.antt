-- ===== src/Tests/Clients.antt =====
-- Tests of the client and of the two `main` functions.
use cpsc.Common.{pos, [], ◌∷◌, ◌≡◌, refl, arith, returns, increment64}
use cpsc.Text.{Bytes, codes, find, to_string, is_space, extract, getline, equals}
use cpsc.Message.{as_char_vector, view_message_type_as_string}
use cpsc.Connection.{datagram}
use cpsc.Server.Mailbox.{remove_received_message_from_list}
use cpsc.Server.Listen.{listen_udp}
use cpsc.Server.Listen.Hop.{IsCarried}
use cpsc.Client.{sends, input_round, receive_over_udp, is_command, command_arguments}
use cpsc.Client.Command.{command_line}
use cpsc.Client.Input.{Enters, Submits, input_round-Enters, input_round-command_line}
use cpsc.Client.Receive.{
  Receives, acknowledgement, receive_over_udp-Receives, listen_udp-acknowledgement,
}
use cpsc.Tests.Fixtures.{bob_address, bravo_address, kept_message, bravo, bob}

-- What a user might enter to leave is refused or sent as a message.
input_round-Enters_example :
    Enters (codes "/m ann /exit") bob (input_round (codes "/m ann /exit") bob)
input_round-Enters_example = input_round-Enters (codes "/m ann /exit") bob refl

abbrev exit_bytes : Bytes
exit_bytes = codes "5/?client send/?bob/?ann/? /exit/?-1/?"

exit_is_sent :
    input_round (codes "/m ann /exit") bob
    ≡ returns (
      record bob { sequence_number = pos 5 },
      sends (record { to = bravo_address; bytes = exit_bytes }) ∷ [],
    )
unfolding input_round extract getline equals as_char_vector view_message_type_as_string to_string
    increment64 is_command command_arguments
exit_is_sent = refl

input_round-command_line_example :
    Submits
      (codes "ann")
      (32 ∷ codes "how are you")
      bob
      (input_round (command_line (codes "ann") (codes "how are you")) bob)
unfolding is_space
input_round-command_line_example =
    input_round-command_line b'a' (codes "nn") (codes "how are you") bob refl
      (refl, (refl, (refl, tt))) (omega arith)

abbrev kept_bytes : Bytes
kept_bytes = codes "/?server send/?ann/?bob/? hi/?-1/?"

kept-IsCarried : IsCarried kept_message (b'1' ∷ kept_bytes)
unfolding find as_char_vector view_message_type_as_string to_string
kept-IsCarried = record {
  plain = record { source = refl; destination = refl; payload = refl; origin = refl };
  number = refl;
  printed = refl;
  fits = omega arith;
}

receive_over_udp-Receives_example :
    Receives kept_message bravo_address bob
      (receive_over_udp (datagram bravo_address (b'1' ∷ kept_bytes)) bob)
receive_over_udp-Receives_example =
    receive_over_udp-Receives kept_message b'1' kept_bytes bravo_address bob (omega arith) refl
      kept-IsCarried

abbrev ack_bytes : Bytes
ack_bytes = codes "1/?client ack/?bob/?Bravo/?blank/?-1/?"

ack-IsCarried : IsCarried (acknowledgement kept_message (codes "Bravo") bob) ack_bytes
unfolding find as_char_vector view_message_type_as_string to_string
ack-IsCarried = record {
  plain = record { source = refl; destination = refl; payload = refl; origin = refl };
  number = refl;
  printed = refl;
  fits = omega arith;
}

ack_removes :
    listen_udp 9 (datagram bob_address ack_bytes) bravo
    ≡ returns (record bravo { message_list = [] }, [])
unfolding remove_received_message_from_list
ack_removes =
    listen_udp-acknowledgement kept_message (codes "Bravo") ack_bytes bob 9 bob_address bravo
      ack-IsCarried
