-- ===== src/Client/Input.antt =====
-- A round of `inputLoop`.
use cpsc.Common.{
  [], ◌∷◌, ◌≡◌, ◌≢◌, refl, true, false, Bool-cases, inl, inr, returns, increment64, ℕ, subst,
}
use cpsc.Constants.{mt_client_send}
use cpsc.Text.{Bytes, codes, equals_ne, extract}
use cpsc.Message.{text_message, as_char_vector}
use cpsc.Server.Routing.Routes.{as_char_vector-total}
use cpsc.Client.{
  Client, Result, sends, shows, p_udp, input_round, is_command, command_arguments, send_command,
  send_over_udp, next_sequence_number,
}
use cpsc.Client.Command.{
  command_arguments-ne-exit, exit_text, command_line, command_arguments-command_line, IsWord,
  IsLine,
}

abbrev pub first_word : Bytes → Bytes
first_word input = (extract (record { rest = input; good = true }) []).1

abbrev pub arguments : Bytes → Bytes × Bytes
arguments input = command_arguments input (extract (record { rest = input; good = true }) []).0

module _ {E : Type 0} where
  -- One message to the server, with the next sequence number and the given destination and text.
  pub record Submits (destination text : Bytes) (c : Client E) (r : Result E) : Type 0 where
    pub bytes : Bytes
    pub printed :
        as_char_vector
          (text_message (increment64 c.sequence_number) mt_client_send c.username destination text)
        ≡ returns bytes
    pub result :
        r
        ≡ returns (
          record c { sequence_number = increment64 c.sequence_number },
          sends (record { to = c.server_end_point; bytes = bytes }) ∷ [],
        )

  send_command-Submits :
      (destination text : Bytes) (c : Client E)
      → c.active_protocol ≡ p_udp
      → text ≢ exit_text
      → Submits destination text c (send_command destination text c)
  unfolding send_command send_over_udp next_sequence_number
  send_command-Submits destination text c udp goes_on =
      let (bytes, e) =
        as_char_vector-total
          (text_message (increment64 c.sequence_number) mt_client_send c.username destination text)
          (λ u. cc) in
      record {
        bytes = bytes;
        printed = e;
        result = rw (equals_ne text exit_text goes_on, udp, e) refl;
      }

  pub data Enters (input : Bytes) (c : Client E) (r : Result E) : Type 0 where
    refused :
        is_command (first_word input) ≡ false
        → r
          ≡ returns
              (c, shows (codes "Invalid command. (Use '/m' || '/message' <target> <message>") ∷ [])
        → Enters input c r
    submitted :
        is_command (first_word input) ≡ true
        → Submits (arguments input).0 (arguments input).1 c r
        → Enters input c r

  -- Whatever line the user enters, a round of `inputLoop` over UDP returns, and it either refuses
  -- the line and changes nothing, or sends one message to the server with the next sequence number.
  -- No line ends the session: `terminate` keeps its value and no disconnect message is sent.
  pub input_round-Enters :
      (input : Bytes) (c : Client E)
      → c.active_protocol ≡ p_udp
      → Enters input c (input_round input c)
  unfolding input_round
  input_round-Enters input c udp = elim (Bool-cases (is_command (first_word input))) [
    | inl e ↦ rw e (
        submitted e (
          send_command-Submits (arguments input).0 (arguments input).1 c udp
            (command_arguments-ne-exit input e)))
    | inr e ↦ rw e (refused e refl)
  ]

  -- A command line with a destination of one word sends the text to that destination, with the
  -- blank that stood in front of it.
  pub input_round-command_line :
      (d : ℕ) (w text : Bytes) (c : Client E)
      → c.active_protocol ≡ p_udp
      → IsWord (d ∷ w)
      → IsLine text
      → Submits (d ∷ w) (32 ∷ text) c (input_round (command_line (d ∷ w) text) c)
  input_round-command_line d w text c udp h one_line =
      let (command, args) = command_arguments-command_line d w text h one_line in
      elim (input_round-Enters (command_line (d ∷ w) text) c udp) [
        | refused e _ ↦ absurd (cc (command, e))
        | submitted _ s ↦
            subst (λ a. Submits a.0 a.1 c (input_round (command_line (d ∷ w) text) c)) args s
      ]
