-- ===== src/Tests/Faults.antt =====
-- Messages that the wire format or the buffer does not carry.
use cpsc.Common.{pos, ◌≡◌, refl, throws, replicate, ◌>>=◌, Outcome, to_int8}
use cpsc.Text.{Bytes, codes, find, to_string, stoi, equals, before, after}
use cpsc.Constants.{mt_client_send}
use cpsc.Message.{
  DataMessage, text_message, as_char_vector, of_char_vector, received_vector,
  view_message_type_as_string, string_to_message_type,
}

-- What arrives of ann's message to cat.
abbrev arrives : Bytes → Outcome DataMessage
arrives text =
    as_char_vector (text_message (pos 2) mt_client_send (codes "ann") (codes "cat") text)
    >>= λ bytes. of_char_vector (received_vector bytes)

-- A text with a delimiter in it.
delimiter_in_text : arrives (codes " either/?or") ≡ throws
unfolding find as_char_vector view_message_type_as_string to_string of_char_vector received_vector
    before after stoi string_to_message_type equals to_int8
delimiter_in_text = refl

-- A text of 300 characters.
long_text : arrives (replicate 300 b'x') ≡ throws
unfolding find as_char_vector view_message_type_as_string to_string of_char_vector received_vector
    before after stoi string_to_message_type equals to_int8
long_text = refl
