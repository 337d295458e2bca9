-- ===== src/Tests/Texts.antt =====
-- Tests of texts, constants and messages.
use cpsc.Common.{
  ◌<◌, ◌+◌, negsuc, List, [], ◌∷◌, ◌++◌, ◌≡◌, refl, returns, throws, aborts, is_int32,
  if◌then◌else◌, to_int8,
}
use cpsc.Text.{
  Bytes, codes, find, before, after, to_string, stoi, stoi-to_string, equals, starts_with,
}
use cpsc.Constants.{identifier_is_valid, char_to_server_index, number_of_servers, tolower}
use cpsc.Constants.Identifiers.{char_to_server_index-valid}
use cpsc.Message.{
  DataMessage, as_char_vector, of_char_vector, string_to_message_type, view_message_type_as_string,
  received_vector,
}
use cpsc.Message.RoundTrip.{IsPlain, reread, of_char_vector-as_char_vector}
use cpsc.Message.Reread.{of_char_vector-reprinted}
use cpsc.Message.Fields.{fields, read_fields, of_char_vector-fields}
use cpsc.Tests.Fixtures.{message_to}

abbrev hello : DataMessage
hello = message_to (codes "bob")

abbrev hello_bytes : Bytes
hello_bytes = codes "1/?client send/?ann/?bob/? hi/?-1/?"

hello_printed : as_char_vector hello ≡ returns hello_bytes
unfolding as_char_vector view_message_type_as_string to_string
hello_printed = refl

hello_read : of_char_vector (hello_bytes ++ 0 ∷ 0 ∷ []) ≡ returns hello
unfolding of_char_vector before after find stoi string_to_message_type equals to_int8
hello_read = refl

hello-IsPlain : IsPlain hello
unfolding find
hello-IsPlain = record { source = refl; destination = refl; payload = refl; origin = refl }

of_char_vector-as_char_vector_example : of_char_vector (hello_bytes ++ 0 ∷ 0 ∷ []) ≡ reread hello
of_char_vector-as_char_vector_example =
    of_char_vector-as_char_vector hello hello_bytes (0 ∷ 0 ∷ []) hello-IsPlain hello_printed

-- A sequence number past `int` throws.
large_number : of_char_vector (codes "2147483648/?ping/?a/?b/?c/?0/?") ≡ throws
unfolding of_char_vector before find stoi
large_number = refl

-- A payload with the delimiter in it is cut there, and what follows is read as the index.
cut_payload :
    of_char_vector (codes "1/?ping/?a/?b/?how/?5 o'clock/?-1/?")
    ≡ of_char_vector (codes "1/?ping/?a/?b/?how/?5/?")
unfolding of_char_vector before after find stoi string_to_message_type equals to_int8
cut_payload = refl

no_type : of_char_vector (codes "1/?hello/?a/?b/?c/?0/?") ≡ aborts
unfolding of_char_vector before after find stoi string_to_message_type equals to_int8
no_type = refl

stoi_negative :
    stoi (to_string (negsuc 41)) ≡ (if is_int32 (negsuc 41) then returns (negsuc 41) else throws)
stoi_negative = stoi-to_string (negsuc 41)

stoi_trailing : stoi (codes "  -42 apples") ≡ returns (negsuc 41)
unfolding stoi
stoi_trailing = refl

abbrev two_names : List Bytes
two_names = codes "ann" ∷ codes "bob" ∷ []

of_char_vector-reprinted_example :
    (bytes : Bytes) × (as_char_vector hello ≡ returns bytes)
    × ((rest : Bytes) → of_char_vector (bytes ++ rest) ≡ returns hello)
of_char_vector-reprinted_example =
    of_char_vector-reprinted (hello_bytes ++ 0 ∷ 0 ∷ []) hello hello_read

hello_received : of_char_vector (received_vector hello_bytes) ≡ returns hello
unfolding of_char_vector before after find stoi string_to_message_type equals to_int8
    received_vector
hello_received = refl

hello_fields :
    fields hello_bytes
    ≡ codes "1"
      ∷ codes "client send"
      ∷ codes "ann"
      ∷ codes "bob"
      ∷ codes " hi"
      ∷ codes "-1"
      ∷ []
      ∷ []
unfolding fields starts_with
hello_fields = refl

of_char_vector-fields_example : of_char_vector hello_bytes ≡ read_fields (fields hello_bytes)
of_char_vector-fields_example =
    of_char_vector-fields hello_bytes (codes "1") (codes "client send") (codes "ann") (codes "bob")
      (codes " hi") (codes "-1") ([] ∷ []) hello_fields

char_to_server_index-valid_example :
    (char_to_server_index b'C' < number_of_servers)
    × (char_to_server_index b'C' + b'a' ≡ tolower b'C')
unfolding identifier_is_valid
char_to_server_index-valid_example = char_to_server_index-valid b'C' refl
