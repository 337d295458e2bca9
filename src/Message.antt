-- ===== src/Message.antt =====
-- src/Common/dataMessage.h and dataMessage.cpp: the messages between clients and servers, and
-- their form on the wire. `Types` and `SyncPayload` prove the tables and the list payload,
-- `RoundTrip` the wire format.
pub mod Types
pub mod SyncPayload
pub mod RoundTrip
pub mod Parsed
pub mod Reread
pub mod Fields
use cpsc.Common.{
  ℕ, ◌-◌, ℤ, negsuc, to_int8, List, [], ◌∷◌, ◌++◌, Bool, ◌==◌, if◌then◌else◌, Outcome, returns,
  aborts, ◌>>=◌, take, replicate, length,
}
use cpsc.Text.{Bytes, codes, equals, before, after, to_string, stoi}
use cpsc.Constants.{
  message_delimiter, sync_identifier_delimiter, MessageType, mt_undefined, mt_client_connect,
  mt_client_disconnect, mt_client_send, mt_client_get, mt_client_ack, mt_server_send, mt_server_ack,
  mt_server_sync, mt_ping,
}

-- `sequence_number` is an int64_t and `server_sync_payload_origin_index` an int8_t.
pub record DataMessage : Type 0 where
  pub sequence_number : ℤ
  pub message_type : MessageType
  pub source_identifier : Bytes
  pub destination_identifier : Bytes
  pub payload : Bytes
  pub server_sync_payload_origin_index : ℤ

-- The constructor for messages that hold text.
abbrev pub text_message : ℤ → MessageType → Bytes → Bytes → Bytes → DataMessage
text_message n t source destination payload = record {
  sequence_number = n;
  message_type = t;
  source_identifier = source;
  destination_identifier = destination;
  payload = payload;
  server_sync_payload_origin_index = negsuc 0;
}

-- The loop of `createServerSyncPayload`.
append_identifiers : Bytes → List Bytes → Bytes
append_identifiers constructed [] = constructed
append_identifiers constructed (client ∷ clients) =
    append_identifiers (constructed ++ (client ++ sync_identifier_delimiter ∷ [])) clients

unfoldable pub create_server_sync_payload : List Bytes → Bytes
unfolding append_identifiers
create_server_sync_payload clients = append_identifiers [] clients

-- The constructor for sync messages.
abbrev pub sync_message : ℤ → MessageType → Bytes → Bytes → List Bytes → ℤ → DataMessage
sync_message n t source destination clients origin = record {
  sequence_number = n;
  message_type = t;
  source_identifier = source;
  destination_identifier = destination;
  payload = create_server_sync_payload clients;
  server_sync_payload_origin_index = origin;
}

-- The loop of `viewServerSyncPayload`, over the characters left.
collect_identifiers : List Bytes → Bytes → Bytes → List Bytes
collect_identifiers out found [] = out
collect_identifiers out found (c ∷ s) = elim (c == sync_identifier_delimiter) [
  | Bool.true ↦ collect_identifiers (out ++ found ∷ []) [] s
  | Bool.false ↦ collect_identifiers out (found ++ c ∷ []) s
]

unfoldable pub view_server_sync_payload : DataMessage → List Bytes
unfolding collect_identifiers
view_server_sync_payload m = collect_identifiers [] [] m.payload

abbrev pub set_message_type : MessageType → DataMessage → DataMessage
set_message_type t m = record m { message_type = t }

-- `assert(false)` for a message of no type.
unfoldable pub view_message_type_as_string : MessageType → Outcome Bytes
view_message_type_as_string mt_undefined = aborts
view_message_type_as_string mt_client_connect = returns (codes "client connect")
view_message_type_as_string mt_client_disconnect = returns (codes "client disconnect")
view_message_type_as_string mt_client_send = returns (codes "client send")
view_message_type_as_string mt_client_get = returns (codes "client get")
view_message_type_as_string mt_client_ack = returns (codes "client ack")
view_message_type_as_string mt_server_send = returns (codes "server send")
view_message_type_as_string mt_server_ack = returns (codes "server ack")
view_message_type_as_string mt_server_sync = returns (codes "server sync")
view_message_type_as_string mt_ping = returns (codes "ping")

-- `assert(false)` for any other text.
unfoldable pub string_to_message_type : Bytes → Outcome MessageType
string_to_message_type s =
    if equals s (codes "client connect")
    then returns mt_client_connect
    else if equals s (codes "client disconnect")
    then returns mt_client_disconnect
    else if equals s (codes "client send")
    then returns mt_client_send
    else if equals s (codes "client get")
    then returns mt_client_get
    else if equals s (codes "client ack")
    then returns mt_client_ack
    else if equals s (codes "server send")
    then returns mt_server_send
    else if equals s (codes "server ack")
    then returns mt_server_ack
    else if equals s (codes "server sync")
    then returns mt_server_sync
    else if equals s (codes "ping")
    then returns mt_ping
    else aborts

-- A field and the delimiter behind it.
abbrev pub field : Bytes → Bytes → Bytes
field f rest = f ++ (message_delimiter ++ rest)

-- The six fields, each with its delimiter.
abbrev pub wire : DataMessage → Bytes → Bytes
wire m type_name = field (to_string m.sequence_number) (
    field type_name (
      field m.source_identifier (
        field m.destination_identifier
          (field m.payload (field (to_string m.server_sync_payload_origin_index) [])))))

unfoldable pub as_char_vector : DataMessage → Outcome Bytes
as_char_vector m = do
  type_name ← view_message_type_as_string m.message_type
  returns (wire m type_name)

-- The constructor that reads a received vector.
unfoldable pub of_char_vector : Bytes → Outcome DataMessage
of_char_vector s0 = do
  sequence_number ← stoi (before message_delimiter s0)
  let s1 = after message_delimiter s0
  message_type ← string_to_message_type (before message_delimiter s1)
  let s2 = after message_delimiter s1
  let s3 = after message_delimiter s2
  let s4 = after message_delimiter s3
  let s5 = after message_delimiter s4
  origin ← stoi (before message_delimiter s5)
  returns (record {
    sequence_number = sequence_number;
    message_type = message_type;
    source_identifier = before message_delimiter s2;
    destination_identifier = before message_delimiter s3;
    payload = before message_delimiter s4;
    server_sync_payload_origin_index = to_int8 origin;
  })

abbrev pub arbitrary_length : ℕ
arbitrary_length = 256

-- The vector of `arbitraryLength` chars, all zero, after `receive_from` has put a datagram in
-- front; what does not fit is lost.
unfoldable pub received_vector : Bytes → Bytes
received_vector datagram =
    take arbitrary_length datagram ++ replicate (arbitrary_length - length datagram) 0
