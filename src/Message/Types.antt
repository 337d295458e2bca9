-- ===== src/Message/Types.antt =====
-- `viewMessageTypeAsString` against `stringToMessageType`.
use cpsc.Common.{◌≢◌, refl, ◌≡◌, ◌↔◌, arith, returns}
use cpsc.Text.{Bytes, codes, equals, equals_iff, find, Lacks}
use cpsc.Constants.{
  MessageType, mt_undefined, mt_client_connect, mt_client_disconnect, mt_client_send, mt_client_get,
  mt_client_ack, mt_server_send, mt_server_ack, mt_server_sync, mt_ping, message_delimiter,
}
use cpsc.Message.{view_message_type_as_string, string_to_message_type}

-- The text of a type is read back as that type.
pub string_to_message_type-view :
    (t : MessageType) (s : Bytes)
    → view_message_type_as_string t ≡ returns s
    → string_to_message_type s ≡ returns t
unfolding view_message_type_as_string string_to_message_type equals
string_to_message_type-view mt_undefined s h = cc
string_to_message_type-view mt_client_connect s h = ground arith
string_to_message_type-view mt_client_disconnect s h = ground arith
string_to_message_type-view mt_client_send s h = ground arith
string_to_message_type-view mt_client_get s h = ground arith
string_to_message_type-view mt_client_ack s h = ground arith
string_to_message_type-view mt_server_send s h = ground arith
string_to_message_type-view mt_server_ack s h = ground arith
string_to_message_type-view mt_server_sync s h = ground arith
string_to_message_type-view mt_ping s h = ground arith

pub view_message_type_as_string-Lacks :
    (t : MessageType) (s : Bytes)
    → view_message_type_as_string t ≡ returns s
    → Lacks message_delimiter s
unfolding view_message_type_as_string find
view_message_type_as_string-Lacks mt_undefined s h = cc
view_message_type_as_string-Lacks mt_client_connect s h = ground arith
view_message_type_as_string-Lacks mt_client_disconnect s h = ground arith
view_message_type_as_string-Lacks mt_client_send s h = ground arith
view_message_type_as_string-Lacks mt_client_get s h = ground arith
view_message_type_as_string-Lacks mt_client_ack s h = ground arith
view_message_type_as_string-Lacks mt_server_send s h = ground arith
view_message_type_as_string-Lacks mt_server_ack s h = ground arith
view_message_type_as_string-Lacks mt_server_sync s h = ground arith
view_message_type_as_string-Lacks mt_ping s h = ground arith

view-string_to_message_type :
    (t : MessageType) (s : Bytes)
    → string_to_message_type s ≡ returns t
    → view_message_type_as_string t ≡ returns s
unfolding string_to_message_type view_message_type_as_string
view-string_to_message_type t s h = ground (
  arith,
  equals_iff s (codes "client connect"),
  equals_iff s (codes "client disconnect"),
  equals_iff s (codes "client send"),
  equals_iff s (codes "client get"),
  equals_iff s (codes "client ack"),
  equals_iff s (codes "server send"),
  equals_iff s (codes "server ack"),
  equals_iff s (codes "server sync"),
  equals_iff s (codes "ping"),
)

-- A text is read as a type exactly if it is the text of that type.
pub string_to_message_type_iff :
    (t : MessageType) (s : Bytes)
    → (string_to_message_type s ≡ returns t) ↔ (view_message_type_as_string t ≡ returns s)
string_to_message_type_iff t s = (view-string_to_message_type t s, string_to_message_type-view t s)

pub view_message_type_as_string-total :
    (t : MessageType) → t ≢ mt_undefined → (s : Bytes) × (view_message_type_as_string t ≡ returns s)
unfolding view_message_type_as_string
view_message_type_as_string-total mt_undefined h = absurd (h refl)
view_message_type_as_string-total mt_client_connect h = (_, refl)
view_message_type_as_string-total _ h = (_, refl)

pub view_message_type_as_string-ne :
    (t : MessageType) (s : Bytes) → view_message_type_as_string t ≡ returns s → t ≢ mt_undefined
unfolding view_message_type_as_string
view_message_type_as_string-ne mt_undefined s h = cc
view_message_type_as_string-ne mt_client_connect s h = λ u. cc
view_message_type_as_string-ne _ s h = λ u. cc
