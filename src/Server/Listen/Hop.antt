-- ===== src/Server/Listen/Hop.antt =====
-- A message from one program to a server: printed, sent as one datagram, received and handled.
use cpsc.Common.{
  ℕ, ℤ, pos, ◌≤◌, ◌<◌, [], ◌≡◌, refl, true, arith, All, returns, >>=-eq-returns, is_int32, length,
  set, List, ◌∙◌, ◌%◌, ◌^◌,
}
use cpsc.Text.{Bytes}
use cpsc.Constants.{mt_server_sync, number_of_servers}
use cpsc.Constants.Identifiers.{index_lookup}
use cpsc.Message.{
  DataMessage, as_char_vector, of_char_vector, received_vector, arbitrary_length, sync_message,
  view_server_sync_payload, view_message_type_as_string,
}
use cpsc.Message.RoundTrip.{IsPlain, of_char_vector-received_vector}
use cpsc.Message.SyncPayload.{IsListable, view_server_sync_payload-sync_message}
use cpsc.Connection.{datagram}
use cpsc.Server.State.{Server}
use cpsc.Server.State.WellFormed.{receive_clients_in_range}
use cpsc.Server.Listen.{dispatch, listen_udp}

-- A message that the wire format and the receive buffer can carry.
pub record IsCarried (m : DataMessage) (bytes : Bytes) : Type 0 where
  pub plain : IsPlain m
  pub number : is_int32 m.sequence_number ≡ true
  pub printed : as_char_vector m ≡ returns bytes
  pub fits : length bytes ≤ arbitrary_length

pub IsCarried-of_char_vector :
    (m : DataMessage) (bytes : Bytes)
    → IsCarried m bytes
    → of_char_vector (received_vector bytes) ≡ returns m
IsCarried-of_char_vector m bytes c =
    of_char_vector-received_vector m bytes c.plain c.printed c.fits ∙ rw c.number refl

IsCarried-typed :
    (m : DataMessage) (bytes : Bytes)
    → IsCarried m bytes
    → (name : Bytes) × (view_message_type_as_string m.message_type ≡ returns name)
unfolding as_char_vector
IsCarried-typed m bytes c =
    let (name, e, _) = >>=-eq-returns (view_message_type_as_string m.message_type) _ c.printed in
    (name, e)

module _ {E T : Type 0} (now : T) (sender : E) where
  -- A server that receives the wire form of such a message handles the very message that was sent.
  pub listen_udp-as_char_vector :
      (m : DataMessage) (bytes : Bytes) (s : Server E T)
      → IsCarried m bytes
      → listen_udp now (datagram sender bytes) s ≡ dispatch now sender m m.message_type s
  unfolding listen_udp
  listen_udp-as_char_vector m bytes s c =
      let (name, e) = IsCarried-typed m bytes c in
      rw (IsCarried-of_char_vector m bytes c) (rw e refl)

  pub dispatch_sync :
      (m : DataMessage) (i : ℕ) (clients : List Bytes) (s : Server E T)
      → m.server_sync_payload_origin_index ≡ pos i
      → i < number_of_servers
      → view_server_sync_payload m ≡ clients
      → dispatch now sender m mt_server_sync s
        ≡ returns (
          record s {
            clients_served_by_server_index = set s.clients_served_by_server_index i clients;
          },
          [],
        )
  unfolding dispatch
  dispatch_sync m i clients s e inside names =
      let (name, _, f, _, _) = index_lookup i inside in
      rw (receive_clients_in_range m i s e inside, names, e, small i inside, f) refl
    where
      small : (i : ℕ) → i < number_of_servers → i % 2 ^ 8 ≡ i
      small i h = omega arith

  -- A sync message stores the list that its sender put in, as the entry of the server that it
  -- names, and changes nothing else.
  pub listen_udp-sync_message :
      (n : ℤ) (source destination bytes : Bytes) (clients : List Bytes) (i : ℕ) (s : Server E T)
      → All IsListable clients
      → i < number_of_servers
      → IsCarried (sync_message n mt_server_sync source destination clients (pos i)) bytes
      → listen_udp now (datagram sender bytes) s
        ≡ returns (
          record s {
            clients_served_by_server_index = set s.clients_served_by_server_index i clients;
          },
          [],
        )
  listen_udp-sync_message n source destination bytes clients i s names inside c =
      listen_udp-as_char_vector (sync_message n mt_server_sync source destination clients (pos i))
        bytes s c
      ∙ dispatch_sync (sync_message n mt_server_sync source destination clients (pos i)) i clients s
          refl inside
          (view_server_sync_payload-sync_message n (pos i) mt_server_sync source destination clients
            names)
