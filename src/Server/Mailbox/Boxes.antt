-- ===== src/Server/Mailbox/Boxes.antt =====
-- The message list as what it stands for: a box of messages for each client.
use cpsc.Common.{
  ℤ, [], ◌∷◌, ◌++◌, List, ◌≡◌, ◌≢◌, ◌∙◌, inl, inr, refl, sym, ap, subst, arith, All, Bool-cases,
  if◌then◌else◌, returns, Returns, Returns-map, false_of_not, eqb_ℤ,
}
use cpsc.Text.{Bytes, equals, equals_iff}
use cpsc.Constants.{mt_server_send}
use cpsc.Message.{DataMessage, as_char_vector, set_message_type}
use cpsc.Connection.{Datagram, RemoteConnection}
use cpsc.Server.State.{Server, add_to_message_list}
use cpsc.Server.State.WellFormed.{IsWellFormed}
use cpsc.Server.Routing.Search.{IsConnected}
use cpsc.Server.Mailbox.{remove_message, remove_received_message_from_list, send_messages_to_client}
use cpsc.Server.Mailbox.Acknowledge.{eqb_ℤ_iff}
use cpsc.Server.Mailbox.Delivery.{
  IsFirst, IsFirst-unique, Serves, Delivers, done, skip, send, send_messages_to_client-Serves,
}
use cpsc.Server.Mailbox.Emptied.{messages_for, HasDistinctNumbers}

-- The boxes of all clients, each with its messages in order.
abbrev pub Boxes : Type 0
Boxes = Bytes → List DataMessage

-- A message is put at the end of its destination's box.
pub put : DataMessage → Boxes → Boxes
put m boxes client =
    if equals m.destination_identifier client then boxes client ++ m ∷ [] else boxes client

-- The messages of another number than `n`.
pub without : ℤ → List DataMessage → List DataMessage
without n [] = []
without n (m ∷ ms) = let rest = without n ms in if eqb_ℤ m.sequence_number n then rest else m ∷ rest

abbrev pub boxes_of : {E T : Type 0} → Server E T → Boxes
boxes_of s client = messages_for client s.message_list

-- The datagrams carry these messages, in order, to one endpoint.
abbrev pub Carry : {E : Type 0} → E → List DataMessage → List (Datagram E) → Type 0
Carry endpoint [] [] = Unit
Carry endpoint [] (d ∷ o) = ⊥
Carry endpoint (m ∷ ms) [] = ⊥
Carry endpoint (m ∷ ms) (d ∷ o) =
    (d.to ≡ endpoint) × (as_char_vector m ≡ returns d.bytes) × Carry endpoint ms o

pub messages_for-append :
    (client : Bytes) (m : DataMessage) (ms : List DataMessage)
    → messages_for client (ms ++ m ∷ []) ≡ (
        if equals m.destination_identifier client
        then messages_for client ms ++ m ∷ []
        else messages_for client ms)
unfolding messages_for
messages_for-append client m [] = ground arith
messages_for-append client m (b ∷ ms) = ground (arith, messages_for-append client m ms)

without_none :
    (n : ℤ) (ms : List DataMessage) → All (λ b. n ≢ b.sequence_number) ms → without n ms ≡ ms
unfolding without
without_none n [] h = refl
without_none n (m ∷ ms) h =
    rw (false_of_not (eqb_ℤ m.sequence_number n) (eqb_ℤ_iff m.sequence_number n) (λ e. h.0 (sym e)))
      (ap (λ l. m ∷ l) (without_none n ms h.1))

-- Where all numbers are different, the first message of a number is the only one.
remove_message-without :
    (ack : DataMessage) (ms : List DataMessage)
    → HasDistinctNumbers ms
    → remove_message ack ms ≡ without ack.sequence_number ms
unfolding remove_message without
remove_message-without ack [] distinct = refl
remove_message-without ack (m ∷ ms) distinct =
    elim (Bool-cases (eqb_ℤ m.sequence_number ack.sequence_number)) [
      | inl same ↦ rw same (
          sym (
            without_none ack.sequence_number ms (
              subst (λ n. All (λ b. n ≢ b.sequence_number) ms)
                ((eqb_ℤ_iff m.sequence_number ack.sequence_number).0 same) distinct.0)))
      | inr differs ↦ rw differs (ap (λ l. m ∷ l) (remove_message-without ack ms distinct.1))
    ]

messages_for-without :
    (client : Bytes) (n : ℤ) (ms : List DataMessage)
    → messages_for client (without n ms) ≡ without n (messages_for client ms)
unfolding messages_for without
messages_for-without client n [] = refl
messages_for-without client n (m ∷ ms) = ground (arith, messages_for-without client n ms)

Delivers-Carry :
    {E : Type 0} (client : Bytes) (endpoint : E) {ms : List DataMessage} {o : List (Datagram E)}
    → Delivers client endpoint ms o
    → Carry endpoint (messages_for client ms) o
unfolding messages_for
Delivers-Carry client endpoint done = tt
Delivers-Carry client endpoint (skip {m = m} other rest) =
    rw
      (false_of_not (equals m.destination_identifier client)
        (equals_iff m.destination_identifier client) other)
      (Delivers-Carry client endpoint rest)
Delivers-Carry client endpoint (send {m = m} d own to printed rest) =
    rw ((equals_iff m.destination_identifier client).1 own)
      (to, printed, Delivers-Carry client endpoint rest)

module _ {E T : Type 0} (s : Server E T) (client : Bytes) where
  -- On a get, a connected client is sent the messages of its box, in order.
  pub boxes_of-Serves :
      (o : List (Datagram E))
      → IsConnected client s
      → Serves client s.connected_clients s.message_list o
      → (endpoint : E) × Carry endpoint (boxes_of s client) o
  boxes_of-Serves o here (inl (absent, _)) = absurd (absent here)
  boxes_of-Serves o here (inr (c, _, sent)) = (c.endpoint, Delivers-Carry client c.endpoint sent)

  -- It is sent to the endpoint of the first connection of that name.
  pub boxes_of-IsFirst :
      (c : RemoteConnection E T) (o : List (Datagram E))
      → IsConnected client s
      → IsFirst client s.connected_clients c
      → Serves client s.connected_clients s.message_list o
      → Carry c.endpoint (boxes_of s client) o
  boxes_of-IsFirst c o here first (inl (absent, _)) = absurd (absent here)
  boxes_of-IsFirst c o here first (inr (c', first', sent)) =
      subst (λ (e : E). Carry e (boxes_of s client) o)
        (ap (λ (x : RemoteConnection E T). x.endpoint)
          (IsFirst-unique client s.connected_clients c' c first' first))
        (Delivers-Carry client c'.endpoint sent)

  -- The message list of a well-formed server with different numbers is a box of messages for each
  -- client: a message that is added goes to the end of its destination's box alone, under the
  -- type of a server's message; an acknowledgement takes its number out of every box; and a get
  -- by a connected client sends exactly the messages of its box, in order, to one endpoint.
  pub boxes_of-Server :
      (m ack : DataMessage)
      → IsWellFormed s
      → HasDistinctNumbers s.message_list
      → IsConnected client s
      → (boxes_of (add_to_message_list m s) client
          ≡ put (set_message_type mt_server_send m) (boxes_of s) client)
        × (boxes_of (remove_received_message_from_list ack s) client
            ≡ without ack.sequence_number (boxes_of s client))
        × Returns
            (λ r. (endpoint : E) × Carry endpoint (boxes_of s client) r.1)
            (send_messages_to_client client s)
  unfolding add_to_message_list remove_received_message_from_list put
  boxes_of-Server m ack w distinct here = (
    messages_for-append client (set_message_type mt_server_send m) s.message_list,
    ap (messages_for client) (remove_message-without ack s.message_list distinct)
        ∙ messages_for-without client ack.sequence_number s.message_list,
    Returns-map _ _ (send_messages_to_client client s) (send_messages_to_client-Serves client s w)
        (λ r h. boxes_of-Serves r.1 here h.1),
  )
