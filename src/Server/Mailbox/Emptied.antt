-- ===== src/Server/Mailbox/Emptied.antt =====
-- The acknowledgements of all messages of one client.
use cpsc.Common.{
  [], ◌∷◌, ◌++◌, List, ◌≡◌, ◌≢◌, ◌∙◌, inl, inr, refl, sym, ap, All, All-append, Bool-cases,
  if◌then◌else◌, ℤ, map, append_assoc, eqb_ℤ, false_of_not,
}
use cpsc.Text.{Bytes, equals}
use cpsc.Message.{DataMessage}
use cpsc.Server.State.{Server}
use cpsc.Server.Mailbox.{remove_message, remove_received_message_from_list}
use cpsc.Server.Mailbox.Acknowledge.{eqb_ℤ_iff}

abbrev pub number : DataMessage → ℤ
number m = m.sequence_number

-- The messages for a client, and the others.
unfoldable pub messages_for : Bytes → List DataMessage → List DataMessage
messages_for client [] = []
messages_for client (m ∷ ms) =
    let rest = messages_for client ms in
    if equals m.destination_identifier client then m ∷ rest else rest

unfoldable pub messages_for_others : Bytes → List DataMessage → List DataMessage
messages_for_others client [] = []
messages_for_others client (m ∷ ms) =
    let rest = messages_for_others client ms in
    if equals m.destination_identifier client then rest else m ∷ rest

abbrev pub DiffersFrom : List DataMessage → DataMessage → Type 0
DiffersFrom ms m = All (λ b. m.sequence_number ≢ b.sequence_number) ms

-- No two messages have the same number.
abbrev pub HasDistinctNumbers : List DataMessage → Type 0
HasDistinctNumbers [] = Unit
HasDistinctNumbers (m ∷ ms) = DiffersFrom ms m × HasDistinctNumbers ms

remove_message-append :
    (ack m : DataMessage) (before ms : List DataMessage)
    → All (DiffersFrom (m ∷ ms)) before
    → ack.sequence_number ≡ m.sequence_number
    → remove_message ack (before ++ m ∷ ms) ≡ before ++ ms
unfolding remove_message
remove_message-append ack m [] ms others e =
    rw ((eqb_ℤ_iff m.sequence_number ack.sequence_number).1 (sym e)) refl
remove_message-append ack m (b ∷ before) ms others e =
    rw
      (false_of_not (eqb_ℤ b.sequence_number ack.sequence_number)
        (eqb_ℤ_iff b.sequence_number ack.sequence_number) (λ h. others.0.0 (h ∙ e)))
      (ap (λ l. b ∷ l) (remove_message-append ack m before ms others.1 e))

All-tail :
    (m : DataMessage) (ms before : List DataMessage)
    → All (DiffersFrom (m ∷ ms)) before
    → All (DiffersFrom ms) before
All-tail m ms [] h = tt
All-tail m ms (b ∷ before) h = (h.0.1, All-tail m ms before h.1)

remove_messages : List DataMessage → List DataMessage → List DataMessage
remove_messages [] ms = ms
remove_messages (a ∷ acks) ms = remove_messages acks (remove_message a ms)

-- The first acknowledgement is that of `m`.
remove_messages-own :
    (m : DataMessage) (acks before ms own rest : List DataMessage)
    → All (DiffersFrom (m ∷ ms)) before
    → map number acks ≡ map number (m ∷ own)
    → ((later : List DataMessage)
        → map number later ≡ map number own
        → remove_messages later (before ++ ms) ≡ rest)
    → remove_messages acks (before ++ m ∷ ms) ≡ rest
unfolding remove_messages
remove_messages-own m [] before ms own rest others e go = cc
remove_messages-own m (a ∷ acks) before ms own rest others e go =
    let same : a.sequence_number ≡ m.sequence_number = cc in
    let fewer : map number acks ≡ map number own = cc in
    ap (λ l. remove_messages acks l) (remove_message-append a m before ms others same)
    ∙ go acks fewer

remove_messages-append :
    (client : Bytes) (acks before ms : List DataMessage)
    → All (DiffersFrom ms) before
    → HasDistinctNumbers ms
    → map number acks ≡ map number (messages_for client ms)
    → remove_messages acks (before ++ ms) ≡ before ++ messages_for_others client ms
unfolding remove_messages messages_for messages_for_others
remove_messages-append client [] before [] others distinct e = refl
remove_messages-append client (a ∷ acks) before [] others distinct e = cc
remove_messages-append client acks before (m ∷ ms) others distinct e =
    elim (Bool-cases (equals m.destination_identifier client)) [
      | inl own ↦ rw own (
          remove_messages-own m acks before ms (messages_for client ms)
            (before ++ messages_for_others client ms) others (rw own at e)
            (λ later f.
              remove_messages-append client later before ms (All-tail m ms before others) distinct.1
                f))
      | inr other ↦ rw other (
          ap (λ l. remove_messages acks l) (sym (append_assoc before (m ∷ []) ms))
          ∙ remove_messages-append client acks (before ++ m ∷ []) ms
              (All-append (DiffersFrom ms) before (m ∷ []) (All-tail m ms before others)
                (distinct.0, tt))
              distinct.1 (rw other at e)
          ∙ append_assoc before (m ∷ []) (messages_for_others client ms))
    ]

module _ {E T : Type 0} where
  -- The acknowledgements `acks` arrive in this order.
  unfoldable pub acknowledge_all : List DataMessage → Server E T → Server E T
  acknowledge_all [] s = s
  acknowledge_all (a ∷ acks) s = acknowledge_all acks (remove_received_message_from_list a s)

  acknowledge_all-remove_messages :
      (acks : List DataMessage) (s : Server E T)
      → acknowledge_all acks s ≡ record s { message_list = remove_messages acks s.message_list }
  unfolding acknowledge_all remove_messages remove_received_message_from_list
  acknowledge_all-remove_messages [] s = refl
  acknowledge_all-remove_messages (a ∷ acks) s =
      acknowledge_all-remove_messages acks (remove_received_message_from_list a s)

  -- If no two messages of the list have the same number, then acknowledgements with the numbers of
  -- the messages for one client, in order, remove exactly these messages from the list and change
  -- nothing else.
  pub acknowledge_all-messages_for :
      (client : Bytes) (acks : List DataMessage) (s : Server E T)
      → HasDistinctNumbers s.message_list
      → map number acks ≡ map number (messages_for client s.message_list)
      → acknowledge_all acks s
        ≡ record s { message_list = messages_for_others client s.message_list }
  acknowledge_all-messages_for client acks s distinct e =
      acknowledge_all-remove_messages acks s
      ∙ ap (λ l. record s { message_list = l })
          (remove_messages-append client acks [] s.message_list tt distinct e)
