-- ===== src/Server/Mailbox/Delivery.antt =====
-- `sendMessagesToClient`.
use cpsc.Common.{
  sym, subst, ◌∙◌, [], ◌∷◌, ◌++◌, List, ◌≡◌, ◌≢◌, ◌⊎◌, inl, inr, refl, All, Bool-cases, returns,
  Returns, Returns-bind, Returns-map, not_of_false, ap, Holds, map,
}
use cpsc.Text.{Bytes, equals, equals_iff}
use cpsc.Message.{DataMessage, as_char_vector}
use cpsc.Connection.{RemoteConnection, Datagram}
use cpsc.Server.State.{Server}
use cpsc.Server.State.WellFormed.{IsWellFormed, IsKept}
use cpsc.Server.Routing.Routes.{as_char_vector-total}
use cpsc.Server.Mailbox.{send_messages, send_to_connection, send_messages_to_client}

module _ {E : Type 0} (client : Bytes) (endpoint : E) where
  -- One datagram to the endpoint for each message for the client, in order, and no other.
  pub data Delivers : List DataMessage → List (Datagram E) → Type 0 where
    done : Delivers [] []
    skip :
        {m : DataMessage} {ms : List DataMessage} {o : List (Datagram E)}
        → m.destination_identifier ≢ client
        → Delivers ms o
        → Delivers (m ∷ ms) o
    send :
        {m : DataMessage} {ms : List DataMessage} {o : List (Datagram E)} (d : Datagram E)
        → m.destination_identifier ≡ client
        → d.to ≡ endpoint
        → as_char_vector m ≡ returns d.bytes
        → Delivers ms o
        → Delivers (m ∷ ms) (d ∷ o)

  send_messages-Delivers :
      (ms : List DataMessage)
      → All IsKept ms
      → Returns (Delivers ms) (send_messages client endpoint ms)
  unfolding send_messages
  send_messages-Delivers [] k = done
  send_messages-Delivers (m ∷ ms) k =
      let (bytes, e) = as_char_vector-total m (λ u. cc k.0) in
      let rest = send_messages-Delivers ms k.1 in
      elim (Bool-cases (equals m.destination_identifier client)) [
        | inl h ↦
            rw (h, e)
              (Returns-bind (Delivers ms) (Delivers (m ∷ ms)) (send_messages client endpoint ms) _
                rest (λ o. send _ ((equals_iff m.destination_identifier client).0 h) refl e))
        | inr h ↦ rw h (
            Returns-map (Delivers ms) (Delivers (m ∷ ms)) (send_messages client endpoint ms) rest
              (λ o. skip (not_of_false _ (equals_iff m.destination_identifier client) h)))
      ]

module _ {E T : Type 0} (client : Bytes) where
  -- The first connection of that name.
  pub record IsFirst (cs : List (RemoteConnection E T)) (c : RemoteConnection E T) : Type 0 where
    pub before : List (RemoteConnection E T)
    pub behind : List (RemoteConnection E T)
    pub split : cs ≡ before ++ c ∷ behind
    pub others : All (λ b. b.identifier ≢ client) before
    pub named : c.identifier ≡ client

  first_unique :
      (before behind before' behind' : List (RemoteConnection E T)) (c c' : RemoteConnection E T)
      → before ++ c ∷ behind ≡ before' ++ c' ∷ behind'
      → All (λ b. b.identifier ≢ client) before
      → All (λ b. b.identifier ≢ client) before'
      → c.identifier ≡ client
      → c'.identifier ≡ client
      → c ≡ c'
  first_unique [] behind [] behind' c c' e other other' named named' = cc
  first_unique [] behind (b ∷ before') behind' c c' e other other' named named' =
      let same : c ≡ b = cc in
      absurd (other'.0 (subst (λ (x : RemoteConnection E T). x.identifier ≡ client) same named))
  first_unique (b ∷ before) behind [] behind' c c' e other other' named named' =
      let same : c' ≡ b = cc in
      absurd (other.0 (subst (λ (x : RemoteConnection E T). x.identifier ≡ client) same named'))
  first_unique (b ∷ before) behind (b' ∷ before') behind' c c' e other other' named named' =
      let tails : before ++ c ∷ behind ≡ before' ++ c' ∷ behind' = cc in
      first_unique before behind before' behind' c c' tails other.1 other'.1 named named'

  pub IsFirst-unique :
      (cs : List (RemoteConnection E T)) (c c' : RemoteConnection E T)
      → IsFirst cs c
      → IsFirst cs c'
      → c ≡ c'
  IsFirst-unique cs c c' f f' =
      first_unique f.before f.behind f'.before f'.behind c c' (sym f.split ∙ f'.split) f.others
        f'.others f.named f'.named

  abbrev pub Serves : List (RemoteConnection E T) → List DataMessage → List (Datagram E) → Type 0
  Serves cs ms o =
      ((¬ Holds client (map (λ c. c.identifier) cs)) × (o ≡ []))
      ⊎ ((c : RemoteConnection E T) × IsFirst cs c × Delivers client c.endpoint ms o)

  Serves-cons :
      (c : RemoteConnection E T) (cs : List (RemoteConnection E T)) (ms : List DataMessage)
      (o : List (Datagram E))
      → c.identifier ≢ client
      → Serves cs ms o
      → Serves (c ∷ cs) ms o
  Serves-cons c cs ms o other (inl (absent, e)) =
      inl ((λ h. elim h [ inl p ↦ other p | inr q ↦ absent q ]), e)
  Serves-cons c cs ms o other (inr (b, first, sent)) = inr (
    b,
    record {
      before = c ∷ first.before;
      behind = first.behind;
      split = ap (λ l. c ∷ l) first.split;
      others = (other, first.others);
      named = first.named;
    },
    sent,
  )

  send_to_connection-Serves :
      (ms : List DataMessage) (cs : List (RemoteConnection E T))
      → All IsKept ms
      → Returns (Serves cs ms) (send_to_connection client ms cs)
  unfolding send_to_connection
  send_to_connection-Serves ms [] k = inl ((λ h. h), refl)
  send_to_connection-Serves ms (c ∷ cs) k = elim (Bool-cases (equals c.identifier client)) [
    | inl h ↦ rw h (
        Returns-map (Delivers client c.endpoint ms) (Serves (c ∷ cs) ms)
          (send_messages client c.endpoint ms) (send_messages-Delivers client c.endpoint ms k)
          (λ o sent. inr (
            c,
            record {
              before = [];
              behind = cs;
              split = refl;
              others = tt;
              named = (equals_iff c.identifier client).0 h;
            },
            sent,
          )))
    | inr h ↦ rw h (
        Returns-map (Serves cs ms) (Serves (c ∷ cs) ms) (send_to_connection client ms cs)
          (send_to_connection-Serves ms cs k)
          (λ o. Serves-cons c cs ms o (not_of_false _ (equals_iff c.identifier client) h)))
  ]

  -- On a get, a well-formed server sends nothing to a client that is not connected. To one that is
  -- it sends each message of the list that is destined for it, in order, one datagram each, to the
  -- endpoint of the first connection of that name, and no other message. It always returns, and
  -- the messages stay in the list.
  pub send_messages_to_client-Serves :
      (s : Server E T)
      → IsWellFormed s
      → Returns
          (λ r. (r.0 ≡ s) × Serves s.connected_clients s.message_list r.1)
          (send_messages_to_client client s)
  unfolding send_messages_to_client
  send_messages_to_client-Serves s w =
      Returns-bind (Serves s.connected_clients s.message_list)
        (λ r. (r.0 ≡ s) × Serves s.connected_clients s.message_list r.1)
        (send_to_connection client s.message_list s.connected_clients) _
        (send_to_connection-Serves s.message_list s.connected_clients w.kept) (λ o h. (refl, h))
