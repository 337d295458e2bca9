-- ===== src/Network/Forwarding.antt =====
-- What a well-formed server does with a text message that it receives: `processClientSendMessage`
-- reached through `listenLoopUDP`.
use cpsc.Common.{[], ◌∷◌, Option, some, ◌≡◌, refl, sym, ap, subst, ◌∙◌, returns, returns_inj}
use cpsc.Text.{Bytes}
use cpsc.Constants.{mt_client_send}
use cpsc.Message.{DataMessage}
use cpsc.Connection.{datagram, RemoteConnection}
use cpsc.Server.State.{Server, Result, add_to_message_list}
use cpsc.Server.State.WellFormed.{IsWellFormed}
use cpsc.Server.Routing.Search.{IsConnected, IsServedLeft, IsServedRight}
use cpsc.Server.Routing.Routes.{
  Forwards, Routes, stays, leftwards, rightwards, waits, process_client_send_message-Routes,
}
use cpsc.Server.Listen.{dispatch, listen_udp}
use cpsc.Server.Listen.Hop.{IsCarried, listen_udp-as_char_vector}

module _ {E T : Type 0} (now : T) (sender : E) (m : DataMessage) (bytes : Bytes)
    (carried : IsCarried m bytes) (sends : m.message_type ≡ mt_client_send) (s : Server E T)
    (w : IsWellFormed s) where
  abbrev name : Bytes
  name = m.destination_identifier

  abbrev received : Result E T
  received = listen_udp now (datagram sender bytes) s

  received-Routes : Routes m s received
  unfolding dispatch
  received-Routes =
      subst (Routes m s)
        (sym (
          listen_udp-as_char_vector now sender m bytes s carried
          ∙ ap (λ type. dispatch now sender m type s) sends))
        (process_client_send_message-Routes m s w (λ e. cc))

  abbrev sent_to : E → Result E T
  sent_to a = returns (s, record { to = a; bytes = bytes } ∷ [])

  forwarded :
      (to : Option (RemoteConnection E T)) (r : Result E T) (a : E)
      → Forwards m s to r
      → ((c : RemoteConnection E T) → to ≡ some c → c.endpoint ≡ a)
      → r ≡ sent_to a
  forwarded to r a f there =
      f.result
      ∙ ap (λ d. returns (s, d ∷ []))
          (rw (there f.connection f.exists, returns_inj (sym f.printed ∙ carried.printed)) refl)

  pub received_here : IsConnected name s → received ≡ returns (add_to_message_list m s, [])
  received_here here = elim received-Routes [
    | stays h e ↦ e
    | leftwards away _ _ ↦ absurd (away here)
    | rightwards away _ _ _ ↦ absurd (away here)
    | waits away _ _ _ ↦ absurd (away here)
  ]

  pub received_right_of :
      (a : E)
      → ¬ IsConnected name s
      → IsServedLeft name s
      → ((c : RemoteConnection E T) → s.left_adjacent_server_connection ≡ some c → c.endpoint ≡ a)
      → received ≡ sent_to a
  received_right_of a away left there = elim received-Routes [
    | stays h e ↦ absurd (away h)
    | leftwards _ _ f ↦ forwarded s.left_adjacent_server_connection received a f there
    | rightwards _ not_left _ _ ↦ absurd (not_left left)
    | waits _ not_left _ _ ↦ absurd (not_left left)
  ]

  pub received_left_of :
      (a : E)
      → ¬ IsConnected name s
      → ¬ IsServedLeft name s
      → IsServedRight name s
      → ((c : RemoteConnection E T) → s.right_adjacent_server_connection ≡ some c → c.endpoint ≡ a)
      → received ≡ sent_to a
  received_left_of a away not_left right there = elim received-Routes [
    | stays h e ↦ absurd (away h)
    | leftwards _ left _ ↦ absurd (not_left left)
    | rightwards _ _ _ f ↦ forwarded s.right_adjacent_server_connection received a f there
    | waits _ _ not_right _ ↦ absurd (not_right right)
  ]
