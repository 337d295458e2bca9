-- ===== src/Server/Listen/Endings.antt =====
-- How a round of `listenLoopUDP` ends.
use cpsc.Common.{
  [], List, ◌≡◌, ◌≢◌, inl, inr, refl, sym, subst, Outcome, returns, throws, aborts, undefined, ◌∙◌,
  ap, Ensures-returns, Returns-Ensures, returns_inj,
}
use cpsc.Text.{Bytes}
use cpsc.Constants.{MessageType}
use cpsc.Message.Types.{view_message_type_as_string-ne}
use cpsc.Message.Parsed.{of_char_vector-defined, of_char_vector-typed}
use cpsc.Message.{DataMessage, of_char_vector, received_vector, view_message_type_as_string}
use cpsc.Connection.{Datagram, Event, datagram, failure}
use cpsc.Server.State.{Server, Result}
use cpsc.Server.State.WellFormed.{IsWellFormed}
use cpsc.Server.Routing.Preserve.{StaysWellFormed}
use cpsc.Server.Listen.{listen_udp, handle_read, handle}
use cpsc.Server.Listen.Handling.{Handles, dispatch-Handles}

module _ {E T : Type 0} where
  -- How the round ends for a datagram that reads as `read`.
  abbrev pub EndsAs : Outcome DataMessage → Server E T → Result E T → Type 0
  EndsAs throws s r = r ≡ returns (s, [])
  EndsAs aborts s r = r ≡ aborts
  EndsAs undefined s r = ⊥
  EndsAs (returns m) s r = Handles m.message_type m s r

  abbrev pub Ends : Event E → Server E T → Result E T → Type 0
  Ends failure s r = r ≡ returns (s, [])
  Ends (datagram sender bytes) s r = EndsAs (of_char_vector (received_vector bytes)) s r

  handle_read-EndsAs :
      (now : T) (sender : E) (read : Outcome DataMessage) (s : Server E T)
      → IsWellFormed s
      → read ≢ undefined
      → ((m : DataMessage)
          → read ≡ returns m
          → (name : Bytes) × (view_message_type_as_string m.message_type ≡ returns name))
      → EndsAs read s (handle_read now sender read s)
  unfolding handle_read
  handle_read-EndsAs now sender throws s w defined typed = refl
  handle_read-EndsAs now sender aborts s w defined typed = refl
  handle_read-EndsAs now sender undefined s w defined typed = defined refl
  handle_read-EndsAs now sender (returns m) s w defined typed =
      let (name, e) = typed m refl in
      rw (e, handle)
        (dispatch-Handles now sender m m.message_type s w
          (view_message_type_as_string-ne m.message_type name e))

  -- Whether the round returns, leaves the server well formed, or fails.
  pub listen_udp-Ends :
      (now : T) (event : Event E) (s : Server E T)
      → IsWellFormed s
      → Ends event s (listen_udp now event s)
  unfolding listen_udp
  listen_udp-Ends now failure s w = refl
  listen_udp-Ends now (datagram sender bytes) s w =
      handle_read-EndsAs now sender (of_char_vector (received_vector bytes)) s w
        (of_char_vector-defined (received_vector bytes))
        (λ m. of_char_vector-typed (received_vector bytes) m)

  Handles-IsWellFormed :
      (t : MessageType) (m : DataMessage) (s : Server E T) {u : Server E T}
      {sent : List (Datagram E)} (r : Result E T)
      → Handles t m s r
      → r ≡ returns (u, sent)
      → IsWellFormed u
  Handles-IsWellFormed t m s r (inl (_, h)) e =
      Ensures-returns StaysWellFormed r e (Returns-Ensures StaysWellFormed r h)
  Handles-IsWellFormed t m s r (inr (_, inl f)) e = cc
  Handles-IsWellFormed t m s r (inr (_, inr f)) e = cc

  EndsAs-IsWellFormed :
      (read : Outcome DataMessage) (s : Server E T) {u : Server E T} {sent : List (Datagram E)}
      (r : Result E T)
      → IsWellFormed s
      → EndsAs read s r
      → r ≡ returns (u, sent)
      → IsWellFormed u
  EndsAs-IsWellFormed throws s {u} r w h e =
      subst IsWellFormed (ap (λ q. q.0) (returns_inj (sym h ∙ e))) w
  EndsAs-IsWellFormed aborts s r w h e = cc
  EndsAs-IsWellFormed undefined s r w h e = absurd h
  EndsAs-IsWellFormed (returns m) s r w h e = Handles-IsWellFormed m.message_type m s r h e

  pub listen_udp-IsWellFormed :
      (now : T) (event : Event E) (s : Server E T) {u : Server E T} {sent : List (Datagram E)}
      → IsWellFormed s
      → listen_udp now event s ≡ returns (u, sent)
      → IsWellFormed u
  listen_udp-IsWellFormed now failure s w e =
      subst IsWellFormed (ap (λ q. q.0) (returns_inj (sym (listen_udp-Ends now failure s w) ∙ e))) w
  listen_udp-IsWellFormed now (datagram sender bytes) s w e =
      EndsAs-IsWellFormed (of_char_vector (received_vector bytes)) s
        (listen_udp now (datagram sender bytes) s) w
        (listen_udp-Ends now (datagram sender bytes) s w) e
