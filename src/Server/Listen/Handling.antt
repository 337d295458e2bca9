-- ===== src/Server/Listen/Handling.antt =====
-- What the `switch` of `listenLoopUDP` does with a message of each type.
use cpsc.Common.{
  ℕ, ℤ, pos, ◌<◌, ◌≡◌, ◌≢◌, ◌⊎◌, inl, inr, refl, sym, subst, arith, Bool-cases, not_of_false,
  aborts, undefined, Returns, Returns-map, Returns-of_eq, ltb, ltb_iff, negsuc,
}
use cpsc.Constants.{
  highest_server_index, number_of_servers, MessageType, mt_undefined, mt_client_connect,
  mt_client_disconnect, mt_client_send, mt_client_get, mt_client_ack, mt_server_send, mt_server_ack,
  mt_server_sync, mt_ping,
}
use cpsc.Server.Listen.Hop.{dispatch_sync}
use cpsc.Message.{DataMessage, view_server_sync_payload}
use cpsc.Server.State.{Server, Result}
use cpsc.Server.State.WellFormed.{
  IsWellFormed, add_client_connection-IsWellFormed, remove_client_connection-IsWellFormed,
  set-IsWellFormed, receive_clients_out_of_range,
}
use cpsc.Server.Mailbox.{send_messages_to_client}
use cpsc.Server.Mailbox.Delivery.{Serves, send_messages_to_client-Serves}
use cpsc.Server.Mailbox.Acknowledge.{remove_received_message_from_list-IsWellFormed}
use cpsc.Server.Routing.{process_server_relay_message}
use cpsc.Server.Routing.Relay.{
  FromLeft, IsForServer, Relays, arrives, onwards_left, onwards_right, off_left_end, off_right_end,
  process_server_relay_message-Relays,
}
use cpsc.Server.Routing.Preserve.{StaysWellFormed, process_client_send_message-IsWellFormed}
use cpsc.Server.State.WellFormed.{add_to_message_list-IsWellFormed}
use cpsc.Server.Listen.{dispatch}

-- The list of a sync message has a place in the array.
abbrev pub CanStore : DataMessage → Type 0
CanStore m = (i : ℕ) × (m.server_sync_payload_origin_index ≡ pos i) × (i < number_of_servers)

pub CanStore-cases : (m : DataMessage) → CanStore m ⊎ (¬ CanStore m)
CanStore-cases m = cases m.server_sync_payload_origin_index refl
  where
    cases : (z : ℤ) → m.server_sync_payload_origin_index ≡ z → CanStore m ⊎ (¬ CanStore m)
    cases (pos i) e = elim (Bool-cases (ltb i number_of_servers)) [
      | inl h ↦ inl (i, e, (ltb_iff i number_of_servers).0 h)
      | inr h ↦ inr (λ (j, f, below).
          not_of_false _ (ltb_iff i number_of_servers) h
            (subst (λ k. k < number_of_servers) (cc (e, f)) below))
    ]
    cases (negsuc i) e = inr (λ (j, f, below). cc (e, f))

module _ {E T : Type 0} where
  -- A relayed message has somewhere to go.
  abbrev pub CanRelay : DataMessage → Server E T → Type 0
  CanRelay m s =
      IsForServer m s
      ⊎ ((FromLeft m s × (s.index < highest_server_index)) ⊎ ((¬ FromLeft m s) × (0 < s.index)))

  -- A message that the server can handle.
  abbrev pub CanHandle : MessageType → DataMessage → Server E T → Type 0
  CanHandle mt_undefined m s = ⊥
  CanHandle mt_client_connect m s = Unit
  CanHandle mt_client_disconnect m s = Unit
  CanHandle mt_client_send m s = Unit
  CanHandle mt_client_get m s = Unit
  CanHandle mt_client_ack m s = Unit
  CanHandle mt_server_send m s = CanRelay m s
  CanHandle mt_server_ack m s = Unit
  CanHandle mt_server_sync m s = CanStore m
  CanHandle mt_ping m s = Unit

  abbrev pub Fails : Result E T → Type 0
  Fails r = (r ≡ aborts) ⊎ (r ≡ undefined)

  -- Either the message can be handled, and is, or it cannot, and the program fails.
  abbrev pub Handles : MessageType → DataMessage → Server E T → Result E T → Type 0
  Handles t m s r = (CanHandle t m s × Returns StaysWellFormed r) ⊎ ((¬ CanHandle t m s) × Fails r)

  relay-Handles :
      (m : DataMessage) (s : Server E T)
      → IsWellFormed s
      → (r : Result E T) → Relays m s r
      → Handles mt_server_send m s r
  relay-Handles m s w r (arrives h e) =
      inl (inl h, Returns-of_eq StaysWellFormed r _ e (add_to_message_list-IsWellFormed m w))
  relay-Handles m s w r (onwards_right a b c f) =
      inl (inr (inl (b, c)), Returns-of_eq StaysWellFormed r _ f.result w)
  relay-Handles m s w r (onwards_left a b c f) =
      inl (inr (inr (b, c)), Returns-of_eq StaysWellFormed r _ f.result w)
  relay-Handles m s w r (off_right_end a b c e) = inr (
    (λ h. elim h [
      | inl p ↦ a p
      | inr q ↦ elim q [ inl u ↦ absurd (omega (arith, u.1, c)) | inr v ↦ v.0 b ]
    ]),
    inl e,
  )
  relay-Handles m s w r (off_left_end a b c e) = inr (
    (λ h. elim h [
      | inl p ↦ a p
      | inr q ↦ elim q [ inl u ↦ b u.0 | inr v ↦ absurd (omega (arith, v.1, c)) ]
    ]),
    inl e,
  )

  sync-Handles :
      (now : T) (sender : E) (m : DataMessage) (s : Server E T)
      → IsWellFormed s
      → Handles mt_server_sync m s (dispatch now sender m mt_server_sync s)
  unfolding dispatch
  sync-Handles now sender m s w = elim (CanStore-cases m) [
    | inl (i, e, inside) ↦ inl (
      (i, e, inside),
      Returns-of_eq StaysWellFormed (dispatch now sender m mt_server_sync s) _
          (dispatch_sync now sender m i (view_server_sync_payload m) s e inside refl)
          (set-IsWellFormed i (view_server_sync_payload m) s w),
    )
    | inr outside ↦ inr (outside, inr (rw (receive_clients_out_of_range m s outside) refl))
  ]

  pub dispatch-Handles :
      (now : T) (sender : E) (m : DataMessage) (t : MessageType) (s : Server E T)
      → IsWellFormed s
      → m.message_type ≢ mt_undefined
      → Handles t m s (dispatch now sender m t s)
  unfolding dispatch
  dispatch-Handles now sender m mt_undefined s w typed = inr ((λ h. h), inl refl)
  dispatch-Handles now sender m mt_client_connect s w typed =
      inl (tt, add_client_connection-IsWellFormed m.source_identifier sender now w)
  dispatch-Handles now sender m mt_client_disconnect s w typed =
      inl (tt, remove_client_connection-IsWellFormed m.source_identifier w)
  dispatch-Handles now sender m mt_client_send s w typed =
      inl (tt, process_client_send_message-IsWellFormed m s w typed)
  dispatch-Handles now sender m mt_client_get s w typed = inl (
    tt,
    Returns-map (λ r. (r.0 ≡ s) × Serves m.source_identifier s.connected_clients s.message_list r.1)
        StaysWellFormed (send_messages_to_client m.source_identifier s)
        (send_messages_to_client-Serves m.source_identifier s w)
        (λ r h. subst IsWellFormed (sym h.0) w),
  )
  dispatch-Handles now sender m mt_client_ack s w typed =
      inl (tt, remove_received_message_from_list-IsWellFormed m w)
  dispatch-Handles now sender m mt_server_send s w typed =
      relay-Handles m s w (process_server_relay_message m s)
        (process_server_relay_message-Relays m s w typed)
  dispatch-Handles now sender m mt_server_ack s w typed = inl (tt, w)
  dispatch-Handles now sender m mt_server_sync s w typed = sync-Handles now sender m s w
  dispatch-Handles now sender m mt_ping s w typed = inl (tt, w)
