-- ===== src/Server/Threads/Runs.antt =====
-- What one round of a thread does on a well-formed server.
use cpsc.Common.{
  ◌≡◌, [], ◌∷◌, List, subst, All, inl, inr, ◌⊎◌, ℕ, ◌<◌, Outcome, returns, throws, aborts,
  undefined, Ensures, Returns, Returns-of_eq, pos, ltb_ℤ, true,
}
use cpsc.Constants.{
  MessageType, mt_undefined, mt_client_connect, mt_client_disconnect, mt_client_send, mt_client_get,
  mt_client_ack, mt_server_send, mt_server_ack, mt_server_sync, mt_ping, highest_server_index,
  server_index_to_server_name,
}
use cpsc.Message.{DataMessage, of_char_vector, received_vector}
use cpsc.Connection.{Event, datagram, failure}
use cpsc.Server.State.{Server, Result}
use cpsc.Server.State.WellFormed.{IsWellFormed}
use cpsc.Server.Routing.Preserve.{StaysWellFormed, attempt_forward-IsWellFormed}
use cpsc.Server.Listen.Handling.{CanHandle, Handles}
use cpsc.Server.Listen.Endings.{EndsAs, listen_udp-Ends}
use cpsc.Server.Listen.Reach.{send_sync_payloads-IsWellFormed}
use cpsc.Server.Listen.Keeps.{
  Keeps, unchanged, listen_udp-Keeps, attempt_forward-Keeps, send_sync_payloads-Keeps,
}
use cpsc.Server.Listen.{listen_udp}
use cpsc.Server.Threads.{
  Round, listen_loop_udp, listen_loop_bluetooth, sync_loop, forward_loop, do_round,
}

module _ {E T : Type 0} where
  -- What was read can be dropped or handled.
  abbrev pub CanTake : Outcome DataMessage → Server E T → Type 0
  CanTake throws s = Unit
  CanTake aborts s = ⊥
  CanTake undefined s = ⊥
  CanTake (returns m) s = CanHandle m.message_type m s

  abbrev pub CanReceive : Event E → Server E T → Type 0
  CanReceive failure s = Unit
  CanReceive (datagram sender bytes) s = CanTake (of_char_vector (received_vector bytes)) s

  -- The round does not make the program fail.
  abbrev pub IsHarmless : Server E T → Round E T → Type 0
  IsHarmless s (listen_loop_udp now event) = CanReceive event s
  IsHarmless s listen_loop_bluetooth = Unit
  IsHarmless s sync_loop = Unit
  IsHarmless s forward_loop = Unit

  -- Whether a round is harmless depends on the server's index alone.
  CanHandle-index :
      (t : MessageType) (m : DataMessage) (s u : Server E T)
      → s.index ≡ u.index
      → CanHandle t m s
      → CanHandle t m u
  CanHandle-index mt_undefined m s u e h = h
  CanHandle-index mt_client_connect m s u e h = h
  CanHandle-index mt_client_disconnect m s u e h = h
  CanHandle-index mt_client_send m s u e h = h
  CanHandle-index mt_client_get m s u e h = h
  CanHandle-index mt_client_ack m s u e h = h
  CanHandle-index mt_server_send m s u e h =
      subst
        (λ (i : ℕ).
          (server_index_to_server_name i ≡ returns m.destination_identifier)
          ⊎ (((ltb_ℤ m.server_sync_payload_origin_index (pos i) ≡ true)
                × (i < highest_server_index))
              ⊎ ((¬ (ltb_ℤ m.server_sync_payload_origin_index (pos i) ≡ true)) × (0 < i))))
        e h
  CanHandle-index mt_server_ack m s u e h = h
  CanHandle-index mt_server_sync m s u e h = h
  CanHandle-index mt_ping m s u e h = h

  CanTake-index :
      (read : Outcome DataMessage) (s u : Server E T)
      → s.index ≡ u.index
      → CanTake read s
      → CanTake read u
  CanTake-index throws s u e h = h
  CanTake-index aborts s u e h = h
  CanTake-index undefined s u e h = h
  CanTake-index (returns m) s u e h = CanHandle-index m.message_type m s u e h

  IsHarmless-index :
      (s u : Server E T) (round : Round E T)
      → s.index ≡ u.index
      → IsHarmless s round
      → IsHarmless u round
  IsHarmless-index s u (listen_loop_udp now failure) e h = h
  IsHarmless-index s u (listen_loop_udp now (datagram sender bytes)) e h =
      CanTake-index (of_char_vector (received_vector bytes)) s u e h
  IsHarmless-index s u listen_loop_bluetooth e h = h
  IsHarmless-index s u sync_loop e h = h
  IsHarmless-index s u forward_loop e h = h

  pub All-IsHarmless-index :
      (s u : Server E T) (rounds : List (Round E T))
      → s.index ≡ u.index
      → All (IsHarmless s) rounds
      → All (IsHarmless u) rounds
  All-IsHarmless-index s u [] e h = tt
  All-IsHarmless-index s u (round ∷ rounds) e h =
      (IsHarmless-index s u round e h.0, All-IsHarmless-index s u rounds e h.1)

  Handles-StaysWellFormed :
      (t : MessageType) (m : DataMessage) (s : Server E T) (r : Result E T)
      → CanHandle t m s
      → Handles t m s r
      → Returns StaysWellFormed r
  Handles-StaysWellFormed t m s r can (inl (_, h)) = h
  Handles-StaysWellFormed t m s r can (inr (cannot, _)) = absurd (cannot can)

  EndsAs-StaysWellFormed :
      (read : Outcome DataMessage) (s : Server E T) (r : Result E T)
      → IsWellFormed s
      → CanTake read s
      → EndsAs read s r
      → Returns StaysWellFormed r
  EndsAs-StaysWellFormed throws s r w can e = Returns-of_eq StaysWellFormed r _ e w
  EndsAs-StaysWellFormed aborts s r w can e = absurd can
  EndsAs-StaysWellFormed undefined s r w can e = absurd can
  EndsAs-StaysWellFormed (returns m) s r w can e =
      Handles-StaysWellFormed m.message_type m s r can e

  pub do_round-IsWellFormed :
      (s : Server E T) (round : Round E T)
      → IsWellFormed s
      → IsHarmless s round
      → Returns StaysWellFormed (do_round round s)
  unfolding do_round
  do_round-IsWellFormed s (listen_loop_udp now failure) w h =
      Returns-of_eq StaysWellFormed (listen_udp now failure s) _ (listen_udp-Ends now failure s w) w
  do_round-IsWellFormed s (listen_loop_udp now (datagram sender bytes)) w h =
      EndsAs-StaysWellFormed (of_char_vector (received_vector bytes)) s
        (listen_udp now (datagram sender bytes) s) w h
        (listen_udp-Ends now (datagram sender bytes) s w)
  do_round-IsWellFormed s listen_loop_bluetooth w h = w
  do_round-IsWellFormed s sync_loop w h = send_sync_payloads-IsWellFormed s w
  do_round-IsWellFormed s forward_loop w h = attempt_forward-IsWellFormed s w

  pub do_round-Keeps :
      (s : Server E T) (round : Round E T) → IsWellFormed s → Ensures (Keeps s) (do_round round s)
  unfolding do_round
  do_round-Keeps s (listen_loop_udp now event) w = listen_udp-Keeps s now event w
  do_round-Keeps s listen_loop_bluetooth w = unchanged s
  do_round-Keeps s sync_loop w = send_sync_payloads-Keeps s w
  do_round-Keeps s forward_loop w = attempt_forward-Keeps s w
