-- ===== src/Server/Routing/Relay.antt =====
-- `processServerRelayMessage`.
use cpsc.Common.{
  ◌<◌, ◌≡◌, ◌≢◌, [], true, arith, pos, ltb_ℤ, returns, aborts, none, some, refl, Bool-cases,
  Option-cases, inl, inr, Option, ◌∙◌, sym, returns_inj, not_of_false, ◌↔◌, ap,
}
use cpsc.Text.{Bytes, equals, equals_iff}
use cpsc.Constants.{highest_server_index, mt_undefined, server_index_to_server_name}
use cpsc.Constants.Identifiers.{index_lookup}
use cpsc.Message.{DataMessage}
use cpsc.Connection.{RemoteConnection}
use cpsc.Server.State.{Server, Result, add_to_message_list}
use cpsc.Server.State.WellFormed.{IsWellFormed}
use cpsc.Server.Routing.{forward, process_server_relay_message}
use cpsc.Server.Routing.Routes.{Forwards, forward-Forwards}

module _ {E T : Type 0} (m : DataMessage) (s : Server E T) where
  -- The message came from the left: its origin index is below the server's.
  abbrev pub FromLeft : Type 0
  FromLeft = ltb_ℤ m.server_sync_payload_origin_index (pos s.index) ≡ true

  -- The destination names the server itself.
  abbrev pub IsForServer : Type 0
  IsForServer = server_index_to_server_name s.index ≡ returns m.destination_identifier

  pub data Relays (r : Result E T) : Type 0 where
    arrives : IsForServer → r ≡ returns (add_to_message_list m s, []) → Relays r
    onwards_right :
        ¬ IsForServer
        → FromLeft
        → s.index < highest_server_index
        → Forwards m s s.right_adjacent_server_connection r
        → Relays r
    onwards_left :
        ¬ IsForServer
        → ¬ FromLeft
        → 0 < s.index
        → Forwards m s s.left_adjacent_server_connection r
        → Relays r
    off_right_end :
        ¬ IsForServer → FromLeft → s.index ≡ highest_server_index → r ≡ aborts → Relays r
    off_left_end : ¬ IsForServer → ¬ FromLeft → s.index ≡ 0 → r ≡ aborts → Relays r

  forward-none : (to : Option (RemoteConnection E T)) → to ≡ none → forward m to s ≡ aborts
  unfolding forward
  forward-none to e = rw e refl

  some-ne-none :
      {o : Option (RemoteConnection E T)} {c : RemoteConnection E T} → o ≡ some c → o ≢ none
  some-ne-none e n = cc

  before_right_end :
      {c : RemoteConnection E T}
      → IsWellFormed s
      → s.right_adjacent_server_connection ≡ some c
      → s.index < highest_server_index
  before_right_end w e =
      let inner : s.index ≢ highest_server_index = λ h. some-ne-none e (w.placed.right_end.1 h) in
      omega (arith, w.placed.in_range)

  past_left_end :
      {c : RemoteConnection E T}
      → IsWellFormed s
      → s.left_adjacent_server_connection ≡ some c
      → 0 < s.index
  past_left_end w e =
      let inner : s.index ≢ 0 = λ h. some-ne-none e (w.placed.left_end.1 h) in omega arith

  relay_right :
      IsWellFormed s
      → m.message_type ≢ mt_undefined
      → ¬ IsForServer
      → FromLeft
      → Relays (forward m s.right_adjacent_server_connection s)
  relay_right w typed elsewhere from_left = elim (Option-cases s.right_adjacent_server_connection) [
    | inl e ↦ off_right_end elsewhere from_left (w.placed.right_end.0 e) (forward-none _ e)
    | inr (c, e) ↦
        onwards_right elsewhere from_left (before_right_end w e)
          (forward-Forwards m s _ typed (some-ne-none e))
  ]

  relay_left :
      IsWellFormed s
      → m.message_type ≢ mt_undefined
      → ¬ IsForServer
      → ¬ FromLeft
      → Relays (forward m s.left_adjacent_server_connection s)
  relay_left w typed elsewhere not_left = elim (Option-cases s.left_adjacent_server_connection) [
    | inl e ↦ off_left_end elsewhere not_left (w.placed.left_end.0 e) (forward-none _ e)
    | inr (c, e) ↦
        onwards_left elsewhere not_left (past_left_end w e)
          (forward-Forwards m s _ typed (some-ne-none e))
  ]

  is_for_server_iff :
      (name : Bytes)
      → server_index_to_server_name s.index ≡ returns name
      → (equals m.destination_identifier name ≡ true) ↔ IsForServer
  is_for_server_iff name named = (
    λ e. named ∙ ap returns (sym ((equals_iff m.destination_identifier name).0 e)),
    λ h. (equals_iff m.destination_identifier name).1 (returns_inj (sym h ∙ named)),
  )

  -- `processServerRelayMessage` keeps a message whose destination is the server's own name, and
  -- else sends it on unchanged, away from the side of its origin index. At the end of the row
  -- where there is no further neighbour the assertion fails.
  pub process_server_relay_message-Relays :
      IsWellFormed s → m.message_type ≢ mt_undefined → Relays (process_server_relay_message m s)
  unfolding process_server_relay_message
  process_server_relay_message-Relays w typed =
      let (name, host, named, _, _) = index_lookup s.index w.placed.in_range in
      elim (Bool-cases (equals m.destination_identifier name)) [
        | inl e ↦ rw (named, e) (arrives ((is_for_server_iff name named).0 e) refl)
        | inr e ↦ elim (Bool-cases (ltb_ℤ m.server_sync_payload_origin_index (pos s.index))) [
          | inl l ↦
              rw (named, e, l)
                (relay_right w typed (not_of_false _ (is_for_server_iff name named) e) l)
          | inr l ↦
              rw (named, e, l)
                (relay_left w typed (not_of_false _ (is_for_server_iff name named) e) (λ h. cc))
        ]
      ]
