-- ===== src/Client/Threads/Runs.antt =====
-- What one round of a thread does on a client that is running.
use cpsc.Common.{
  ℤ, ◌<◌, ◌≡◌, [], ◌∷◌, List, Bool, true, false, refl, increment64, if◌then◌else◌, Outcome, returns,
  throws, aborts, undefined, Returns, Returns-of_eq, Returns-bind,
}
use cpsc.Text.{Bytes, codes}
use cpsc.Constants.{
  MessageType, mt_undefined, mt_client_connect, mt_client_disconnect, mt_client_send, mt_client_get,
  mt_client_ack, mt_server_send, mt_server_ack, mt_server_sync, mt_ping, number_of_servers,
}
use cpsc.Constants.Identifiers.{index_lookup}
use cpsc.Message.{DataMessage, text_message, of_char_vector, received_vector}
use cpsc.Server.Routing.Routes.{as_char_vector-total}
use cpsc.Connection.{Event, datagram, failure}
use cpsc.Client.{
  Client, Result, Effect, p_udp, get_round, input_round, receive_round, receive_over_udp, react,
  react_to_read, send_over_udp, next_sequence_number, is_command,
}
use cpsc.Client.Input.{first_word, Enters, refused, submitted, input_round-Enters}
use cpsc.Client.Receive.{react-Receives}
use cpsc.Client.Threads.{Round, get_loop, input_loop, receive_loop, do_round}

-- The rounds that make a message with a number of the client's own.
abbrev pub takes_number : {E : Type 0} → Round E → Bool
takes_number get_loop = true
takes_number (input_loop line) = is_command (first_word line)
takes_number (receive_loop event) = false

-- What a client that receives this does not fail on.
abbrev pub CanReact : MessageType → Type 0
CanReact mt_undefined = ⊥
CanReact mt_client_connect = ⊥
CanReact mt_client_disconnect = ⊥
CanReact mt_client_send = ⊥
CanReact mt_client_get = ⊥
CanReact mt_client_ack = ⊥
CanReact mt_server_send = Unit
CanReact mt_server_ack = ⊥
CanReact mt_server_sync = ⊥
CanReact mt_ping = Unit

abbrev pub CanTake : Outcome DataMessage → Type 0
CanTake throws = Unit
CanTake aborts = ⊥
CanTake undefined = ⊥
CanTake (returns m) = CanReact m.message_type

abbrev pub IsHarmless : {E : Type 0} → Round E → Type 0
IsHarmless get_loop = Unit
IsHarmless (input_loop line) = Unit
IsHarmless (receive_loop failure) = Unit
IsHarmless (receive_loop (datagram sender bytes)) = CanTake (of_char_vector (received_vector bytes))

module _ {E : Type 0} where
  -- A client as its constructor leaves it, of one of the five servers.
  pub record IsRunning (c : Client E) : Type 0 where
    pub udp : c.active_protocol ≡ p_udp
    pub live : c.terminate ≡ false
    pub inside : c.server_index < number_of_servers

  -- The same client, but for its sequence number and the endpoint of its server.
  pub record SameUser (c : Client E) (n : ℤ) (r : Client E × List (Effect E)) : Type 0 where
    pub running : IsRunning r.0
    pub number : r.0.sequence_number ≡ n
    pub username : r.0.username ≡ c.username
    pub server_index : r.0.server_index ≡ c.server_index

  same_user :
      (c : Client E) (n : ℤ) (to : E) (effects : List (Effect E))
      → IsRunning c
      → SameUser c n (record c { sequence_number = n; server_end_point = to }, effects)
  same_user c n to effects w = record {
    running = record { udp = w.udp; live = w.live; inside = w.inside };
    number = refl;
    username = refl;
    server_index = refl;
  }

  get_round-SameUser :
      (c : Client E)
      → IsRunning c
      → Returns (SameUser c (increment64 c.sequence_number)) (get_round c)
  unfolding get_round send_over_udp next_sequence_number
  get_round-SameUser c w =
      let (name, _, named, _, _) = index_lookup c.server_index w.inside in
      let (bytes, e) =
        as_char_vector-total
          (text_message (increment64 c.sequence_number) mt_client_get c.username name
            (codes "blank"))
          (λ u. cc) in
      rw (named, e) (same_user c (increment64 c.sequence_number) c.server_end_point _ w)

  input_round-SameUser :
      (line : Bytes) (c : Client E) (r : Result E)
      → IsRunning c
      → Enters line c r
      → Returns
          (SameUser c (
            if is_command (first_word line)
            then increment64 c.sequence_number
            else c.sequence_number))
          r
  input_round-SameUser line c r w (refused no_command e) =
      rw no_command (Returns-of_eq _ r _ e (same_user c c.sequence_number c.server_end_point _ w))
  input_round-SameUser line c r w (submitted command s) = rw command (
      Returns-of_eq _ r _ s.result
        (same_user c (increment64 c.sequence_number) c.server_end_point _ w))

  react-SameUser :
      (m : DataMessage) (t : MessageType) (sender : E) (c : Client E)
      → IsRunning c
      → CanReact t
      → Returns (SameUser c c.sequence_number) (react m t (record c { server_end_point = sender }))
  unfolding react
  react-SameUser m mt_server_send sender c w can =
      let acked = react-Receives m sender c w.inside in
      Returns-of_eq (SameUser c c.sequence_number)
        (react m mt_server_send (record c { server_end_point = sender })) _ acked.result
        (same_user c c.sequence_number sender _ w)
  react-SameUser m mt_ping sender c w can = same_user c c.sequence_number sender _ w
  react-SameUser m mt_undefined sender c w can = can
  react-SameUser m mt_client_connect sender c w can = can
  react-SameUser m mt_client_disconnect sender c w can = can
  react-SameUser m mt_client_send sender c w can = can
  react-SameUser m mt_client_get sender c w can = can
  react-SameUser m mt_client_ack sender c w can = can
  react-SameUser m mt_server_ack sender c w can = can
  react-SameUser m mt_server_sync sender c w can = can

  react_to_read-SameUser :
      (bytes : Bytes) (read : Outcome DataMessage) (sender : E) (c : Client E)
      → IsRunning c
      → CanTake read
      → Returns
          (SameUser c c.sequence_number)
          (react_to_read bytes read (record c { server_end_point = sender }))
  unfolding react_to_read
  react_to_read-SameUser bytes throws sender c w can = same_user c c.sequence_number sender _ w
  react_to_read-SameUser bytes aborts sender c w can = can
  react_to_read-SameUser bytes undefined sender c w can = can
  react_to_read-SameUser [] (returns m) sender c w can = same_user c c.sequence_number sender _ w
  react_to_read-SameUser (b ∷ bytes) (returns m) sender c w can =
      react-SameUser m m.message_type sender c w can

  receive_over_udp-SameUser :
      (event : Event E) (c : Client E)
      → IsRunning c
      → IsHarmless (receive_loop event)
      → Returns (SameUser c c.sequence_number) (receive_over_udp event c)
  unfolding receive_over_udp
  receive_over_udp-SameUser failure c w can = same_user c c.sequence_number c.server_end_point _ w
  receive_over_udp-SameUser (datagram sender bytes) c w can =
      react_to_read-SameUser bytes (of_char_vector (received_vector bytes)) sender c w can

  -- The number behind a round.
  abbrev pub number_after : Round E → ℤ → ℤ
  number_after round n = if takes_number round then increment64 n else n

  pub do_round-SameUser :
      (round : Round E) (c : Client E)
      → IsRunning c
      → IsHarmless round
      → Returns (SameUser c (number_after round c.sequence_number)) (do_round round c)
  unfolding do_round receive_round
  do_round-SameUser get_loop c w can = get_round-SameUser c w
  do_round-SameUser (input_loop line) c w can =
      input_round-SameUser line c (input_round line c) w (input_round-Enters line c w.udp)
  do_round-SameUser (receive_loop event) c w can =
      Returns-bind (SameUser c c.sequence_number) (SameUser c c.sequence_number)
        (receive_over_udp event c) _ (receive_over_udp-SameUser event c w can)
        (λ r same. record {
          running = same.running;
          number = same.number;
          username = same.username;
          server_index = same.server_index;
        })
