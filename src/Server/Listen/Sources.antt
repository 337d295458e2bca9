-- ===== src/Server/Listen/Sources.antt =====
-- Where the messages in a server's two lists come from.
use cpsc.Common.{
  Bool, ℕ, ◌<◌, ◌≡◌, List, [], ◌∷◌, refl, ap, subst, Outcome, returns, Ensures-returns, All, Holds,
  inl, inr,
}
use cpsc.Text.{Bytes}
use cpsc.Constants.{number_of_servers, MessageType}
use cpsc.Message.{DataMessage, of_char_vector, received_vector, set_message_type}
use cpsc.Connection.{datagram, failure}
use cpsc.Server.State.{Server, construct}
use cpsc.Server.State.WellFormed.{IsWellFormed}
use cpsc.Server.State.Construct.{new_server, constructed-new_server, new_server-IsWellFormed}
use cpsc.Server.Routing.{attempt_forward}
use cpsc.Server.Sync.{send_sync_payloads}
use cpsc.Server.Listen.{listen_udp}
use cpsc.Server.Listen.Reach.{Reach, listens, forwards, syncs, here, next, Reach-IsWellFormed}
use cpsc.Server.Listen.Carried.{
  AllMessages, listen_udp-AllMessages, listen_udp-failure-AllMessages, attempt_forward-AllMessages,
  send_sync_payloads-AllMessages,
}

-- The message was read from one of these datagrams, and its type may have been set.
pub record IsReadFrom (datagrams : List Bytes) (m : DataMessage) : Type 0 where
  pub bytes : Bytes
  pub arrived : Holds bytes datagrams
  pub source : DataMessage
  pub read : of_char_vector (received_vector bytes) ≡ returns source
  pub same : m ≡ set_message_type m.message_type source

retyped-IsReadFrom :
    (datagrams : List Bytes) (m : DataMessage) (t : MessageType)
    → IsReadFrom datagrams m
    → IsReadFrom datagrams (set_message_type t m)
retyped-IsReadFrom datagrams m t r = record {
  bytes = r.bytes;
  arrived = r.arrived;
  source = r.source;
  read = r.read;
  same = ap (set_message_type t) r.same;
}

IsReadFrom-cons :
    (bytes : Bytes) (datagrams : List Bytes) (m : DataMessage)
    → IsReadFrom datagrams m
    → IsReadFrom (bytes ∷ datagrams) m
IsReadFrom-cons bytes datagrams m r = record {
  bytes = r.bytes;
  arrived = inr r.arrived;
  source = r.source;
  read = r.read;
  same = r.same;
}

read-IsReadFrom :
    (bytes : Bytes) (datagrams : List Bytes) (m : DataMessage)
    → of_char_vector (received_vector bytes) ≡ returns m
    → IsReadFrom (bytes ∷ datagrams) m
read-IsReadFrom bytes datagrams m e = record {
  bytes = bytes;
  arrived = inl refl;
  source = m;
  read = e;
  same = refl;
}

All-IsReadFrom-cons :
    (bytes : Bytes) (datagrams : List Bytes) (ms : List DataMessage)
    → All (IsReadFrom datagrams) ms
    → All (IsReadFrom (bytes ∷ datagrams)) ms
All-IsReadFrom-cons bytes datagrams [] h = tt
All-IsReadFrom-cons bytes datagrams (m ∷ ms) h =
    (IsReadFrom-cons bytes datagrams m h.0, All-IsReadFrom-cons bytes datagrams ms h.1)

module _ {E T : Type 0} where
  -- The datagrams that have arrived, the last one first.
  abbrev pub received : {s t : Server E T} → Reach s t → List Bytes
  received here = []
  received (next sent r (listens now failure e)) = received r
  received (next sent r (listens now (datagram sender bytes) e)) = bytes ∷ received r
  received (next sent r (forwards e)) = received r
  received (next sent r (syncs e)) = received r

  Reach-IsReadFrom :
      {s t : Server E T}
      → IsWellFormed s
      → AllMessages (IsReadFrom []) s
      → (run : Reach s t) → AllMessages (IsReadFrom (received run)) t
  Reach-IsReadFrom w h here = h
  Reach-IsReadFrom w h (next {t = t} sent r (listens now failure e)) =
      Ensures-returns _ (listen_udp now failure t) e (
        listen_udp-failure-AllMessages (IsReadFrom (received r)) (retyped-IsReadFrom (received r)) t
          (Reach-IsReadFrom w h r) now)
  Reach-IsReadFrom w h (next {t = t} sent r (listens now (datagram sender bytes) e)) =
      let (kept, held) = Reach-IsReadFrom w h r in
      Ensures-returns _ (listen_udp now (datagram sender bytes) t) e (
        listen_udp-AllMessages (IsReadFrom (bytes ∷ received r))
          (retyped-IsReadFrom (bytes ∷ received r)) t
          (
            All-IsReadFrom-cons bytes (received r) t.message_list kept,
            All-IsReadFrom-cons bytes (received r) t.message_list_of_unassociated_clients held,
          )
          now sender bytes (Reach-IsWellFormed w r) (read-IsReadFrom bytes (received r)))
  Reach-IsReadFrom w h (next {t = t} sent r (forwards e)) =
      Ensures-returns _ (attempt_forward t) e (
        attempt_forward-AllMessages (IsReadFrom (received r)) (retyped-IsReadFrom (received r)) t
          (Reach-IsReadFrom w h r) (Reach-IsWellFormed w r))
  Reach-IsReadFrom w h (next {t = t} sent r (syncs e)) =
      Ensures-returns _ (send_sync_payloads t) e (
        send_sync_payloads-AllMessages (IsReadFrom (received r)) (retyped-IsReadFrom (received r)) t
          (Reach-IsReadFrom w h r) (Reach-IsWellFormed w r))

  new_server-AllMessages :
      (resolve : Bytes → Bytes → Outcome E) (now : T) (endpoint : Bytes → Bytes → E) (i : ℕ)
      → AllMessages (IsReadFrom []) (new_server resolve now endpoint i)
  unfolding new_server
  new_server-AllMessages resolve now endpoint i = (tt, tt)

  -- A server makes no message up. Whatever arrives at a newly constructed server, and in whatever
  -- order its threads do their rounds, each message in its two lists was read from a datagram that
  -- has arrived, and nothing but its type was set; if every host name resolves.
  pub construct-IsReadFrom :
      (resolve : Bytes → Bytes → Outcome E) (now : T) (endpoint : Bytes → Bytes → E)
      (port_is_free : ℕ → Bool) (port i : ℕ) {s t : Server E T}
      → ((host port : Bytes) → resolve host port ≡ returns (endpoint host port))
      → i < number_of_servers
      → construct resolve now port_is_free port i ≡ returns s
      → (run : Reach s t) → AllMessages (IsReadFrom (received run)) t
  construct-IsReadFrom resolve now endpoint port_is_free port i {s} {t} resolves inside e run =
      let made =
        constructed-new_server resolve now endpoint resolves port_is_free port i inside e in
      Reach-IsReadFrom
        (subst IsWellFormed made (new_server-IsWellFormed resolve now endpoint i inside))
        (subst (AllMessages (IsReadFrom [])) made (new_server-AllMessages resolve now endpoint i))
        run
