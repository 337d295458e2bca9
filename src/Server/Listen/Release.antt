-- ===== src/Server/Listen/Release.antt =====
-- A sync message that names the clients that messages wait for, and the next round of
-- `attemptForward`.
use cpsc.Common.{ℕ, ℤ, pos, ◌<◌, List, [], ◌∷◌, ◌≡◌, ◌≢◌, All, Holds, Returns, ◌>>=◌}
use cpsc.Text.{Bytes}
use cpsc.Constants.{number_of_servers, mt_server_sync}
use cpsc.Message.{DataMessage, sync_message}
use cpsc.Message.SyncPayload.{IsListable}
use cpsc.Connection.{datagram}
use cpsc.Server.State.{Server}
use cpsc.Server.State.WellFormed.{IsWellFormed, set-IsWellFormed}
use cpsc.Server.Routing.{attempt_forward}
use cpsc.Server.Routing.Drain.{AllKnown, with_list, listed-IsKnown, attempt_forward-drained}
use cpsc.Server.Listen.{listen_udp}
use cpsc.Server.Listen.Hop.{IsCarried, listen_udp-sync_message}

abbrev pub AllListed : List Bytes → List DataMessage → Type 0
AllListed clients ms = All (λ m. Holds m.destination_identifier clients) ms

module _ {E T : Type 0} where
  listed-AllKnown :
      (s : Server E T) (i : ℕ) (clients : List Bytes) (ms : List DataMessage)
      → IsWellFormed s
      → i < number_of_servers
      → i ≢ s.index
      → AllListed clients ms
      → AllKnown (with_list i clients s) ms
  listed-AllKnown s i clients [] w inside other h = tt
  listed-AllKnown s i clients (m ∷ ms) w inside other h = (
    listed-IsKnown s i clients m.destination_identifier w inside other h.0,
    listed-AllKnown s i clients ms w inside other h.1,
  )

  -- A sync message of another server that names every client that a message waits for releases
  -- all these messages: after the receipt and one round of `attemptForward` none waits; if the
  -- server is well formed and the sync message can be carried, its names hold no comma, and its
  -- origin is in the row.
  pub attempt_forward-listen_udp :
      (now : T) (sender : E) (n : ℤ) (source destination bytes : Bytes) (clients : List Bytes)
      (i : ℕ) (s : Server E T)
      → IsWellFormed s
      → All IsListable clients
      → i < number_of_servers
      → i ≢ s.index
      → IsCarried (sync_message n mt_server_sync source destination clients (pos i)) bytes
      → AllListed clients s.message_list_of_unassociated_clients
      → Returns
          (λ r. r.0.message_list_of_unassociated_clients ≡ [])
          (listen_udp now (datagram sender bytes) s >>= λ r. attempt_forward r.0)
  attempt_forward-listen_udp now sender n source destination bytes clients i s w names inside other
        carried listed =
      rw
        (listen_udp-sync_message now sender n source destination bytes clients i s names inside
          carried)
        (attempt_forward-drained (with_list i clients s) (set-IsWellFormed i clients s w) (
          listed-AllKnown s i clients s.message_list_of_unassociated_clients w inside other listed))
