-- ===== src/Server/Listen/Reach.antt =====
-- The rounds of the three working threads of a server, in any order. A round is taken as one
-- step: the program does not lock its members, and a data race is outside the model.
use cpsc.Common.{
  Bool, ℕ, ◌<◌, List, ◌≡◌, sym, subst, Outcome, returns, Returns, Returns-map, Ensures-returns,
  Returns-Ensures,
}
use cpsc.Text.{Bytes}
use cpsc.Constants.{number_of_servers}
use cpsc.Connection.{Datagram, Event}
use cpsc.Server.State.{Server, Result, construct}
use cpsc.Server.State.WellFormed.{IsWellFormed}
use cpsc.Server.State.Construct.{constructed-new_server, new_server-IsWellFormed}
use cpsc.Server.Routing.{attempt_forward}
use cpsc.Server.Routing.Preserve.{StaysWellFormed, attempt_forward-IsWellFormed}
use cpsc.Server.Sync.{send_sync_payloads}
use cpsc.Server.Sync.Round.{SyncRound, send_sync_payloads-SyncRound, refresh-IsWellFormed}
use cpsc.Server.Listen.{listen_udp}
use cpsc.Server.Listen.Endings.{listen_udp-IsWellFormed}
use cpsc.Server.Listen.Keeps.{
  Keeps, listen_udp-Keeps, attempt_forward-Keeps, send_sync_payloads-Keeps,
}

module _ {E T : Type 0} where
  -- One round of one thread, and what it sends.
  pub data Step (s t : Server E T) (sent : List (Datagram E)) : Type 0 where
    listens :
        (now : T) (event : Event E) → listen_udp now event s ≡ returns (t, sent) → Step s t sent
    forwards : attempt_forward s ≡ returns (t, sent) → Step s t sent
    syncs : send_sync_payloads s ≡ returns (t, sent) → Step s t sent

  pub data Reach (s : Server E T) : Server E T → Type 0 where
    here : Reach s s
    next : {t u : Server E T} (sent : List (Datagram E)) → Reach s t → Step t u sent → Reach s u

  returned-IsWellFormed :
      (r : Result E T) (t : Server E T) (sent : List (Datagram E))
      → Returns StaysWellFormed r
      → r ≡ returns (t, sent)
      → IsWellFormed t
  returned-IsWellFormed r t sent h e =
      Ensures-returns StaysWellFormed r e (Returns-Ensures StaysWellFormed r h)

  pub send_sync_payloads-IsWellFormed :
      (s : Server E T) → IsWellFormed s → Returns StaysWellFormed (send_sync_payloads s)
  send_sync_payloads-IsWellFormed s w =
      Returns-map (SyncRound s) StaysWellFormed (send_sync_payloads s)
        (send_sync_payloads-SyncRound s w)
        (λ r round. subst IsWellFormed (sym round.state) (refresh-IsWellFormed s round.last w))

  pub Step-IsWellFormed :
      {s t : Server E T} {sent : List (Datagram E)}
      → IsWellFormed s
      → Step s t sent
      → IsWellFormed t
  Step-IsWellFormed {s} {t} {sent} w (listens now event e) = listen_udp-IsWellFormed now event s w e
  Step-IsWellFormed {s} {t} {sent} w (forwards e) =
      returned-IsWellFormed (attempt_forward s) t sent (attempt_forward-IsWellFormed s w) e
  Step-IsWellFormed {s} {t} {sent} w (syncs e) =
      returned-IsWellFormed (send_sync_payloads s) t sent (send_sync_payloads-IsWellFormed s w) e

  pub Step-Keeps :
      {s t : Server E T} {sent : List (Datagram E)}
      → IsWellFormed s
      → Step s t sent
      → Keeps s (t, sent)
  Step-Keeps {s} {t} {sent} w (listens now event e) =
      Ensures-returns (Keeps s) (listen_udp now event s) e (listen_udp-Keeps s now event w)
  Step-Keeps {s} {t} {sent} w (forwards e) =
      Ensures-returns (Keeps s) (attempt_forward s) e (attempt_forward-Keeps s w)
  Step-Keeps {s} {t} {sent} w (syncs e) =
      Ensures-returns (Keeps s) (send_sync_payloads s) e (send_sync_payloads-Keeps s w)

  pub Reach-IsWellFormed : {s t : Server E T} → IsWellFormed s → Reach s t → IsWellFormed t
  Reach-IsWellFormed w here = w
  Reach-IsWellFormed w (next sent r step) = Step-IsWellFormed (Reach-IsWellFormed w r) step

  -- Every state that the threads of a newly constructed server can reach, in any order of their
  -- rounds and whatever arrives, is well formed; and in it the forwarding and the sync thread can
  -- always do a round: no assertion of theirs fails and no index is out of bounds.
  pub construct-Reach :
      (resolve : Bytes → Bytes → Outcome E) (now : T) (endpoint : Bytes → Bytes → E)
      (port_is_free : ℕ → Bool) (port i : ℕ) {s t : Server E T}
      → ((host port : Bytes) → resolve host port ≡ returns (endpoint host port))
      → i < number_of_servers
      → construct resolve now port_is_free port i ≡ returns s
      → Reach s t
      → IsWellFormed t
        × Returns StaysWellFormed (attempt_forward t)
        × Returns StaysWellFormed (send_sync_payloads t)
  construct-Reach resolve now endpoint port_is_free port i {s} {t} resolves inside e r =
      let start : IsWellFormed s =
        subst IsWellFormed
          (constructed-new_server resolve now endpoint resolves port_is_free port i inside e)
          (new_server-IsWellFormed resolve now endpoint i inside) in
      let w = Reach-IsWellFormed start r in
      (w, attempt_forward-IsWellFormed t w, send_sync_payloads-IsWellFormed t w)
