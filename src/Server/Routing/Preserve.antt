-- ===== src/Server/Routing/Preserve.antt =====
-- The routing functions keep the server well formed.
use cpsc.Common.{
  [], List, ◌≢◌, refl, sym, subst, All, All-append, Returns, Returns-map, Returns-of_eq,
}
use cpsc.Constants.{mt_undefined}
use cpsc.Message.{DataMessage}
use cpsc.Connection.{Datagram}
use cpsc.Server.State.{Server, Result}
use cpsc.Server.State.WellFormed.{
  IsWellFormed, IsKept, IsWaiting, add_to_message_list-IsWellFormed,
  add_to_message_list_of_unassociated_clients-IsWellFormed,
}
use cpsc.Server.Routing.{process_client_send_message, attempt_forward}
use cpsc.Server.Routing.Routes.{
  Routes, stays, leftwards, rightwards, waits, process_client_send_message-Routes,
}
use cpsc.Server.Routing.Waiting.{
  Sorts, Sorted, done, keep, pass_left, pass_right, hold, attempt_forward-Sorted,
}

module _ {E T : Type 0} where
  abbrev pub StaysWellFormed : Server E T × List (Datagram E) → Type 0
  StaysWellFormed r = IsWellFormed r.0

  Routes-IsWellFormed :
      (m : DataMessage) (s : Server E T) (r : Result E T)
      → IsWellFormed s
      → Routes m s r
      → Returns StaysWellFormed r
  Routes-IsWellFormed m s r w (stays h e) =
      Returns-of_eq StaysWellFormed r _ e (add_to_message_list-IsWellFormed m w)
  Routes-IsWellFormed m s r w (leftwards a b f) = Returns-of_eq StaysWellFormed r _ f.result w
  Routes-IsWellFormed m s r w (rightwards a b c f) = Returns-of_eq StaysWellFormed r _ f.result w
  Routes-IsWellFormed m s r w (waits a b c e) =
      Returns-of_eq StaysWellFormed r _ e
        (add_to_message_list_of_unassociated_clients-IsWellFormed m w)

  pub process_client_send_message-IsWellFormed :
      (m : DataMessage) (s : Server E T)
      → IsWellFormed s
      → m.message_type ≢ mt_undefined
      → Returns StaysWellFormed (process_client_send_message m s)
  process_client_send_message-IsWellFormed m s w typed =
      Routes-IsWellFormed m s (process_client_send_message m s) w
        (process_client_send_message-Routes m s w typed)

  Sorts-All :
      (s : Server E T) {ms k h : List DataMessage} {o : List (Datagram E)}
      → Sorts s ms k h o
      → All IsKept k × All IsWaiting h
  Sorts-All s done = (tt, tt)
  Sorts-All s (keep a r) = let (p, q) = Sorts-All s r in ((refl, p), q)
  Sorts-All s (pass_left d a b c r) = Sorts-All s r
  Sorts-All s (pass_right d a b c e r) = Sorts-All s r
  Sorts-All s (hold a b c r) = let (p, q) = Sorts-All s r in (p, (refl, q))

  pub attempt_forward-IsWellFormed :
      (s : Server E T) → IsWellFormed s → Returns StaysWellFormed (attempt_forward s)
  attempt_forward-IsWellFormed s w =
      Returns-map (Sorted s s.message_list_of_unassociated_clients s.message_list [])
        StaysWellFormed (attempt_forward s) (attempt_forward-Sorted s w)
        (λ r q.
          let (k, h) = Sorts-All s q.sorts in
          subst IsWellFormed (sym q.state) (record {
            placed = w.placed;
            tables = w.tables;
            kept = All-append IsKept s.message_list q.new_kept w.kept k;
            waiting = h;
          }))
