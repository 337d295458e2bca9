-- ===== src/Server/Routing/Waiting.antt =====
-- A round of `attemptForward`.
use cpsc.Common.{
  ℕ, [], ◌∷◌, ◌++◌, List, append_assoc, append-nil, ◌≡◌, ◌≢◌, refl, sym, ap, All, returns, Returns,
  Returns-bind, ◌>>=◌, length, subst, ◌∙◌, Option, some,
}
use cpsc.Constants.{mt_undefined, mt_server_send, mt_client_send}
use cpsc.Message.{DataMessage, set_message_type, as_char_vector}
use cpsc.Connection.{RemoteConnection, Datagram}
use cpsc.Server.State.{Server, add_to_message_list, add_to_message_list_of_unassociated_clients}
use cpsc.Server.State.WellFormed.{IsWellFormed, Placed, IsWaiting}
use cpsc.Server.Routing.{process_client_send_message, attempt_forward, attempt_forward_loop}
use cpsc.Server.Routing.Search.{IsConnected, IsServedLeft, IsServedRight}
use cpsc.Server.Routing.Routes.{stays, leftwards, rightwards, waits, Routes-of_Placed}

module _ {E T : Type 0} (s : Server E T) where
  -- The datagram of a message that is passed on over a connection.
  abbrev pub Passes : DataMessage → Option (RemoteConnection E T) → Datagram E → Type 0
  Passes m to d =
      (c : RemoteConnection E T) × (to ≡ some c)
      × (d.to ≡ c.endpoint)
      × (as_char_vector m ≡ returns d.bytes)

  -- `Sorts ms kept held sent`: of the messages `ms`, in their order, those in `kept` are for
  -- clients of the server, those in `sent` were passed on, and those in `held` wait on.
  pub data Sorts
      : List DataMessage → List DataMessage → List DataMessage → List (Datagram E) → Type 0 where
    done : Sorts [] [] [] []
    keep :
        {m : DataMessage} {ms k h : List DataMessage} {o : List (Datagram E)}
        → IsConnected m.destination_identifier s
        → Sorts ms k h o
        → Sorts (m ∷ ms) (set_message_type mt_server_send m ∷ k) h o
    pass_left :
        {m : DataMessage} {ms k h : List DataMessage} {o : List (Datagram E)} (d : Datagram E)
        → ¬ IsConnected m.destination_identifier s
        → IsServedLeft m.destination_identifier s
        → Passes m s.left_adjacent_server_connection d
        → Sorts ms k h o
        → Sorts (m ∷ ms) k h (d ∷ o)
    pass_right :
        {m : DataMessage} {ms k h : List DataMessage} {o : List (Datagram E)} (d : Datagram E)
        → ¬ IsConnected m.destination_identifier s
        → ¬ IsServedLeft m.destination_identifier s
        → IsServedRight m.destination_identifier s
        → Passes m s.right_adjacent_server_connection d
        → Sorts ms k h o
        → Sorts (m ∷ ms) k h (d ∷ o)
    hold :
        {m : DataMessage} {ms k h : List DataMessage} {o : List (Datagram E)}
        → ¬ IsConnected m.destination_identifier s
        → ¬ IsServedLeft m.destination_identifier s
        → ¬ IsServedRight m.destination_identifier s
        → Sorts ms k h o
        → Sorts (m ∷ ms) k (set_message_type mt_client_send m ∷ h) o

  -- The server with other lists of messages.
  abbrev pub with_messages : List DataMessage → List DataMessage → Server E T
  with_messages kept waiting = record s {
    message_list = kept;
    message_list_of_unassociated_clients = waiting;
  }

  -- The round has sorted `ms`, from the server with `kept` and `waiting`.
  pub record Sorted (ms kept waiting : List DataMessage) (r : Server E T × List (Datagram E))
      : Type 0 where
    pub new_kept : List DataMessage
    pub new_held : List DataMessage
    pub sorts : Sorts ms new_kept new_held r.1
    pub state : r.0 ≡ with_messages (kept ++ new_kept) (waiting ++ new_held)

  module _ (p : Placed s) where
    -- A first message that was sorted, and the rest of the round.
    extend_kept :
        (m : DataMessage) (ms kept waiting : List DataMessage) (r : Server E T × List (Datagram E))
        → IsConnected m.destination_identifier s
        → Sorted ms (kept ++ set_message_type mt_server_send m ∷ []) waiting r
        → Sorted (m ∷ ms) kept waiting r
    extend_kept m ms kept waiting r here q = record {
      new_kept = set_message_type mt_server_send m ∷ q.new_kept;
      new_held = q.new_held;
      sorts = keep here q.sorts;
      state =
          q.state
          ∙ ap (λ l. with_messages l (waiting ++ q.new_held))
              (append_assoc kept (set_message_type mt_server_send m ∷ []) q.new_kept);
    }

    extend_held :
        (m : DataMessage) (ms kept waiting : List DataMessage) (r : Server E T × List (Datagram E))
        → ¬ IsConnected m.destination_identifier s
        → ¬ IsServedLeft m.destination_identifier s
        → ¬ IsServedRight m.destination_identifier s
        → Sorted ms kept (waiting ++ set_message_type mt_client_send m ∷ []) r
        → Sorted (m ∷ ms) kept waiting r
    extend_held m ms kept waiting r a b c q = record {
      new_kept = q.new_kept;
      new_held = set_message_type mt_client_send m ∷ q.new_held;
      sorts = hold a b c q.sorts;
      state =
          q.state
          ∙ ap (λ l. with_messages (kept ++ q.new_kept) l)
              (append_assoc waiting (set_message_type mt_client_send m ∷ []) q.new_held);
    }

    -- A first message that was passed on.
    extend_sent :
        (m : DataMessage) (ms kept waiting : List DataMessage) (r : Server E T × List (Datagram E))
        (d : Datagram E)
        → ((k h : List DataMessage) (o : List (Datagram E))
            → Sorts ms k h o
            → Sorts (m ∷ ms) k h (d ∷ o))
        → Sorted ms kept waiting r
        → Sorted (m ∷ ms) kept waiting (r.0, d ∷ r.1)
    extend_sent m ms kept waiting r d extend q = record {
      new_kept = q.new_kept;
      new_held = q.new_held;
      sorts = extend q.new_kept q.new_held r.1 q.sorts;
      state = q.state;
    }

    -- The rest of the round behind a first message that was handled.
    continue_round :
        (rounds : ℕ) (m : DataMessage) (t t' : Server E T) (sent : List (Datagram E))
        (P Q : Server E T × List (Datagram E) → Type 0)
        → process_client_send_message m t ≡ returns (t', sent)
        → Returns P (attempt_forward_loop rounds t')
        → ((q : Server E T × List (Datagram E)) → P q → Q (q.0, sent ++ q.1))
        → Returns Q (
            process_client_send_message m t >>= λ r.
            attempt_forward_loop rounds r.0 >>= λ q. returns (q.0, r.1 ++ q.1))
    continue_round rounds m t t' sent P Q e rest k =
        rw e (Returns-bind P Q (attempt_forward_loop rounds t') _ rest k)

    attempt_forward_loop-Sorted :
        (ms kept waiting : List DataMessage)
        → All (λ m. m.message_type ≢ mt_undefined) ms
        → Returns
            (Sorted ms kept waiting)
            (attempt_forward_loop (length ms) (with_messages kept (ms ++ waiting)))
    unfolding attempt_forward_loop add_to_message_list add_to_message_list_of_unassociated_clients
    attempt_forward_loop-Sorted [] kept waiting typed = record {
      new_kept = [];
      new_held = [];
      sorts = done;
      state = simp append-nil;
    }
    attempt_forward_loop-Sorted (m ∷ ms) kept waiting typed =
        let t = with_messages kept (ms ++ waiting) in
        elim (Routes-of_Placed m t p typed.0) [
          | stays here e ↦
              continue_round (length ms) m t _ []
                (Sorted ms (kept ++ set_message_type mt_server_send m ∷ []) waiting) _ e
                (attempt_forward_loop-Sorted ms (kept ++ set_message_type mt_server_send m ∷ [])
                  waiting typed.1)
                (λ q. extend_kept m ms kept waiting q here)
          | leftwards away left f ↦
              continue_round (length ms) m t t _ (Sorted ms kept waiting) _ f.result
                (attempt_forward_loop-Sorted ms kept waiting typed.1)
                (λ q.
                  extend_sent m ms kept waiting q _
                    (λ k h o. pass_left _ away left (f.connection, f.exists, refl, f.printed)))
          | rightwards away not_left right f ↦
              continue_round (length ms) m t t _ (Sorted ms kept waiting) _ f.result
                (attempt_forward_loop-Sorted ms kept waiting typed.1)
                (λ q. extend_sent m ms kept waiting q _ (λ k h o.
                  pass_right _ away not_left right (f.connection, f.exists, refl, f.printed)))
          | waits a b c e ↦
              continue_round (length ms) m t _ []
                (Sorted ms kept (waiting ++ set_message_type mt_client_send m ∷ [])) _ e
                (subst
                  (λ l.
                    Returns (Sorted ms kept (waiting ++ set_message_type mt_client_send m ∷ []))
                      (attempt_forward_loop (length ms) (with_messages kept l)))
                  (sym (append_assoc ms waiting (set_message_type mt_client_send m ∷ [])))
                  (attempt_forward_loop-Sorted ms kept
                    (waiting ++ set_message_type mt_client_send m ∷ []) typed.1))
                (λ q. extend_held m ms kept waiting q a b c)
        ]

  -- A round of `attemptForward` on a well-formed server always returns. It handles each message
  -- that was waiting exactly once: the message joins the list for the server's clients, or one
  -- datagram passes it on, or it waits again, in the order in which they waited, and nothing else
  -- in the server changes.
  pub attempt_forward-Sorted :
      IsWellFormed s
      → Returns
          (Sorted s.message_list_of_unassociated_clients s.message_list [])
          (attempt_forward s)
  unfolding attempt_forward
  attempt_forward-Sorted w =
      subst
        (λ l. Returns (Sorted s.message_list_of_unassociated_clients s.message_list []) (
          attempt_forward_loop (length s.message_list_of_unassociated_clients)
            (with_messages s.message_list l)))
        (append-nil s.message_list_of_unassociated_clients)
        (attempt_forward_loop-Sorted w.placed s.message_list_of_unassociated_clients s.message_list
          [] (waiting_typed s.message_list_of_unassociated_clients w.waiting))
    where
      waiting_typed :
          (ms : List DataMessage) → All IsWaiting ms → All (λ m. m.message_type ≢ mt_undefined) ms
      waiting_typed [] h = tt
      waiting_typed (m ∷ ms) h = ((λ e. cc h.0), waiting_typed ms h.1)
