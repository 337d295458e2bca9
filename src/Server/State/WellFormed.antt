-- ===== src/Server/State/WellFormed.antt =====
-- The well-formed states of a server, and the member functions of `State` on them.
use cpsc.Common.{
  returns, refl, undefined, false_of_not, ltb_iff, negsuc, ℕ, ℤ, ◌<◌, pos, suc, Option, none, ◌≡◌,
  ◌↔◌, All, All-append, length, length-set, ◌∙◌, set, List, Ensures, Bool-cases, inl, inr, ltb,
  arith,
}
use cpsc.Text.{Bytes}
use cpsc.Constants.{number_of_servers, highest_server_index, mt_server_send, mt_client_send}
use cpsc.Message.{DataMessage, view_server_sync_payload}
use cpsc.Server.State.{
  Server, store_clients, left_of, receive_clients_from_adjacent_servers, add_client_connection,
  remove_client_connection, add_to_message_list, add_to_message_list_of_unassociated_clients,
}

abbrev pub IsKept : DataMessage → Type 0
IsKept m = m.message_type ≡ mt_server_send

abbrev pub IsWaiting : DataMessage → Type 0
IsWaiting m = m.message_type ≡ mt_client_send

-- A server's place in the row: which neighbours it has.
module _ {C : Type 0} where
  pub record IsPlaced (i : ℕ) (left : ℤ) (to_left : Option C) (right : ℤ) (to_right : Option C)
      : Type 0 where
    pub in_range : i < number_of_servers
    pub left_index : left ≡ left_of i
    pub right_index : right ≡ pos (suc i)
    pub left_end : (to_left ≡ none) ↔ (i ≡ 0)
    pub right_end : (to_right ≡ none) ↔ (i ≡ highest_server_index)

module _ {E T : Type 0} where
  abbrev pub Placed : Server E T → Type 0
  Placed s =
      IsPlaced s.index s.left_adjacent_server_index s.left_adjacent_server_connection
        s.right_adjacent_server_index s.right_adjacent_server_connection

  pub record IsWellFormed (s : Server E T) : Type 0 where
    pub placed : Placed s
    pub tables : length s.clients_served_by_server_index ≡ number_of_servers
    pub kept : All IsKept s.message_list
    pub waiting : All IsWaiting s.message_list_of_unassociated_clients

  pub add_to_message_list-IsWellFormed :
      (m : DataMessage) {s : Server E T} → IsWellFormed s → IsWellFormed (add_to_message_list m s)
  unfolding add_to_message_list
  add_to_message_list-IsWellFormed m {s} w = record {
    placed = w.placed;
    tables = w.tables;
    kept = All-append IsKept s.message_list _ w.kept (refl, tt);
    waiting = w.waiting;
  }

  pub add_to_message_list_of_unassociated_clients-IsWellFormed :
      (m : DataMessage) {s : Server E T}
      → IsWellFormed s
      → IsWellFormed (add_to_message_list_of_unassociated_clients m s)
  unfolding add_to_message_list_of_unassociated_clients
  add_to_message_list_of_unassociated_clients-IsWellFormed m {s} w = record {
    placed = w.placed;
    tables = w.tables;
    kept = w.kept;
    waiting = All-append IsWaiting s.message_list_of_unassociated_clients _ w.waiting (refl, tt);
  }

  pub add_client_connection-IsWellFormed :
      (username : Bytes) (endpoint : E) (now : T) {s : Server E T}
      → IsWellFormed s
      → IsWellFormed (add_client_connection username endpoint now s)
  unfolding add_client_connection
  add_client_connection-IsWellFormed username endpoint now w = search w

  pub remove_client_connection-IsWellFormed :
      (username : Bytes) {s : Server E T}
      → IsWellFormed s
      → IsWellFormed (remove_client_connection username s)
  unfolding remove_client_connection
  remove_client_connection-IsWellFormed username w = search w

  pub set-IsWellFormed :
      (i : ℕ) (clients : List Bytes) (s : Server E T)
      → IsWellFormed s
      → IsWellFormed (record s {
        clients_served_by_server_index = set s.clients_served_by_server_index i clients;
      })
  set-IsWellFormed i clients s w = record {
    placed = w.placed;
    tables = length-set s.clients_served_by_server_index i clients ∙ w.tables;
    kept = w.kept;
    waiting = w.waiting;
  }

  store_clients-IsWellFormed :
      (z : ℤ) (clients : List Bytes) (s : Server E T)
      → IsWellFormed s
      → Ensures IsWellFormed (store_clients z clients s)
  unfolding store_clients
  store_clients-IsWellFormed (pos i) clients s w = elim (Bool-cases (ltb i number_of_servers)) [
    | inl inside ↦ rw inside (set-IsWellFormed i clients s w)
    | inr outside ↦ rw outside tt
  ]
  store_clients-IsWellFormed (negsuc i) clients s w = tt

  pub receive_clients-IsWellFormed :
      (m : DataMessage) (s : Server E T)
      → IsWellFormed s
      → Ensures IsWellFormed (receive_clients_from_adjacent_servers m s)
  unfolding receive_clients_from_adjacent_servers
  receive_clients-IsWellFormed m s w =
      store_clients-IsWellFormed m.server_sync_payload_origin_index (view_server_sync_payload m) s w

  pub receive_clients_in_range :
      (m : DataMessage) (i : ℕ) (s : Server E T)
      → m.server_sync_payload_origin_index ≡ pos i
      → i < number_of_servers
      → receive_clients_from_adjacent_servers m s
        ≡ returns (record s {
          clients_served_by_server_index =
              set s.clients_served_by_server_index i (view_server_sync_payload m);
        })
  unfolding receive_clients_from_adjacent_servers
  receive_clients_in_range m i s e inside = rw e (ground arith)

  -- An origin index that is none of the five servers.
  pub receive_clients_out_of_range :
      (m : DataMessage) (s : Server E T)
      → ¬ ((i : ℕ) × (m.server_sync_payload_origin_index ≡ pos i) × (i < number_of_servers))
      → receive_clients_from_adjacent_servers m s ≡ undefined
  unfolding receive_clients_from_adjacent_servers
  receive_clients_out_of_range m s outside = stored m.server_sync_payload_origin_index refl
    where
      stored :
          (z : ℤ)
          → m.server_sync_payload_origin_index ≡ z
          → store_clients z (view_server_sync_payload m) s ≡ undefined
      stored (pos i) e =
          rw
            (false_of_not (ltb i number_of_servers) (ltb_iff i number_of_servers)
              (λ h. outside (i, e, h)))
            refl
      stored (negsuc i) e = refl
