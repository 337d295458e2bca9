-- ===== src/Server/Sync/Payloads.antt =====
-- What a round of `sendSyncPayloads` sends.
use cpsc.Common.{
  ℕ, ℤ, pos, ◌<◌, ◌%◌, ◌^◌, [], ◌∷◌, ◌++◌, List, ◌≡◌, ◌≢◌, refl, ap, ◌∙◌, subst, arith, returns,
  Returns, Returns-bind, Returns-map, increment64,
}
use cpsc.Text.{Bytes}
use cpsc.Constants.{number_of_servers, mt_server_sync, server_index_to_server_name, to_uint8}
use cpsc.Constants.Identifiers.{index_lookup}
use cpsc.Message.{sync_message, as_char_vector}
use cpsc.Connection.{RemoteConnection, Datagram}
use cpsc.Server.State.{Server, clients_served, next_sequence_number}
use cpsc.Server.Routing.Routes.{as_char_vector-total}
use cpsc.Server.Sync.{send_sync, send_sync_of, send_sync_loop}

module _ {E T : Type 0} where
  abbrev pub with_number : ℤ → Server E T → Server E T
  with_number n s = record s { sequence_number = n }

  -- The sync message number `n` of server `s` to its neighbour `j`, with the list of server `i`.
  pub record IsSync (s : Server E T) (j : ℤ) (n : ℤ) (i : ℕ) (bytes : Bytes) : Type 0 where
    pub source : Bytes
    pub destination : Bytes
    pub from : server_index_to_server_name s.index ≡ returns source
    pub to : server_index_to_server_name (to_uint8 j) ≡ returns destination
    pub printed :
        as_char_vector
          (sync_message n mt_server_sync source destination (clients_served s i) (pos i))
        ≡ returns bytes

  -- `Syncs s j c n is o n'`: for the servers `is`, in this order, `s` sends the datagrams `o` to
  -- its neighbour `j` over `c`, one for each list that is not empty, and numbers them from `n` on
  -- up to `n'`.
  pub data Syncs (s : Server E T) (j : ℤ) (c : RemoteConnection E T)
      : ℤ → List ℕ → List (Datagram E) → ℤ → Type 0 where
    done : {n : ℤ} → Syncs s j c n [] [] n
    skip :
        {n n' : ℤ} {i : ℕ} {is : List ℕ} {o : List (Datagram E)}
        → clients_served s i ≡ []
        → Syncs s j c n is o n'
        → Syncs s j c n (i ∷ is) o n'
    send :
        {n n' : ℤ} {i : ℕ} {is : List ℕ} {o : List (Datagram E)} (d : Datagram E)
        → clients_served s i ≢ []
        → d.to ≡ c.endpoint
        → IsSync s j (increment64 n) i d.bytes
        → Syncs s j c (increment64 n) is o n'
        → Syncs s j c n (i ∷ is) (d ∷ o) n'

  module _ (s : Server E T) (j : ℤ) (c : RemoteConnection E T)
      (inside : s.index < number_of_servers) (k : ℕ) (neighbour : j ≡ pos k)
      (near : k < number_of_servers) where
    send_sync-IsSync :
        (n : ℤ) (i : ℕ)
        → Returns
            (λ r.
              (d : Datagram E) × (r ≡ (with_number (increment64 n) s, d ∷ []))
              × (d.to ≡ c.endpoint)
              × IsSync s j (increment64 n) i d.bytes)
            (send_sync j c i (clients_served s i) (with_number n s))
    unfolding send_sync next_sequence_number
    send_sync-IsSync n i =
        let (source, _, from, _, _) = index_lookup s.index inside in
        let (destination, _, to, _, _) = index_lookup k near in
        let (bytes, e) =
          as_char_vector-total
            (sync_message (increment64 n) mt_server_sync source destination (clients_served s i)
              (pos i))
            (λ u. cc) in
        let named : server_index_to_server_name (to_uint8 j) ≡ returns destination =
          ap (λ z. server_index_to_server_name (to_uint8 z)) neighbour
          ∙ ap server_index_to_server_name (small k near)
          ∙ to in
        rw (from, named, e)
          (
            record { to = c.endpoint; bytes = bytes },
            refl,
            refl,
            record {
              source = source;
              destination = destination;
              from = from;
              to = named;
              printed = e;
            },
          )
      where
        small : (k : ℕ) → k < number_of_servers → k % 2 ^ 8 ≡ k
        small k h = omega arith

    -- One list was handled: the server has the number `n'`, and the loop goes on from there.
    abbrev Continues : ℤ → ℕ → Server E T × List (Datagram E) → Type 0
    Continues n i r =
        (n' : ℤ) × (r.0 ≡ with_number n' s)
        × ((is : List ℕ) (o : List (Datagram E)) (n'' : ℤ)
            → Syncs s j c n' is o n''
            → Syncs s j c n (i ∷ is) (r.1 ++ o) n'')

    sent-Continues :
        (n : ℤ) (i : ℕ) (r : Server E T × List (Datagram E))
        → clients_served s i ≢ []
        → ((d : Datagram E) × (r ≡ (with_number (increment64 n) s, d ∷ []))
            × (d.to ≡ c.endpoint)
            × IsSync s j (increment64 n) i d.bytes)
        → Continues n i r
    sent-Continues n i r full (d, e, to, sync) =
        (increment64 n, ap (λ q. q.0) e, λ is o n'' rest. rw e (send d full to sync rest))

    send_sync_of-Continues :
        (n : ℤ) (i : ℕ) (clients : List Bytes)
        → clients_served s i ≡ clients
        → Returns (Continues n i) (send_sync_of j c i clients (with_number n s))
    unfolding send_sync_of
    send_sync_of-Continues n i [] e = (n, refl, λ is o n'' rest. skip e rest)
    send_sync_of-Continues n i (client ∷ clients) e =
        subst (λ l. Returns (Continues n i) (send_sync j c i l (with_number n s))) e
          (Returns-map _ (Continues n i) (send_sync j c i (clients_served s i) (with_number n s))
            (send_sync-IsSync n i) (λ r. sent-Continues n i r (λ h. cc)))

    -- The loop has sent the lists of `is`, and changed the number alone.
    abbrev pub Sent : ℤ → List ℕ → Server E T × List (Datagram E) → Type 0
    Sent n is r = (n' : ℤ) × (r.0 ≡ with_number n' s) × Syncs s j c n is r.1 n'

    pub send_sync_loop-Sent :
        (n : ℤ) (is : List ℕ) → Returns (Sent n is) (send_sync_loop j c is (with_number n s))
    unfolding send_sync_loop
    send_sync_loop-Sent n [] = (n, refl, done)
    send_sync_loop-Sent n (i ∷ is) =
        Returns-bind (Continues n i) (Sent n (i ∷ is))
          (send_sync_of j c i (clients_served s i) (with_number n s)) _
          (send_sync_of-Continues n i (clients_served s i) refl)
          (λ r (n', e, go). rw e (
            Returns-bind (Sent n' is) (Sent n (i ∷ is)) (send_sync_loop j c is (with_number n' s)) _
              (send_sync_loop-Sent n' is) (λ q (n'', f, rest). (n'', f, go is q.1 n'' rest))))
