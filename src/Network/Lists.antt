-- ===== src/Network/Lists.antt =====
-- The lists of clients that a server sends in a round of `sendSyncPayloads`, as its neighbour
-- receives them.
use cpsc.Common.{
  ℕ, zero, suc, ℤ, pos, ◌+◌, ◌<◌, ◌≤◌, ◌^◌, List, [], ◌∷◌, ◌≡◌, ◌≢◌, ◌⊎◌, inl, inr, refl, sym, ap,
  subst, ◌∙◌, arith, All, Holds, length, Outcome, returns, ◌>>=◌, Returns, Returns-map, increment64,
  set, get_or-set_self, get_or-set_ne, length-set,
}
use cpsc.Text.{Bytes, Lacks, find}
use cpsc.Constants.{
  number_of_servers, message_delimiter, server_index_to_server_name, mt_server_sync, to_uint8,
}
use cpsc.Message.{create_server_sync_payload, arbitrary_length, sync_message}
use cpsc.Message.SyncPayload.{IsListable}
use cpsc.Connection.{Datagram, datagram, RemoteConnection}
use cpsc.Server.State.{Server, clients_served}
use cpsc.Server.Sync.Payloads.{Syncs, IsSync, done, skip, send}
use cpsc.Server.Listen.{listen_udp}
use cpsc.Server.Listen.Hop.{IsCarried, listen_udp-sync_message}

-- A list that a sync message can carry: no name holds a comma, and the payload no delimiter.
pub record IsTellable (clients : List Bytes) : Type 0 where
  pub listable : All IsListable clients
  pub plain : Lacks message_delimiter (create_server_sync_payload clients)

pub server_name-Lacks :
    (k : ℕ) (name : Bytes)
    → server_index_to_server_name k ≡ returns name
    → Lacks message_delimiter name
unfolding server_index_to_server_name find
server_name-Lacks zero name e = ground arith
server_name-Lacks (suc zero) name e = ground arith
server_name-Lacks (suc (suc zero)) name e = ground arith
server_name-Lacks (suc (suc (suc zero))) name e = ground arith
server_name-Lacks (suc (suc (suc (suc zero)))) name e = ground arith
server_name-Lacks (suc (suc (suc (suc (suc k))))) name e = cc

Holds-or_not : (j : ℕ) (is : List ℕ) → Holds j is ⊎ (¬ Holds j is)
Holds-or_not j [] = inr (λ h. h)
Holds-or_not j (i ∷ is) = ground (arith, Holds-or_not j is)

nil-or_not {ℓ} : {A : Type ℓ} (l : List A) → (l ≡ []) ⊎ (l ≢ [])
nil-or_not [] = inl refl
nil-or_not (x ∷ l) = inr (λ e. cc)

pub increment64-small : (a : ℕ) → a + 1 < 2 ^ 31 → increment64 (pos a) ≡ pos (a + 1)
unfolding increment64
increment64-small a h = ground arith

module _ {E T : Type 0} where
  -- `t'` is `t` with the lists of the servers `is` that `s` has and that are not empty.
  pub record Learns (s : Server E T) (is : List ℕ) (t t' : Server E T) : Type 0 where
    pub others :
        t' ≡ record t { clients_served_by_server_index = t'.clients_served_by_server_index }
    pub learned :
        (j : ℕ) → Holds j is → clients_served s j ≢ [] → clients_served t' j ≡ clients_served s j
    pub kept :
        (j : ℕ) → (Holds j is → clients_served s j ≡ []) → clients_served t' j ≡ clients_served t j

  sync-IsCarried :
      (s : Server E T) (j : ℤ) (a i : ℕ) (bytes : Bytes)
      → IsTellable (clients_served s i)
      → i < number_of_servers
      → a < 2 ^ 31
      → length bytes ≤ arbitrary_length
      → (sync : IsSync s j (pos a) i bytes)
      → IsCarried
          (sync_message
            (pos a)
            mt_server_sync
            sync.source
            sync.destination
            (clients_served s i)
            (pos i))
          bytes
  sync-IsCarried s j a i bytes tellable inside number fits sync = record {
    plain = record {
      source = server_name-Lacks s.index sync.source sync.from;
      destination = server_name-Lacks (to_uint8 j) sync.destination sync.to;
      payload = tellable.plain;
      origin = ground arith;
    };
    number = ground arith;
    printed = sync.printed;
    fits = fits;
  }

  -- One list that was stored, and then the others.
  abbrev with_list : ℕ → List Bytes → Server E T → Server E T
  with_list i clients t = record t {
    clients_served_by_server_index = set t.clients_served_by_server_index i clients;
  }

  Learns-skip :
      (s : Server E T) (i : ℕ) (is : List ℕ) (t t' : Server E T)
      → clients_served s i ≡ []
      → Learns s is t t'
      → Learns s (i ∷ is) t t'
  Learns-skip s i is t t' empty l = record {
    others = l.others;
    learned = λ j place full. elim place [
      | inl e ↦ absurd (full (subst (λ k. clients_served s k ≡ []) e empty))
      | inr below ↦ l.learned j below full
    ];
    kept = λ j h. l.kept j (λ below. h (inr below));
  }

  Learns-with_list :
      (s : Server E T) (i : ℕ) (is : List ℕ) (t t' : Server E T)
      → clients_served s i ≢ []
      → i < length t.clients_served_by_server_index
      → Learns s is (with_list i (clients_served s i) t) t'
      → Learns s (i ∷ is) t t'
  Learns-with_list s i is t t' full inside l = record {
    others = l.others;
    learned = λ j place some_name. elim (Holds-or_not j is) [
      | inl below ↦ l.learned j below some_name
      | inr above ↦ elim place [
        | inl e ↦
            l.kept j (λ h. absurd (above h))
            ∙ subst
                (λ k. clients_served (with_list i (clients_served s i) t) k ≡ clients_served s k) e
                (get_or-set_self t.clients_served_by_server_index i (clients_served s i) [] inside)
        | inr below ↦ absurd (above below)
      ]
    ];
    kept = λ j h.
        l.kept j (λ below. h (inr below))
        ∙ get_or-set_ne t.clients_served_by_server_index i j (clients_served s i) []
            (λ e. full (subst (λ k. clients_served s k ≡ []) (sym e) (h (inl e))));
  }

  -- Each list is then one of the sender's or an old one.
  pub Learns-entry :
      (s : Server E T) (is : List ℕ) (t t' : Server E T) (j : ℕ)
      → Learns s is t t'
      → (clients_served t' j ≡ clients_served s j) ⊎ (clients_served t' j ≡ clients_served t j)
  Learns-entry s is t t' j l = elim (Holds-or_not j is) [
    | inr absent ↦ inr (l.kept j (λ h. absurd (absent h)))
    | inl present ↦ elim (nil-or_not (clients_served s j)) [
      | inl empty ↦ inr (l.kept j (λ h. empty))
      | inr full ↦ inl (l.learned j present full)
    ]
  ]

module _ {E T : Type 0} (now : T) (sender : E) where
  -- The datagrams arrive in this order.
  unfoldable pub listen_to : List (Datagram E) → Server E T → Outcome (Server E T)
  listen_to [] t = returns t
  listen_to (d ∷ ds) t = listen_udp now (datagram sender d.bytes) t >>= λ r. listen_to ds r.0

  -- A neighbour that receives, in the order in which they were sent, the datagrams that a round
  -- of `sendSyncPayloads` sends it for the servers `is`, has learned each of their lists that is
  -- not empty, as the sender has it, and has kept everything else; if the lists can be carried,
  -- the datagrams fit the buffer and the sequence numbers are an `int`.
  pub Syncs-Learns :
      (s t : Server E T) (j : ℤ) (c : RemoteConnection E T) (a : ℕ) {n n' : ℤ} (is : List ℕ)
      (o : List (Datagram E))
      → n ≡ pos a
      → a + length is < 2 ^ 31
      → All (λ i. (i < number_of_servers) × IsTellable (clients_served s i)) is
      → All (λ d. length d.bytes ≤ arbitrary_length) o
      → length t.clients_served_by_server_index ≡ number_of_servers
      → Syncs s j c n is o n'
      → Returns (Learns s is t) (listen_to o t)
  unfolding listen_to
  Syncs-Learns s t j c a [] [] start number lists fit tables done = record {
    others = refl;
    learned = λ j place. absurd place;
    kept = λ j h. refl;
  }
  Syncs-Learns s t j c a [] (d ∷ o) start number lists fit tables none_sent = elim none_sent [ ]
  Syncs-Learns s t j c a (i ∷ is) o start number lists fit tables (skip empty rest) =
      Returns-map (Learns s is t) (Learns s (i ∷ is) t) (listen_to o t)
        (Syncs-Learns s t j c a is o start (omega arith) lists.1 fit tables rest)
        (λ t' l. Learns-skip s i is t t' empty l)
  Syncs-Learns s t j c a (i ∷ is) (d ∷ o) start number lists fit tables (send _ full to sync rest) =
      let next = ap increment64 start ∙ increment64-small a (omega arith) in
      let sync' : IsSync s j (pos (a + 1)) i d.bytes =
        subst (λ k. IsSync s j k i d.bytes) next sync in
      let stored =
        listen_udp-sync_message now sender (pos (a + 1)) sync'.source sync'.destination d.bytes
          (clients_served s i) i t lists.0.1.listable lists.0.0
          (sync-IsCarried s j (a + 1) i d.bytes lists.0.1 lists.0.0 (omega arith) fit.0 sync') in
      rw stored (
        Returns-map (Learns s is (with_list i (clients_served s i) t)) (Learns s (i ∷ is) t)
          (listen_to o (with_list i (clients_served s i) t))
          (Syncs-Learns s (with_list i (clients_served s i) t) j c (a + 1) is o next (omega arith)
            lists.1 fit.1
            (length-set t.clients_served_by_server_index i (clients_served s i) ∙ tables) rest)
          (λ t' l. Learns-with_list s i is t t' full (omega (arith, tables, lists.0.0)) l))
