-- ===== src/Network/Announced.antt =====
-- All servers learn of a client, by rounds of `sendSyncPayloads` from its server to both ends of
-- the row.
use cpsc.Common.{
  leb, ℕ, zero, suc, ◌+◌, ◌*◌, ◌-◌, ◌<◌, List, [], ◌++◌, ◌≡◌, ◌≢◌, ◌∙◌, ◌⊎◌, refl, sym, subst, ap,
  arith, Holds, inl, inr, Bool-cases, ◌==◌, ==_iff, append_assoc, append-nil,
}
use cpsc.Text.{Bytes}
use cpsc.Constants.{number_of_servers}
use cpsc.Server.Routing.Search.{IsConnected}
use cpsc.Server.Sync.{refresh_own_clients}
use cpsc.Network.{Flight, Network}
use cpsc.Network.Direction.{
  Direction, rightward, leftward, IsNext, IsFrom, IsPast, IsFrom-refl, IsFrom-IsNext, IsPast-IsFrom,
}
use cpsc.Network.Work.{Work, rest, Work-Work}
use cpsc.Network.Quiet.{IsQuiet}
use cpsc.Network.Heard.{HasShortLists}
use cpsc.Network.Telling.{send_sync_payloads-Tells}
use cpsc.Network.Knowing.{
  Knows, refreshed, Tells-IsQuiet, Tells-Knows, Tells-Knows_next, own_names-Tells,
  message_list-Tells, connected_clients-Tells,
}
use cpsc.Network.Delivery.{IsKnownAt}

-- `rounds` servers are between server `i` and the end of the row on that side.
abbrev IsEnd : Direction → ℕ → ℕ → Type 0
IsEnd rightward i rounds = i + rounds ≡ 4
IsEnd leftward i rounds = i ≡ rounds

IsEnd-zero : (d : Direction) (i l : ℕ) → IsEnd d i 0 → l < number_of_servers → ¬ IsPast d i l
IsEnd-zero rightward i l e inside past = absurd (omega arith)
IsEnd-zero leftward i l e inside past = absurd (omega arith)

-- The server further on.
record NextTo (d : Direction) (i rounds : ℕ) : Type 0 where
  j : ℕ
  inside : j < number_of_servers
  apart : i ≢ j
  next : IsNext d i j
  ends : IsEnd d j rounds
  past : (l : ℕ) → IsPast d i l → (l ≡ j) ⊎ IsPast d j l

next_to :
    (d : Direction) (i rounds : ℕ)
    → i < number_of_servers
    → IsEnd d i (suc rounds)
    → NextTo d i rounds
next_to rightward i rounds inside e = record {
  j = suc i;
  inside = omega arith;
  apart = λ same. absurd (omega arith);
  next = refl;
  ends = omega arith;
  past = λ l past. elim (Bool-cases (l == suc i)) [
    | inl same ↦ inl ((==_iff l (suc i)).0 same)
    | inr other ↦ inr (ground arith)
  ];
}
next_to leftward i rounds inside e = record {
  j = rounds;
  inside = omega arith;
  apart = λ same. absurd (omega arith);
  next = e;
  ends = refl;
  past = λ l past. elim (Bool-cases (l == rounds)) [
    | inl same ↦ inl ((==_iff l rounds).0 same)
    | inr other ↦ inr (ground arith)
  ];
}

module _ {E T : Type 0} (address : ℕ → E) (now : T) (name : Bytes) (k : ℕ)
    (k_inside : k < number_of_servers) where
  -- What the servers know when those on one side of server `i` have been told.
  record Announced (d : Direction) (i room : ℕ) (n n' : Network E T) : Type 0 where
    work : Work address now n n'
    quiet : IsQuiet address name k room n'
    here : IsConnected name (n'.server k)
    known : (l : ℕ) → l < number_of_servers → IsPast d i l → Knows name k n' l
    kept : (l : ℕ) → Knows name k n l → Knows name k n' l
    extra : List (Flight E)
    in_flight : n'.in_flight ≡ n.in_flight ++ extra
    messages : (l : ℕ) → (n'.server l).message_list ≡ (n.server l).message_list
    connections : (l : ℕ) → (n'.server l).connected_clients ≡ (n.server l).connected_clients

  quiet-HasShortLists :
      {room : ℕ} {n : Network E T} (i : ℕ)
      → i < number_of_servers
      → IsQuiet address name k room n
      → HasShortLists (refresh_own_clients (n.server i))
  quiet-HasShortLists i inside q =
      λ l below. (refreshed address now name k i inside q l below).short

  -- Server `i` and then the servers further on tell the next one each.
  announce :
      (d : Direction) (i rounds room : ℕ) (n : Network E T)
      → i < number_of_servers
      → IsFrom d k i
      → IsEnd d i rounds
      → IsQuiet address name k (room + rounds * 11) n
      → IsConnected name (n.server k)
      → ((i ≡ k) ⊎ Knows name k n i)
      → (n' : Network E T) × Announced d i room n n'
  announce d i zero room n inside from end q here knows = (
    n,
    record {
      work = rest;
      quiet = subst (λ x. IsQuiet address name k x n) (omega arith) q;
      here = here;
      known = λ l below past. absurd (IsEnd-zero d i l end below past);
      kept = λ l h. h;
      extra = [];
      in_flight = sym (append-nil n.in_flight);
      messages = λ l. refl;
      connections = λ l. refl;
    },
  )
  announce d i (suc rounds) room n inside from end q here knows =
      let next = next_to d i rounds inside end in
      let (a, number, enough) = q.numbers i inside in
      let (n1, tells) =
        send_sync_payloads-Tells address now d i next.j a n q.running.row inside next.inside
          next.apart next.next number (omega arith) (quiet-HasShortLists i inside q) in
      let q' : IsQuiet address name k (room + suc rounds * 11) n = q in
      let q1 : IsQuiet address name k (room + rounds * 11) n1 =
        Tells-IsQuiet address now name k inside (omega arith)
          (subst (λ x. IsQuiet address name k x n) (omega arith) q) tells in
      let knows1 = Tells-Knows_next address now name k d inside k_inside from q here knows tells in
      let (n', rest_of) =
        announce d next.j rounds room n1 next.inside
          (IsPast-IsFrom d k next.j (IsFrom-IsNext d k i next.j from next.next)) next.ends q1
          (subst (Holds name) (sym (own_names-Tells address now name k tells k)) here)
          (inr knows1) in
      (
        n',
        record {
          work = Work-Work address now tells.work rest_of.work;
          quiet = rest_of.quiet;
          here = rest_of.here;
          known = λ l below past. elim (next.past l past) [
            | inl e ↦ rest_of.kept l (subst (Knows name k n1) (sym e) knows1)
            | inr further ↦ rest_of.known l below further
          ];
          kept =
              λ l h. rest_of.kept l (Tells-Knows address now name k inside q here knows tells l h);
          extra = tells.extra ++ rest_of.extra;
          in_flight =
              rest_of.in_flight
              ∙ ap (λ o. o ++ rest_of.extra) tells.in_flight
              ∙ append_assoc n.in_flight tells.extra rest_of.extra;
          messages = λ l. rest_of.messages l ∙ message_list-Tells address now name k tells l;
          connections =
              λ l. rest_of.connections l ∙ connected_clients-Tells address now name k tells l;
        },
      )

  -- The servers after all of them have been told.
  pub record IsAnnounced (room : ℕ) (n n' : Network E T) : Type 0 where
    pub work : Work address now n n'
    pub quiet : IsQuiet address name k room n'
    pub known : IsKnownAt n'.server name k
    pub extra : List (Flight E)
    pub in_flight : n'.in_flight ≡ n.in_flight ++ extra
    pub messages : (l : ℕ) → (n'.server l).message_list ≡ (n.server l).message_list
    pub connections : (l : ℕ) → (n'.server l).connected_clients ≡ (n.server l).connected_clients

  both-IsKnownAt :
      {room : ℕ} {n : Network E T}
      → IsQuiet address name k room n
      → IsConnected name (n.server k)
      → ((l : ℕ) → l < number_of_servers → IsPast rightward k l → Knows name k n l)
      → ((l : ℕ) → l < number_of_servers → IsPast leftward k l → Knows name k n l)
      → IsKnownAt n.server name k
  both-IsKnownAt q here right left = record {
    connected = here;
    away = λ i inside other h. other ((q.own i inside).only h);
    listed = λ i inside other. elim (Bool-cases (leb i k)) [
      | inl e ↦ left i inside (ground arith)
      | inr e ↦ right i inside (ground arith)
    ];
    only = λ i j inside other inside' h. (q.lists i inside j inside').only h;
  }

  -- In a row of running servers whose lists of clients fit sync messages and name the client for
  -- its server at most, whose sequence numbers can grow by 44, and in which the client is connected
  -- to its server: by rounds of `sendSyncPayloads`, of the client's server and then of each further
  -- server on either side, and by receipts of what they sent, the servers come to a state in which
  -- every server knows the client, and no list names it for another server. Nothing that was on its
  -- way is lost, and no message list has changed.
  pub announce_both :
      (room : ℕ) (n : Network E T)
      → IsQuiet address name k (room + 44) n
      → IsConnected name (n.server k)
      → (n' : Network E T) × IsAnnounced room n n'
  announce_both room n q here =
      let (n1, right) =
        announce rightward k (4 - k) (room + k * 11) n k_inside (IsFrom-refl rightward k)
          (omega arith) (subst (λ x. IsQuiet address name k x n) (omega arith) q) here (inl refl) in
      let (n2, left) =
        announce leftward k k room n1 k_inside (IsFrom-refl leftward k) refl right.quiet right.here
          (inl refl) in
      (
        n2,
        record {
          work = Work-Work address now right.work left.work;
          quiet = left.quiet;
          known =
              both-IsKnownAt left.quiet left.here
                (λ l inside past. left.kept l (right.known l inside past)) left.known;
          extra = right.extra ++ left.extra;
          in_flight =
              left.in_flight
              ∙ ap (λ o. o ++ left.extra) right.in_flight
              ∙ append_assoc n.in_flight right.extra left.extra;
          messages = λ l. left.messages l ∙ right.messages l;
          connections = λ l. left.connections l ∙ right.connections l;
        },
      )
