-- ===== src/Network/Work.antt =====
-- What the servers do by themselves: rounds of their threads, and receipts of what they send.
use cpsc.Common.{
  ℕ, ◌<◌, List, ◌∷◌, [], ◌++◌, map, ◌≡◌, ◌≢◌, ◌⊎◌, ◌∙◌, refl, sym, ap, All, returns, returns_inj,
  >>=-eq-returns, ◌==◌, ==_iff, ==_ne, if◌then◌else◌, append_assoc,
}
use cpsc.Constants.{number_of_servers}
use cpsc.Connection.{Datagram, datagram}
use cpsc.Server.State.{Server}
use cpsc.Server.Listen.{listen_udp}
use cpsc.Server.Routing.{attempt_forward}
use cpsc.Server.Sync.{send_sync_payloads}
use cpsc.Network.Lists.{listen_to}
use cpsc.Network.Steps.{Acts, History, then_happens, receives, acts}
use cpsc.Network.{Flight, Network, Runs, done, then_receives}

abbrev pub flights_of : {E : Type 0} → E → List (Datagram E) → List (Flight E)
flights_of sender = map (λ d. record { sender = sender; content = d })

module _ {E T : Type 0} where
  pub with_server : (ℕ → Server E T) → ℕ → Server E T → ℕ → Server E T
  with_server server j t i = if i == j then t else server i

  pub with_server_self :
      (server : ℕ → Server E T) (j : ℕ) (t : Server E T) → with_server server j t j ≡ t
  unfolding with_server
  with_server_self server j t = rw ((==_iff j j).1 refl) refl

  pub with_server_ne :
      (server : ℕ → Server E T) (j : ℕ) (t : Server E T) (i : ℕ)
      → i ≢ j
      → with_server server j t i ≡ server i
  unfolding with_server
  with_server_ne server j t i other = rw (==_ne i j other) refl

module _ {E T : Type 0} (address : ℕ → E) (now : T) where
  -- The round is no receipt.
  abbrev pub IsOwnRound : {n n' : Network E T} → Acts address n n' → Type 0
  IsOwnRound {n} {n'} a =
      (attempt_forward (n.server a.i) ≡ returns (n'.server a.i, a.sent))
      ⊎ (send_sync_payloads (n.server a.i) ≡ returns (n'.server a.i, a.sent))

  -- Nothing comes from outside, and nothing is lost.
  pub data Work (n : Network E T) : Network E T → Type 0 where
    rest : Work n n
    then_acts :
        {n' n'' : Network E T} → Work n n' → (a : Acts address n' n'') → IsOwnRound a → Work n n''
    then_runs : {n' n'' : Network E T} → Work n n' → Runs address now n' n'' → Work n n''

  pub Work-Work : {n n' n'' : Network E T} → Work n n' → Work n' n'' → Work n n''
  Work-Work w rest = w
  Work-Work w (then_acts v a own) = then_acts (Work-Work w v) a own
  Work-Work w (then_runs v r) = then_runs (Work-Work w v) r

  Runs-History :
      {m n n' : Network E T} → History address m n → Runs address now n n' → History address m n'
  Runs-History h done = h
  Runs-History h (then_receives r run) = Runs-History (then_happens h (receives now r)) run

  pub Work-History : {m n n' : Network E T} → History address m n → Work n n' → History address m n'
  Work-History h rest = h
  Work-History h (then_acts w a own) = then_happens (Work-History h w) (acts a)
  Work-History h (then_runs w run) = Runs-History (Work-History h w) run

  -- Server `j` is `t` then, no other server has changed, and `before` is still on its way.
  pub record Becomes (n n' : Network E T) (j : ℕ) (t : Server E T) (before : List (Flight E))
      : Type 0 where
    pub here : n'.server j ≡ t
    pub others : (i : ℕ) → i ≢ j → n'.server i ≡ n.server i
    pub extra : List (Flight E)
    pub in_flight : n'.in_flight ≡ before ++ extra

  -- A server receives datagrams that are on their way to it, one after the other.
  pub listen_to-Runs :
      (sender : E) (j : ℕ) (o : List (Datagram E)) (n : Network E T) (t' : Server E T)
      (before behind : List (Flight E))
      → j < number_of_servers
      → All (λ d. d.to ≡ address j) o
      → n.in_flight ≡ before ++ (flights_of sender o ++ behind)
      → listen_to now sender o (n.server j) ≡ returns t'
      → (n' : Network E T) × Runs address now n n' × Becomes n n' j t' before
  unfolding listen_to
  listen_to-Runs sender j [] n t' before behind inside to taken e = (
    n,
    done,
    record { here = returns_inj e; others = λ i other. refl; extra = behind; in_flight = taken },
  )
  listen_to-Runs sender j (d ∷ o) n t' before behind inside to taken e =
      let (r, handled, e') =
        >>=-eq-returns (listen_udp now (datagram sender d.bytes) (n.server j))
          (λ r. listen_to now sender o r.0) e in
      let behind' = flights_of sender o ++ behind in
      let n1 : Network E T = record {
        server = with_server n.server j r.0;
        in_flight = before ++ (flights_of (address j) r.1 ++ behind');
      } in
      let (n', runs, becomes) =
        listen_to-Runs sender j o n1 t' (before ++ flights_of (address j) r.1) behind inside to.1
          (sym (append_assoc before (flights_of (address j) r.1) behind'))
          (ap (listen_to now sender o) (with_server_self n.server j r.0) ∙ e') in
      (
        n',
        then_receives
            (record {
              i = j;
              inside = inside;
              flight = record { sender = sender; content = d };
              before = before;
              behind = behind';
              sent = r.1;
              taken = taken;
              arrived = to.0;
              handled =
                  handled ∙ ap (λ s. returns (s, r.1)) (sym (with_server_self n.server j r.0));
              others = with_server_ne n.server j r.0;
              rest = refl;
            })
            runs,
        record {
          here = becomes.here;
          others = λ i other. becomes.others i other ∙ with_server_ne n.server j r.0 i other;
          extra = flights_of (address j) r.1 ++ becomes.extra;
          in_flight =
              becomes.in_flight ∙ append_assoc before (flights_of (address j) r.1) becomes.extra;
        },
      )
