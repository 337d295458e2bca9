-- ===== src/Network/Alone.antt =====
-- One text message alone on its way, and what a receipt does.
use cpsc.Common.{
  singleton_split, ℕ, zero, suc, ◌+◌, ◌-◌, ◌<◌, List, [], ◌∷◌, ◌++◌, map, ◌≡◌, ◌≢◌, ◌⊎◌, inl, inr,
  refl, sym, ap, subst, ◌∙◌, arith, returns, returns_inj, Bool-cases, ◌==◌, ==_iff, ==_ne,
  not_of_false, if◌then◌else◌, leb,
}
use cpsc.Text.{Bytes}
use cpsc.Constants.{number_of_servers, mt_client_send}
use cpsc.Message.{DataMessage}
use cpsc.Connection.{Datagram, datagram}
use cpsc.Server.State.{Server, add_to_message_list}
use cpsc.Server.Listen.{listen_udp}
use cpsc.Server.Listen.Hop.{IsCarried}
use cpsc.Network.Forwarding.{received_here, received_left_of, received_right_of}
use cpsc.Network.Row.{IsRow}
use cpsc.Network.Delivery.{IsKnownAt, known_from_left, known_from_right}
use cpsc.Network.{Flight, Network, Receives}

abbrev pub distance : ℕ → ℕ → ℕ
distance i j = (i - j) + (j - i)

module _ {E T : Type 0} (m : DataMessage) (server : ℕ → Server E T) (k : ℕ) where
  -- Server `k` has stored the message, no other server has changed, and nothing is on its way.
  pub record IsDelivered (n : Network E T) : Type 0 where
    pub here : n.server k ≡ add_to_message_list m (server k)
    pub others : (i : ℕ) → i ≢ k → n.server i ≡ server i
    pub empty : n.in_flight ≡ []

module _ {E T : Type 0} (address : ℕ → E) (bytes : Bytes) (server : ℕ → Server E T) where
  abbrev pub flight_to : ℕ → E → Flight E
  flight_to i sender = record {
    sender = sender;
    content = record { to = address i; bytes = bytes };
  }

  -- The message is on its way to server `i`, and no server has changed.
  pub record IsAt (n : Network E T) (i : ℕ) (sender : E) : Type 0 where
    pub inside : i < number_of_servers
    pub servers : (j : ℕ) → n.server j ≡ server j
    pub alone : n.in_flight ≡ flight_to i sender ∷ []

module _ {E T : Type 0} (address : ℕ → E) (now : T) (m : DataMessage) (bytes : Bytes)
    (server : ℕ → Server E T) (k : ℕ)
    (distinct : (i j : ℕ)
      → i < number_of_servers
      → j < number_of_servers
      → address i ≡ address j
      → i ≡ j)
    (carried : IsCarried m bytes) (sends : m.message_type ≡ mt_client_send)
    (row : IsRow address server) (known : IsKnownAt server m.destination_identifier k)
    (k_inside : k < number_of_servers) where
  -- What server `i` does with the message.
  data Hops (i : ℕ) (sender : E) : Type 0 where
    stays :
        i ≡ k
        → listen_udp now (datagram sender bytes) (server i)
          ≡ returns (add_to_message_list m (server i), [])
        → Hops i sender
    goes :
        (j : ℕ)
        → j < number_of_servers
        → suc (distance j k) ≡ distance i k
        → listen_udp now (datagram sender bytes) (server i)
          ≡ returns (server i, record { to = address j; bytes = bytes } ∷ [])
        → Hops i sender

  hop_left : (i : ℕ) (sender : E) → i < number_of_servers → k < i → Hops i sender
  hop_left zero sender inside above = absurd (omega arith)
  hop_left (suc i) sender inside above =
      let from =
        known_from_right address server m.destination_identifier k row known k_inside (suc i)
          inside in
      goes i (omega arith) (omega arith) (
        received_right_of now sender m bytes carried sends (server (suc i))
          (row.well_formed (suc i) inside) (address i)
          (from.away (suc i) (omega arith) (omega arith))
          (from.left (suc i) (omega arith) (omega arith)) (λ c at. row.to_left i c inside at))

  hop_right : (i : ℕ) (sender : E) → i < k → Hops i sender
  hop_right i sender below =
      let from = known_from_left address server m.destination_identifier k row known k_inside i in
      let inside : i < number_of_servers = omega arith in
      goes (suc i) (omega arith) (omega arith) (
        received_left_of now sender m bytes carried sends (server i) (row.well_formed i inside)
          (address (suc i)) (from.away i (omega arith) below) (from.not_left i (omega arith) below)
          (from.right i (omega arith) below) (λ c at. row.to_right i c (omega arith) at))

  hop_here : (sender : E) → Hops k sender
  hop_here sender = stays refl (
      received_here now sender m bytes carried sends (server k) (row.well_formed k k_inside)
        known.connected)

  hop : (i : ℕ) (sender : E) → i < number_of_servers → Hops i sender
  hop i sender inside = elim (Bool-cases (leb k i)) [
    | inr below ↦ hop_right i sender (ground arith)
    | inl from ↦ elim (Bool-cases (i == k)) [
      | inl same ↦ subst (λ j. Hops j sender) (sym ((==_iff i k).0 same)) (hop_here sender)
      | inr other ↦ hop_left i sender inside (ground arith)
    ]
  ]

  -- What a receipt does: the server that the message is on its way to handles it.
  pub step-IsAt :
      {n n' : Network E T} (i : ℕ) (sender : E)
      → IsAt address bytes server n i sender
      → Receives address now n n'
      → ((i ≡ k) × IsDelivered m server k n')
        ⊎ ((j : ℕ) × (suc (distance j k) ≡ distance i k)
            × IsAt address bytes server n' j (address i))
  step-IsAt {n} {n'} i sender at r =
      let (e_before, e_flight, e_behind) =
        singleton_split (flight_to address bytes server i sender) r.flight r.before r.behind
          (sym at.alone ∙ r.taken) in
      let place : i ≡ r.i =
        distinct i r.i at.inside r.inside
          (ap (λ (f : Flight E). f.content.to) (sym e_flight) ∙ r.arrived) in
      let handled : listen_udp now (datagram sender bytes) (server i)
          ≡ returns (n'.server i, r.sent) =
        ap (λ s. listen_udp now (datagram sender bytes) s) (sym (at.servers i))
        ∙ ap (λ (f : Flight E). listen_udp now (datagram f.sender f.content.bytes) (n.server i))
            (sym e_flight)
        ∙ subst
            (λ j.
              listen_udp now (datagram r.flight.sender r.flight.content.bytes) (n.server j)
              ≡ returns (n'.server j, r.sent))
            (sym place) r.handled in
      let others =
        λ (j : ℕ) (other : j ≢ i). r.others j (λ e. other (e ∙ sym place)) ∙ at.servers j in
      let left_over : n'.in_flight
          ≡ map (λ d. record { sender = address i; content = d }) r.sent ++ [] =
        subst
          (λ b.
            n'.in_flight
            ≡ b ++ (map (λ d. record { sender = address i; content = d }) r.sent ++ []))
          e_before
          (subst
            (λ c.
              n'.in_flight
              ≡ r.before ++ (map (λ d. record { sender = address i; content = d }) r.sent ++ c))
            e_behind
            (subst
              (λ j.
                n'.in_flight
                ≡ r.before
                  ++ (map (λ d. record { sender = address j; content = d }) r.sent ++ r.behind))
              (sym place) r.rest)) in
      elim (hop i sender at.inside) [
        | stays here e ↦
            let both = returns_inj (sym handled ∙ e) in
            inl (
              here,
              record {
                here =
                    subst (λ j. n'.server j ≡ add_to_message_list m (server j)) here
                      (ap (λ q. q.0) both);
                others = λ j other. others j (λ e. other (e ∙ here));
                empty =
                    left_over
                    ∙ ap (λ o. map (λ d. record { sender = address i; content = d }) o ++ [])
                        (ap (λ q. q.1) both);
              },
            )
        | goes j inside nearer e ↦
            let both = returns_inj (sym handled ∙ e) in
            inr (
              j,
              nearer,
              record {
                inside = inside;
                servers = λ l. elim (Bool-cases (l == i)) [
                  | inl same ↦
                      subst (λ j. n'.server j ≡ server j) (sym ((==_iff l i).0 same))
                        (ap (λ q. q.0) both)
                  | inr other ↦ others l (not_of_false _ (==_iff l i) other)
                ];
                alone =
                    left_over
                    ∙ ap (λ o. map (λ d. record { sender = address i; content = d }) o ++ [])
                        (ap (λ q. q.1) both);
              },
            )
      ]

  received-Receives :
      (n : Network E T) (i : ℕ) (sender : E) (t : Server E T) (sent : List (Datagram E))
      → IsAt address bytes server n i sender
      → listen_udp now (datagram sender bytes) (server i) ≡ returns (t, sent)
      → (n' : Network E T) × Receives address now n n'
  received-Receives n i sender t sent at e = (
    record {
      server = λ j. if j == i then t else n.server j;
      in_flight = map (λ d. record { sender = address i; content = d }) sent ++ [];
    },
    record {
      i = i;
      inside = at.inside;
      flight = flight_to address bytes server i sender;
      before = [];
      behind = [];
      sent = sent;
      taken = at.alone;
      arrived = refl;
      handled =
          rw ((==_iff i i).1 refl)
            (ap (λ s. listen_udp now (datagram sender bytes) s) (at.servers i) ∙ e);
      others = λ j other. rw (==_ne j i other) refl;
      rest = refl;
    },
  )

  -- The message on its way can be received.
  pub IsAt-Receives :
      (n : Network E T) (i : ℕ) (sender : E)
      → IsAt address bytes server n i sender
      → (n' : Network E T) × Receives address now n n'
  IsAt-Receives n i sender at = elim (hop i sender at.inside) [
    | stays here e ↦ received-Receives n i sender _ _ at e
    | goes j inside nearer e ↦ received-Receives n i sender _ _ at e
  ]
