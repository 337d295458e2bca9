-- ===== src/Network/Knowing.antt =====
-- What servers know of a client when one of them has told its neighbour.
use cpsc.Common.{
  ℤ, ℕ, ◌+◌, ◌<◌, ◌^◌, pos, List, ◌≡◌, ◌≢◌, ◌∙◌, ◌⊎◌, refl, sym, subst, ap, arith, Holds, inl, inr,
  Bool-cases, ◌==◌, ==_iff, not_of_false,
}
use cpsc.Text.{Bytes}
use cpsc.Constants.{number_of_servers}
use cpsc.Server.State.{Server, clients_served}
use cpsc.Server.Routing.Search.{IsConnected}
use cpsc.Server.Sync.{refresh_own_clients}
use cpsc.Network.{Network}
use cpsc.Network.Direction.{Direction, IsFrom, Holds-sources, sources}
use cpsc.Network.Steps.{start}
use cpsc.Network.Work.{Work-History}
use cpsc.Network.Everywhere.{History-IsRunningRow}
use cpsc.Network.Spread.{own_names, own_entry, other_entry}
use cpsc.Network.Chain.{Holds-ne-nil}
use cpsc.Network.Lists.{Learns-entry}
use cpsc.Network.Quiet.{IsFair, HasFairLists, IsQuiet, refresh-HasFairLists}
use cpsc.Network.Telling.{Tells}

-- Server `l` is `i`, or else `j`, or none of the two.
pub one_of : (i j l : ℕ) → (l ≡ i) ⊎ (((l ≢ i) × (l ≡ j)) ⊎ ((l ≢ i) × (l ≢ j)))
one_of i j l = elim (Bool-cases (l == i)) [
  | inl e ↦ inl ((==_iff l i).0 e)
  | inr e ↦
      let other = not_of_false _ (==_iff l i) e in
      elim (Bool-cases (l == j)) [
        | inl e' ↦ inr (inl (other, (==_iff l j).0 e'))
        | inr e' ↦ inr (inr (other, not_of_false _ (==_iff l j) e'))
      ]
]

module _ {E T : Type 0} (name : Bytes) (k : ℕ) where
  -- The lists of server `l` name the client for its server.
  abbrev pub Knows : Network E T → ℕ → Type 0
  Knows n l = Holds name (clients_served (n.server l) k)

module _ {E T : Type 0} (address : ℕ → E) (now : T) (name : Bytes) (k : ℕ) where
  module _ {d : Direction} {i j a : ℕ} {n n' : Network E T}
      (tells : Tells address now d i j a n n') where
    -- What depends on neither the lists nor the number of a server is as it was.
    same-Tells :
        {A : Type 0} (f : Server E T → A)
        → ((s : Server E T) (x : List (List Bytes)) (y : ℤ)
            → f (record s { clients_served_by_server_index = x; sequence_number = y }) ≡ f s)
        → (l : ℕ) → f (n'.server l) ≡ f (n.server l)
    unfolding refresh_own_clients
    same-Tells f same l = elim (one_of i j l) [
      | inl e ↦
          subst (λ x. f (n'.server x) ≡ f (n.server x)) (sym e)
            (ap f tells.teller ∙ same (n.server i) _ _)
      | inr (inl (_, e)) ↦
          subst (λ x. f (n'.server x) ≡ f (n.server x)) (sym e)
            (ap f tells.learned.others ∙ same (n.server j) _ _)
      | inr (inr (other, other')) ↦ ap f (tells.others l other other')
    ]

    pub own_names-Tells : (l : ℕ) → own_names (n'.server l) ≡ own_names (n.server l)
    own_names-Tells = same-Tells own_names (λ s x y. refl)

    pub message_list-Tells : (l : ℕ) → (n'.server l).message_list ≡ (n.server l).message_list
    message_list-Tells = same-Tells (λ s. s.message_list) (λ s x y. refl)

    pub connected_clients-Tells :
        (l : ℕ) → (n'.server l).connected_clients ≡ (n.server l).connected_clients
    connected_clients-Tells = same-Tells (λ s. s.connected_clients) (λ s x y. refl)

    -- Each list of a server is then an old one, or one of the server that synced.
    entry-Tells :
        (l m : ℕ)
        → (clients_served (n'.server l) m ≡ clients_served (refresh_own_clients (n.server i)) m)
          ⊎ (clients_served (n'.server l) m ≡ clients_served (n.server l) m)
    entry-Tells l m = elim (one_of i j l) [
      | inl e ↦ inl (
          ap (λ (x : ℕ). clients_served (n'.server x) m) e
          ∙ ap (λ (x : Server E T). clients_served x m) tells.teller)
      | inr (inl (_, e)) ↦
          subst
            (λ x.
              (clients_served (n'.server x) m ≡ clients_served (refresh_own_clients (n.server i)) m)
              ⊎ (clients_served (n'.server x) m ≡ clients_served (n.server x) m))
            (sym e)
            (Learns-entry (refresh_own_clients (n.server i)) (sources d i) (n.server j)
              (n'.server j) m tells.learned)
      | inr (inr (other, other')) ↦
          inr (ap (λ (x : Server E T). clients_served x m) (tells.others l other other'))
    ]

    number-Tells :
        (room : ℕ)
        → a + (room + 11) < 2 ^ 31
        → (l b : ℕ) → (n.server l).sequence_number ≡ pos b
        → b + (room + 11) < 2 ^ 31
        → (c : ℕ) × ((n'.server l).sequence_number ≡ pos c) × (c + room < 2 ^ 31)
    number-Tells room enough l b number enough' = elim (one_of i j l) [
      | inl e ↦ (
        tells.last,
        ap (λ (x : ℕ). (n'.server x).sequence_number) e
            ∙ ap (λ (x : Server E T). x.sequence_number) tells.teller,
        omega (arith, tells.below),
      )
      | inr (inl (_, e)) ↦ (
        b,
        subst (λ x. (n'.server x).sequence_number ≡ (n.server x).sequence_number) (sym e)
              (ap (λ (x : Server E T). x.sequence_number) tells.learned.others)
            ∙ number,
        omega arith,
      )
      | inr (inr (other, other')) ↦ (
        b,
        ap (λ (x : Server E T). x.sequence_number) (tells.others l other other') ∙ number,
        omega arith,
      )
    ]

  -- The lists of server `i` when it has entered its own clients.
  pub refreshed :
      {room : ℕ} {n : Network E T} (i : ℕ)
      → i < number_of_servers
      → IsQuiet address name k room n
      → HasFairLists name k (refresh_own_clients (n.server i))
  refreshed {n = n} i inside q =
      let row = q.running.row in
      refresh-HasFairLists name k (n.server i) (row.well_formed i inside) (q.lists i inside) (
        subst (λ x. IsFair name k x (own_names (n.server i))) (sym (row.index i inside))
          (q.own i inside))

  pub Tells-IsQuiet :
      {d : Direction} {i j a room : ℕ} {n n' : Network E T}
      → i < number_of_servers
      → a + (room + 11) < 2 ^ 31
      → IsQuiet address name k (room + 11) n
      → Tells address now d i j a n n'
      → IsQuiet address name k room n'
  Tells-IsQuiet {i = i} {room = room} {n = n} {n' = n'} inside enough q tells = record {
    running = History-IsRunningRow address q.running (Work-History address now start tells.work);
    lists = λ l below m below'. elim (entry-Tells tells l m) [
      | inl e ↦ subst (IsFair name k m) (sym e) (refreshed i inside q m below')
      | inr e ↦ subst (IsFair name k m) (sym e) (q.lists l below m below')
    ];
    own = λ l below. subst (IsFair name k l) (sym (own_names-Tells tells l)) (q.own l below);
    numbers = λ l below.
        let (b, number, enough') = q.numbers l below in
        number-Tells tells room enough l b number enough';
  }

  refreshed-Holds :
      {room : ℕ} {n : Network E T} (i : ℕ)
      → i < number_of_servers
      → IsQuiet address name k room n
      → IsConnected name (n.server k)
      → ((i ≡ k) ⊎ Knows name k n i)
      → Holds name (clients_served (refresh_own_clients (n.server i)) k)
  refreshed-Holds {n = n} i inside q here knows =
      let place = q.running.row.index i inside in
      let own : i ≡ k → Holds name (clients_served (refresh_own_clients (n.server i)) k) = λ e.
        subst (λ x. Holds name (clients_served (refresh_own_clients (n.server i)) x)) (place ∙ e)
          (subst (Holds name) (sym (own_entry (n.server i) (q.running.row.well_formed i inside)))
            (subst (λ x. IsConnected name (n.server x)) (sym e) here)) in
      elim (Bool-cases (i == k)) [
        | inl same ↦ own ((==_iff i k).0 same)
        | inr other ↦
            let apart = not_of_false _ (==_iff i k) other in
            elim knows [
              | inl e ↦ own e
              | inr h ↦
                  subst (Holds name) (sym (other_entry (n.server i) k (λ e. apart (sym place ∙ e))))
                    h
            ]
      ]

  pub Tells-Knows :
      {d : Direction} {i j a room : ℕ} {n n' : Network E T}
      → i < number_of_servers
      → IsQuiet address name k room n
      → IsConnected name (n.server k)
      → ((i ≡ k) ⊎ Knows name k n i)
      → Tells address now d i j a n n'
      → (l : ℕ) → Knows name k n l
      → Knows name k n' l
  Tells-Knows {i = i} inside q here knows tells l h = elim (entry-Tells tells l k) [
    | inl e ↦ subst (Holds name) (sym e) (refreshed-Holds i inside q here knows)
    | inr e ↦ subst (Holds name) (sym e) h
  ]

  pub Tells-Knows_next :
      (d : Direction) {i j a room : ℕ} {n n' : Network E T}
      → i < number_of_servers
      → k < number_of_servers
      → IsFrom d k i
      → IsQuiet address name k room n
      → IsConnected name (n.server k)
      → ((i ≡ k) ⊎ Knows name k n i)
      → Tells address now d i j a n n'
      → Knows name k n' j
  Tells-Knows_next d {i} inside k_inside from q here knows tells =
      let h = refreshed-Holds i inside q here knows in
      subst (Holds name)
        (sym (tells.learned.learned k (Holds-sources d k i k_inside from) (Holds-ne-nil name _ h)))
        h
