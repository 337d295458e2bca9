-- ===== src/Network/Termination.antt =====
-- A text message alone on its way: it comes to its destination's server, whatever is received when.
use cpsc.Common.{nil_split, ℕ, suc, ◌+◌, ◌<◌, ◌≤◌, [], ◌≡◌, ◌⊎◌, inl, inr, refl, sym, ◌∙◌, arith}
use cpsc.Text.{Bytes}
use cpsc.Constants.{number_of_servers, mt_client_send}
use cpsc.Message.{DataMessage}
use cpsc.Server.State.{Server}
use cpsc.Server.Listen.Hop.{IsCarried}
use cpsc.Network.Row.{IsRow, on_way}
use cpsc.Network.Delivery.{IsKnownAt}
use cpsc.Network.{Network, Receives, Runs, done, then_receives}
use cpsc.Network.Alone.{distance, IsDelivered, IsAt, step-IsAt, IsAt-Receives}

-- The number of receipts in a run.
abbrev pub receipts :
    {E T : Type 0} {address : ℕ → E} {now : T} {n n' : Network E T} → Runs address now n n' → ℕ
receipts done = 0
receipts (then_receives step run) = suc (receipts run)

module _ {E T : Type 0} (address : ℕ → E) (now : T) (m : DataMessage) (bytes : Bytes)
    (server : ℕ → Server E T) (k : ℕ)
    (distinct : (i j : ℕ)
      → i < number_of_servers
      → j < number_of_servers
      → address i ≡ address j
      → i ≡ j)
    (carried : IsCarried m bytes) (sends : m.message_type ≡ mt_client_send)
    (row : IsRow address server) (known : IsKnownAt server m.destination_identifier k)
    (k_inside : k < number_of_servers) where
  -- Where a run has come to: the message is on its way, or it has arrived.
  data Stands (i count : ℕ) (n : Network E T) : Type 0 where
    on_its_way :
        (j : ℕ) (sender : E)
        → IsAt address bytes server n j sender
        → count + distance j k ≡ distance i k
        → Stands i count n
    arrived : IsDelivered m server k n → count ≡ suc (distance i k) → Stands i count n

  Stands-further :
      (i j count : ℕ) (n : Network E T)
      → suc (distance j k) ≡ distance i k
      → Stands j count n
      → Stands i (suc count) n
  Stands-further i j count n nearer (on_its_way l sender at e) =
      on_its_way l sender at (omega arith)
  Stands-further i j count n nearer (arrived d e) = arrived d (omega arith)

  -- Nothing is received when nothing is on its way.
  IsDelivered-Runs :
      {n n' : Network E T} (i : ℕ)
      → distance i k ≡ 0
      → IsDelivered m server k n
      → (run : Runs address now n n') → Stands i (suc (receipts run)) n'
  IsDelivered-Runs i last d done = arrived d (omega arith)
  IsDelivered-Runs i last d (then_receives r run) =
      absurd (nil_split r.flight r.before r.behind (sym d.empty ∙ r.taken))

  Runs-Stands :
      {n n' : Network E T} (i : ℕ) (sender : E)
      → IsAt address bytes server n i sender
      → (run : Runs address now n n') → Stands i (receipts run) n'
  Runs-Stands i sender at done = on_its_way i sender at (omega arith)
  Runs-Stands {n} {n'} i sender at (then_receives r run) =
      elim (step-IsAt address now m bytes server k distinct carried sends row known k_inside i
        sender at r) [
          | inl (here, d) ↦ IsDelivered-Runs i (omega arith) d run
          | inr (j, nearer, at') ↦
              Stands-further i j (receipts run) n' nearer (Runs-Stands j (address i) at' run)
        ]

  -- A text message that is alone on its way is delivered by whatever receipts take place: no run of
  -- receipts is longer than one more than the servers it has to pass, and one that cannot go on has
  -- ended with the message in the list of its destination's server, and with no other change. The
  -- row is well formed, the servers have different endpoints, the message can be carried, and its
  -- destination is connected to one server alone, for which the lists of all others name it.
  pub Runs-IsDelivered :
      (i : ℕ) (sender : E)
      → i < number_of_servers
      → {n' : Network E T}
      → (run : Runs address now (on_way server [] [] bytes sender (address i)) n')
      → (receipts run ≤ suc (distance i k))
        × (IsDelivered m server k n' ⊎ ((n'' : Network E T) × Receives address now n' n''))
  Runs-IsDelivered i sender inside {n'} run =
      elim (Runs-Stands i sender (record { inside = inside; servers = λ j. refl; alone = refl })
        run) [
          | on_its_way j from at e ↦ (
            omega arith,
            inr (
                IsAt-Receives address now m bytes server k distinct carried sends row known k_inside
                  n' j from at),
          )
          | arrived d e ↦ (omega arith, inl d)
        ]
