-- ===== src/Server/Threads/Endless.antt =====
-- A schedule of the threads of a server, round for round.
use cpsc.Common.{
  ◌≡◌, ◌∙◌, [], ◌∷◌, ◌++◌, List, refl, sym, ap, All, false, returns, ◌>>=◌, Returns, Returns-eq,
  Ensures-returns, if◌then◌else◌, Returns-bind,
}
use cpsc.Connection.{Datagram}
use cpsc.Server.State.{Server, Result}
use cpsc.Server.State.WellFormed.{IsWellFormed}
use cpsc.Server.Routing.Preserve.{StaysWellFormed}
use cpsc.Server.Listen.Keeps.{Keeps}
use cpsc.Server.Threads.{Round, do_round, loop_round, run}
use cpsc.Server.Threads.Runs.{
  IsHarmless, All-IsHarmless-index, do_round-IsWellFormed, do_round-Keeps,
}

module _ {E T : Type 0} where
  -- The bodies of the loops, one after the other, with no test between them.
  unfoldable pub carry_out : List (Round E T) → Server E T → Result E T
  carry_out [] s = returns (s, [])
  carry_out (round ∷ rounds) s =
      do_round round s >>= λ r. carry_out rounds r.0 >>= λ q. returns (q.0, r.1 ++ q.1)

  -- Every round was carried out, and the server is ready for the next.
  pub record GoesOn (rounds : List (Round E T)) (s : Server E T) : Type 0 where
    pub carried_out : run rounds s ≡ carry_out rounds s
    pub returned :
        Returns
          (λ r. IsWellFormed r.0 × (r.0.index ≡ s.index) × (r.0.terminate ≡ false))
          (run rounds s)

  loop_round-live :
      (round : Round E T) (s : Server E T)
      → s.terminate ≡ false
      → loop_round round s ≡ do_round round s
  unfolding loop_round
  loop_round-live round s live = ap (λ b. if b then returns (s, []) else do_round round s) live

  -- One round, with its result, and the others.
  GoesOn-cons :
      (round : Round E T) (rounds : List (Round E T)) (s t : Server E T) (sent : List (Datagram E))
      → s.terminate ≡ false
      → do_round round s ≡ returns (t, sent)
      → t.index ≡ s.index
      → GoesOn rounds t
      → GoesOn (round ∷ rounds) s
  unfolding run carry_out
  GoesOn-cons round rounds s t sent live e index rest =
      let step = loop_round-live round s live ∙ e in
      record {
        carried_out =
            rw (step, e) (ap (λ r. r >>= λ q. returns (q.0, sent ++ q.1)) rest.carried_out);
        returned = rw step (
            Returns-bind (λ r. IsWellFormed r.0 × (r.0.index ≡ t.index) × (r.0.terminate ≡ false))
              (λ r. IsWellFormed r.0 × (r.0.index ≡ s.index) × (r.0.terminate ≡ false))
              (run rounds t) (λ q. returns (q.0, sent ++ q.1)) rest.returned
              (λ q (w, i, live'). (w, i ∙ index, live')));
      }

  -- A running server goes on for ever: on a well-formed server whose `terminate` is not set, every
  -- schedule of the rounds of its four threads is carried out to the end, no loop test fails, and
  -- the server is again well formed and running, with its index, if each datagram that arrives
  -- can be dropped or handled by a server of its index.
  pub run-GoesOn :
      (rounds : List (Round E T)) (s : Server E T)
      → IsWellFormed s
      → s.terminate ≡ false
      → All (IsHarmless s) rounds
      → GoesOn rounds s
  unfolding run carry_out
  run-GoesOn [] s w live harmless = record { carried_out = refl; returned = (w, refl, live) }
  run-GoesOn (round ∷ rounds) s w live harmless =
      let ((t, sent), e, w') =
        Returns-eq StaysWellFormed (do_round round s)
          (do_round-IsWellFormed s round w harmless.0) in
      let kept = Ensures-returns (Keeps s) (do_round round s) e (do_round-Keeps s round w) in
      GoesOn-cons round rounds s t sent live e kept.index (
        run-GoesOn rounds t w' (kept.terminate ∙ live)
          (All-IsHarmless-index s t rounds (sym kept.index) harmless.1))
