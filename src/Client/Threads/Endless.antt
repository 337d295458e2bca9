-- ===== src/Client/Threads/Endless.antt =====
-- A schedule of the threads of a client, round for round.
use cpsc.Common.{
  ℤ, ◌≡◌, ◌∙◌, [], ◌∷◌, ◌++◌, List, refl, ap, All, false, returns, ◌>>=◌, Returns, Returns-eq,
  Returns-bind, if◌then◌else◌,
}
use cpsc.Client.{Client, Result, Effect}
use cpsc.Client.Threads.{Round, do_round, loop_round, run}
use cpsc.Client.Threads.Runs.{IsHarmless, IsRunning, SameUser, number_after, do_round-SameUser}

module _ {E : Type 0} where
  -- The bodies of the loops, one after the other, with no test between them.
  unfoldable pub carry_out : List (Round E) → Client E → Result E
  carry_out [] c = returns (c, [])
  carry_out (round ∷ rounds) c =
      do_round round c >>= λ r. carry_out rounds r.0 >>= λ q. returns (q.0, r.1 ++ q.1)

  -- The number behind all rounds: one more for each that makes a message of the client's own.
  abbrev pub number_after_all : List (Round E) → ℤ → ℤ
  number_after_all [] n = n
  number_after_all (round ∷ rounds) n = number_after_all rounds (number_after round n)

  pub record KeepsRunning (rounds : List (Round E)) (c : Client E) : Type 0 where
    pub carried_out : run rounds c ≡ carry_out rounds c
    pub returned : Returns (SameUser c (number_after_all rounds c.sequence_number)) (run rounds c)

  loop_round-live :
      (round : Round E) (c : Client E) → c.terminate ≡ false → loop_round round c ≡ do_round round c
  unfolding loop_round
  loop_round-live round c live = ap (λ b. if b then returns (c, []) else do_round round c) live

  KeepsRunning-cons :
      (round : Round E) (rounds : List (Round E)) (c d : Client E) (effects : List (Effect E))
      → c.terminate ≡ false
      → do_round round c ≡ returns (d, effects)
      → SameUser c (number_after round c.sequence_number) (d, effects)
      → KeepsRunning rounds d
      → KeepsRunning (round ∷ rounds) c
  unfolding run carry_out
  KeepsRunning-cons round rounds c d effects live e same rest =
      let step = loop_round-live round c live ∙ e in
      record {
        carried_out =
            rw (step, e) (ap (λ r. r >>= λ q. returns (q.0, effects ++ q.1)) rest.carried_out);
        returned = rw step (
            Returns-bind (SameUser d (number_after_all rounds d.sequence_number))
              (SameUser c (number_after_all (round ∷ rounds) c.sequence_number)) (run rounds d)
              (λ q. returns (q.0, effects ++ q.1)) rest.returned
              (λ q later. record {
                running = later.running;
                number = later.number ∙ ap (number_after_all rounds) same.number;
                username = later.username ∙ same.username;
                server_index = later.server_index ∙ same.server_index;
              }));
      }

  -- A running client goes on for ever: whatever the user enters, every schedule of the rounds of
  -- its three threads is carried out to the end, no loop test fails, and the client is again
  -- running, for the same user and server, if each datagram that arrives makes the parser throw or
  -- is a server's message or a ping. Its sequence number grows by one with each get and with each
  -- command, and with nothing else.
  pub run-KeepsRunning :
      (rounds : List (Round E)) (c : Client E)
      → IsRunning c
      → All IsHarmless rounds
      → KeepsRunning rounds c
  unfolding run carry_out
  run-KeepsRunning [] c w harmless = record {
    carried_out = refl;
    returned = record { running = w; number = refl; username = refl; server_index = refl };
  }
  run-KeepsRunning (round ∷ rounds) c w harmless =
      let ((d, effects), e, same) =
        Returns-eq (SameUser c (number_after round c.sequence_number)) (do_round round c)
          (do_round-SameUser round c w harmless.0) in
      KeepsRunning-cons round rounds c d effects w.live e same
        (run-KeepsRunning rounds d same.running harmless.1)
