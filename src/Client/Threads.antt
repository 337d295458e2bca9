-- ===== src/Client/Threads.antt =====
-- `run()`: the three threads of a client and the `while` loops in them. A schedule is the order in
-- which the threads do their rounds.
pub mod Runs
pub mod Endless
use cpsc.Common.{[], ◌∷◌, ◌++◌, List, Outcome, returns, ◌>>=◌, if◌then◌else◌}
use cpsc.Text.{Bytes}
use cpsc.Connection.{Event}
use cpsc.Client.{Client, Result, get_round, input_round, receive_round}

-- One round of one thread: `input_loop` with the line that the user entered, and `receive_loop`
-- with what the socket gave.
pub data Round (E : Type 0) : Type 0 where
  get_loop : Round E
  input_loop : Bytes → Round E
  receive_loop : Event E → Round E

module _ {E : Type 0} where
  unfoldable pub do_round : Round E → Client E → Result E
  do_round get_loop c = get_round c
  do_round (input_loop line) c = input_round line c
  do_round (receive_loop event) c = receive_round event c

  -- `while(!this->m_terminate)`: a thread whose test fails does nothing more.
  unfoldable pub loop_round : Round E → Client E → Result E
  unfolding do_round
  loop_round round c = if c.terminate then returns (c, []) else do_round round c

  unfoldable pub run : List (Round E) → Client E → Result E
  unfolding loop_round
  run [] c = returns (c, [])
  run (round ∷ rounds) c =
      loop_round round c >>= λ r. run rounds r.0 >>= λ q. returns (q.0, r.1 ++ q.1)
