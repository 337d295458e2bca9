-- ===== src/Server/Threads.antt =====
-- `run()`: the four threads and the `while` loops in them. A schedule is the order in which the
-- threads do their rounds.
pub mod Runs
pub mod Endless
use cpsc.Common.{[], ◌∷◌, ◌++◌, List, Outcome, returns, ◌>>=◌, if◌then◌else◌}
use cpsc.Connection.{Event}
use cpsc.Server.State.{Server, Result}
use cpsc.Server.Routing.{attempt_forward}
use cpsc.Server.Sync.{send_sync_payloads}
use cpsc.Server.Listen.{listen_udp}

-- One round of one thread, with what the clock and the socket give it.
pub data Round (E T : Type 0) : Type 0 where
  listen_loop_udp : T → Event E → Round E T
  listen_loop_bluetooth : Round E T
  sync_loop : Round E T
  forward_loop : Round E T

module _ {E T : Type 0} where
  -- The body of the thread's loop; that of the Bluetooth loop is empty.
  unfoldable pub do_round : Round E T → Server E T → Result E T
  do_round (listen_loop_udp now event) s = listen_udp now event s
  do_round listen_loop_bluetooth s = returns (s, [])
  do_round sync_loop s = send_sync_payloads s
  do_round forward_loop s = attempt_forward s

  -- `while(!this->m_terminate)`: a thread whose test fails does nothing more.
  unfoldable pub loop_round : Round E T → Server E T → Result E T
  unfolding do_round
  loop_round round s = if s.terminate then returns (s, []) else do_round round s

  unfoldable pub run : List (Round E T) → Server E T → Result E T
  unfolding loop_round
  run [] s = returns (s, [])
  run (round ∷ rounds) s =
      loop_round round s >>= λ r. run rounds r.0 >>= λ q. returns (q.0, r.1 ++ q.1)
