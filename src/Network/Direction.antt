-- ===== src/Network/Direction.antt =====
-- The two sides to which a round of `sendSyncPayloads` sends lists, and what is said of each.
use cpsc.Common.{
  ℕ, ℤ, suc, ◌+◌, ◌-◌, ◌<◌, ◌≤◌, ◌≡◌, ◌≢◌, List, Option, arith, Holds, zero, length, refl,
}
use cpsc.Text.{Bytes}
use cpsc.Constants.{number_of_servers, highest_server_index}
use cpsc.Connection.{Datagram, RemoteConnection}
use cpsc.Server.State.{Server, clients_served}
use cpsc.Server.Routing.{ascending, descending}
use cpsc.Server.Routing.Search.{IsServedLeft, IsServedRight, ascending_iff, descending_iff}
use cpsc.Server.Sync.{refresh_own_clients}
use cpsc.Server.Sync.Round.{SyncRound, Side}

pub data Direction : Type 0 where
  rightward : Direction
  leftward : Direction

abbrev pub opposite : Direction → Direction
opposite rightward = leftward
opposite leftward = rightward

-- Server `j` is the next one after server `i`.
abbrev pub IsNext : Direction → ℕ → ℕ → Type 0
IsNext rightward i j = j ≡ suc i
IsNext leftward i j = i ≡ suc j

-- Server `j` is server `i` or further on.
abbrev pub IsFrom : Direction → ℕ → ℕ → Type 0
IsFrom rightward i j = i ≤ j
IsFrom leftward i j = j ≤ i

-- Server `j` is further on than server `i`.
abbrev pub IsPast : Direction → ℕ → ℕ → Type 0
IsPast rightward i j = i < j
IsPast leftward i j = j < i

-- The servers whose lists go to that side, in the order of the code.
abbrev pub sources : Direction → ℕ → List ℕ
sources rightward i = descending (i + 1) i
sources leftward i = ascending (highest_server_index + 1 - i) i

pub IsFrom-refl : (d : Direction) (i : ℕ) → IsFrom d i i
IsFrom-refl rightward i = omega arith
IsFrom-refl leftward i = omega arith

pub IsFrom-IsNext : (d : Direction) (i j k : ℕ) → IsFrom d i j → IsNext d j k → IsPast d i k
IsFrom-IsNext rightward i j k from next = omega arith
IsFrom-IsNext leftward i j k from next = omega arith

pub IsPast-IsFrom : (d : Direction) (i j : ℕ) → IsPast d i j → IsFrom d i j
IsPast-IsFrom rightward i j past = omega arith
IsPast-IsFrom leftward i j past = omega arith

pub IsPast-ne : (d : Direction) (i j : ℕ) → IsPast d i j → i ≢ j
IsPast-ne rightward i j past = λ e. absurd (omega arith)
IsPast-ne leftward i j past = λ e. absurd (omega arith)

pub IsPast-irrefl : (d : Direction) (i : ℕ) → ¬ IsPast d i i
IsPast-irrefl rightward i past = absurd (omega arith)
IsPast-irrefl leftward i past = absurd (omega arith)

pub Holds-sources :
    (d : Direction) (i j : ℕ) → i < number_of_servers → IsFrom d i j → Holds i (sources d j)
Holds-sources rightward i j inside from =
    (descending_iff (j + 1) j i (omega arith)).1 (omega arith, omega arith)
Holds-sources leftward i j inside from =
    (ascending_iff (highest_server_index + 1 - j) j i).1 (omega arith, omega arith)

pub sources-inside :
    (d : Direction) (i j : ℕ)
    → j < number_of_servers
    → Holds i (sources d j)
    → i < number_of_servers
sources-inside rightward i j inside h =
    omega (arith, (descending_iff (j + 1) j i (omega arith)).0 h)
sources-inside leftward i j inside h =
    omega (arith, (ascending_iff (highest_server_index + 1 - j) j i).0 h)

length-ascending : (rounds start : ℕ) → length (ascending rounds start) ≡ rounds
length-ascending zero start = refl
length-ascending (suc rounds) start = omega (arith, length-ascending rounds (start + 1))

length-descending : (rounds start : ℕ) → length (descending rounds start) ≡ rounds
length-descending zero start = refl
length-descending (suc rounds) start = omega (arith, length-descending rounds (start - 1))

pub length-sources : (d : Direction) (j : ℕ) → j < number_of_servers → length (sources d j) ≤ 5
length-sources rightward j inside = omega (arith, length-descending (j + 1) j)
length-sources leftward j inside = omega (arith, length-ascending (highest_server_index + 1 - j) j)

module _ {E T : Type 0} where
  abbrev pub neighbour : Direction → Server E T → Option (RemoteConnection E T)
  neighbour rightward s = s.right_adjacent_server_connection
  neighbour leftward s = s.left_adjacent_server_connection

  abbrev pub neighbour_index : Direction → Server E T → ℤ
  neighbour_index rightward s = s.right_adjacent_server_index
  neighbour_index leftward s = s.left_adjacent_server_index

  module _ {s : Server E T} {r : Server E T × List (Datagram E)} (round : SyncRound s r) where
    -- The datagrams of the round to that side, and the sequence number before them and after.
    abbrev pub datagrams : Direction → List (Datagram E)
    datagrams rightward = round.to_right
    datagrams leftward = round.to_left

    abbrev pub number_before : Direction → ℤ
    number_before rightward = round.between
    number_before leftward = s.sequence_number

    abbrev pub number_behind : Direction → ℤ
    number_behind rightward = round.last
    number_behind leftward = round.between

    pub side :
        (d : Direction)
        → Side
            (refresh_own_clients s)
            (neighbour_index d s)
            (neighbour d s)
            (number_before d)
            (sources d s.index)
            (datagrams d)
            (number_behind d)
    side rightward = round.right
    side leftward = round.left

  -- A server further on looks for a client of `name` on the side that the lists come from.
  abbrev pub IsServedBack : Direction → Bytes → Server E T → Type 0
  IsServedBack rightward name t = IsServedLeft name t
  IsServedBack leftward name t = IsServedRight name t

  pub Holds-IsServedBack :
      (d : Direction) (name : Bytes) (i : ℕ) (t : Server E T)
      → i < number_of_servers
      → IsPast d i t.index
      → Holds name (clients_served t i)
      → IsServedBack d name t
  Holds-IsServedBack rightward name i t inside past here = (i, past, here)
  Holds-IsServedBack leftward name i t inside past here = (i, past, inside, here)

  -- The code looks at the lists of the servers to the left first, so they must not name the client.
  abbrev pub IsPreferred : Direction → Bytes → Server E T → Type 0
  IsPreferred rightward name t = Unit
  IsPreferred leftward name t = ¬ IsServedLeft name t
