-- ===== src/Tests/Networks.antt =====
-- A message from Alpha to Delta.
use cpsc.Common.{
  ℕ, zero, suc, pos, [], ◌∷◌, ◌<◌, ◌==◌, ==_ne, ◌↔◌, Holds, Option, none, some, if◌then◌else◌,
  false, ◌≡◌, refl, arith, inl,
}
use cpsc.Text.{Bytes, codes, find, to_string}
use cpsc.Constants.{number_of_servers}
use cpsc.Message.{as_char_vector, view_message_type_as_string}
use cpsc.Connection.{RemoteConnection, remote_connection}
use cpsc.Server.State.{Server, left_of, clients_served}
use cpsc.Server.State.WellFormed.{IsWellFormed}
use cpsc.Server.Listen.Hop.{IsCarried}
use cpsc.Network.{Runs}
use cpsc.Network.Row.{IsRow, on_way, delivered}
use cpsc.Network.Delivery.{IsKnownAt, Runs-delivered}
use cpsc.Tests.Fixtures.{waiting_message}

-- The endpoint of server `i` is `i`.
abbrev pub place : ℕ → ℕ
place i = i

abbrev pub row_left : ℕ → Option (RemoteConnection ℕ ℕ)
row_left zero = none
row_left (suc i) = some (remote_connection (codes "left") i 7)

abbrev pub row_right : ℕ → Option (RemoteConnection ℕ ℕ)
row_right i = if i == 4 then none else some (remote_connection (codes "right") (suc i) 7)

abbrev pub row_server : ℕ → Server ℕ ℕ
row_server i = record {
  index = i;
  terminate = false;
  sequence_number = pos 0;
  message_list = [];
  message_list_of_unassociated_clients = [];
  connected_clients = if i == 3 then remote_connection (codes "cat") 100 7 ∷ [] else [];
  left_adjacent_server_index = left_of i;
  left_adjacent_server_connection = row_left i;
  right_adjacent_server_index = pos (suc i);
  right_adjacent_server_connection = row_right i;
  clients_served_by_server_index = [] ∷ [] ∷ [] ∷ (codes "cat" ∷ []) ∷ [] ∷ [];
}

pub row_left_end : (i : ℕ) → (row_left i ≡ none) ↔ (i ≡ 0)
row_left_end zero = ((λ e. refl), (λ e. refl))
row_left_end (suc i) = ((λ e. cc), (λ e. absurd (omega arith)))

row_server-IsWellFormed : (i : ℕ) → i < number_of_servers → IsWellFormed (row_server i)
row_server-IsWellFormed i inside = record {
  placed = record {
    in_range = inside;
    left_index = refl;
    right_index = refl;
    left_end = row_left_end i;
    right_end = ((λ e. ground arith), (λ e. ground arith));
  };
  tables = refl;
  kept = tt;
  waiting = tt;
}

pub row_server-IsRow : IsRow place row_server
row_server-IsRow = record {
  well_formed = row_server-IsWellFormed;
  index = λ i inside. refl;
  to_left = λ i c inside e. ground arith;
  to_right = λ i c inside e. ground arith;
}

only_delta :
    (j : ℕ) → j < number_of_servers → Holds (codes "cat") (clients_served (row_server 0) j) → j ≡ 3
only_delta zero below h = absurd h
only_delta (suc zero) below h = absurd h
only_delta (suc (suc zero)) below h = absurd h
only_delta (suc (suc (suc zero))) below h = refl
only_delta (suc (suc (suc (suc zero)))) below h = absurd h
only_delta (suc (suc (suc (suc (suc j))))) below h = absurd (omega arith)

pub cat-IsKnownAt : IsKnownAt row_server (codes "cat") 3
cat-IsKnownAt = record {
  connected = inl refl;
  away = λ i inside other. rw (==_ne i 3 other) (λ h. h);
  listed = λ i inside other. inl refl;
  only = λ i j inside other below found. only_delta j below found;
}

abbrev pub to_cat_bytes : Bytes
to_cat_bytes = codes "1/?client send/?ann/?cat/? hi/?-1/?"

pub waiting_message-IsCarried : IsCarried waiting_message to_cat_bytes
unfolding find as_char_vector view_message_type_as_string to_string
waiting_message-IsCarried = record {
  plain = record { source = refl; destination = refl; payload = refl; origin = refl };
  number = refl;
  printed = refl;
  fits = omega arith;
}

Runs-delivered_example :
    Runs place 9
      (on_way row_server [] [] to_cat_bytes 200 (place 0))
      (delivered row_server [] [] waiting_message 3)
Runs-delivered_example =
    Runs-delivered place 9 waiting_message to_cat_bytes row_server 3 [] [] waiting_message-IsCarried
      refl row_server-IsRow cat-IsKnownAt (omega arith) 0 200 (omega arith)
