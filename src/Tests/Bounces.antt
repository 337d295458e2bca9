-- ===== src/Tests/Bounces.antt =====
-- A row in which ann was on Alpha and then on Bravo, and has left both: an empty list is not sent, so
-- each of the two still has the other's list with her name.
use cpsc.Common.{ℕ, suc, pos, [], ◌∷◌, ◌<◌, ◌==◌, List, if◌then◌else◌, false, refl, arith, inl}
use cpsc.Text.{Bytes, codes, find, to_string}
use cpsc.Constants.{number_of_servers, mt_client_send}
use cpsc.Message.{DataMessage, text_message, as_char_vector, view_message_type_as_string}
use cpsc.Server.State.{Server, left_of}
use cpsc.Server.State.WellFormed.{IsWellFormed}
use cpsc.Server.Listen.Hop.{IsCarried}
use cpsc.Network.Row.{IsRow}
use cpsc.Network.Bounce.{IsMislaid, Bounces, IsMislaid-Bounces}
use cpsc.Tests.Networks.{place, row_left, row_right, row_left_end}

abbrev stale_lists : ℕ → List (List Bytes)
stale_lists i =
    if i == 0
    then [] ∷ (codes "ann" ∷ []) ∷ [] ∷ [] ∷ [] ∷ []
    else (codes "ann" ∷ []) ∷ [] ∷ [] ∷ [] ∷ [] ∷ []

abbrev stale_server : ℕ → Server ℕ ℕ
stale_server i = record {
  index = i;
  terminate = false;
  sequence_number = pos 0;
  message_list = [];
  message_list_of_unassociated_clients = [];
  connected_clients = [];
  left_adjacent_server_index = left_of i;
  left_adjacent_server_connection = row_left i;
  right_adjacent_server_index = pos (suc i);
  right_adjacent_server_connection = row_right i;
  clients_served_by_server_index = stale_lists i;
}

stale_server-IsWellFormed : (i : ℕ) → i < number_of_servers → IsWellFormed (stale_server i)
stale_server-IsWellFormed i inside = record {
  placed = record {
    in_range = inside;
    left_index = refl;
    right_index = refl;
    left_end = row_left_end i;
    right_end = ((λ e. ground arith), (λ e. ground arith));
  };
  tables = ground arith;
  kept = tt;
  waiting = tt;
}

stale_server-IsRow : IsRow place stale_server
stale_server-IsRow = record {
  well_formed = stale_server-IsWellFormed;
  index = λ i inside. refl;
  to_left = λ i c inside e. ground arith;
  to_right = λ i c inside e. ground arith;
}

abbrev to_ann : DataMessage
to_ann = text_message (pos 1) mt_client_send (codes "eve") (codes "ann") (codes " hi")

abbrev to_ann_bytes : Bytes
to_ann_bytes = codes "1/?client send/?eve/?ann/? hi/?-1/?"

to_ann-IsCarried : IsCarried to_ann to_ann_bytes
unfolding find as_char_vector view_message_type_as_string to_string
to_ann-IsCarried = record {
  plain = record { source = refl; destination = refl; payload = refl; origin = refl };
  number = refl;
  printed = refl;
  fits = omega arith;
}

ann-IsMislaid : IsMislaid stale_server (codes "ann") 0
ann-IsMislaid = record {
  not_here = λ h. h;
  not_there = λ h. h;
  not_left = λ (i, left, _). absurd (omega arith);
  right = (1, omega arith, omega arith, inl refl);
  back = (0, omega arith, inl refl);
}

IsMislaid-Bounces_example : Bounces place 9 to_ann to_ann_bytes stale_server [] [] 0 200
IsMislaid-Bounces_example =
    IsMislaid-Bounces place 9 to_ann to_ann_bytes stale_server [] [] 0 200 to_ann-IsCarried refl
      stale_server-IsRow (omega arith) ann-IsMislaid
