-- ===== src/Constants.antt =====
-- src/Common/constants.h: the servers of the system, their names and ports, the letters that
-- choose them, and the kinds of messages.
pub mod Identifiers
use cpsc.Common.{
  ℕ, ◌+◌, ◌-◌, ◌%◌, ◌^◌, ℤ, pos, negsuc, List, [], ◌∷◌, ◌++◌, Bool, ◌&&◌, leb, ltb, ltb_ℤ, not,
  if◌then◌else◌, Outcome, returns, undefined, ◌>>=◌, length,
}
use cpsc.Text.{Bytes, codes}

abbrev pub server_listening_ports : List ℕ
server_listening_ports = 8080 ∷ 8081 ∷ 8082 ∷ 8083 ∷ 8084 ∷ []

abbrev pub highest_server_index : ℕ
highest_server_index = length server_listening_ports - 1

abbrev pub number_of_servers : ℕ
number_of_servers = 5

abbrev pub server_names : List Bytes
server_names = codes "Alpha" ∷ codes "Bravo" ∷ codes "Charlie" ∷ codes "Delta" ∷ codes "Echo" ∷ []

-- `operator[]` of a vector, undefined out of bounds.
abbrev pub at {ℓ} : {A : Type ℓ} → List A → ℕ → Outcome A
at [] i = undefined
at (x ∷ xs) ℕ.zero = returns x
at (x ∷ xs) (ℕ.suc i) = at xs i

-- The conversion of an `int8_t` argument to `uint8_t`.
abbrev pub to_uint8 : ℤ → ℕ
to_uint8 (pos n) = n % 2 ^ 8
to_uint8 (negsuc n) = 255 - n % 2 ^ 8

unfoldable pub server_index_to_server_name : ℕ → Outcome Bytes
server_index_to_server_name i = at server_names i

unfoldable pub server_host_name : ℕ → Outcome Bytes
server_host_name i = do name ← at server_names i; returns (name ++ codes "ServerCPSC3780")

unfoldable pub server_index_to_listening_port : ℕ → Outcome ℕ
server_index_to_listening_port i = at server_listening_ports i

-- `std::tolower` in the "C" locale.
unfoldable pub tolower : ℕ → ℕ
tolower c = if leb b'A' c && leb c b'Z' then c + 32 else c

unfoldable pub char_to_server_index : ℕ → ℕ
unfolding tolower
char_to_server_index c = (tolower c + 2 ^ 8 - b'a') % 2 ^ 8

unfoldable pub identifier_is_valid : ℕ → Bool
unfolding tolower
identifier_is_valid c = leb b'a' (tolower c) && leb (tolower c) b'e'

unfoldable pub left_adjacent_server_index_is_valid : ℤ → Bool
left_adjacent_server_index_is_valid i = not (ltb_ℤ i (pos 0))

unfoldable pub right_adjacent_server_index_is_valid : ℤ → Bool
right_adjacent_server_index_is_valid i = not (ltb_ℤ (pos highest_server_index) i)

abbrev pub message_delimiter : Bytes
message_delimiter = codes "/?"

abbrev pub sync_identifier_delimiter : ℕ
sync_identifier_delimiter = b','

pub data MessageType : Type 0 where
  mt_undefined mt_client_connect mt_client_disconnect mt_client_send mt_client_get mt_client_ack
        mt_server_send mt_server_ack mt_server_sync mt_ping :
      MessageType
