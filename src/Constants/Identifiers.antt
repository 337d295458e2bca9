-- ===== src/Constants/Identifiers.antt =====
-- The letters that choose a server, against the tables of names and ports.
use cpsc.Common.{ℕ, ◌+◌, ◌<◌, ◌≤◌, true, ◌≡◌, ◌⊎◌, ◌↔◌, arith, returns, refl, suc, zero}
use cpsc.Text.{Bytes}
use cpsc.Constants.{
  identifier_is_valid, char_to_server_index, server_index_to_server_name, server_host_name,
  server_index_to_listening_port, number_of_servers, tolower,
}

-- Exactly the ten letters are accepted, upper case as lower case.
pub identifier_is_valid_iff :
    (c : ℕ)
    → (identifier_is_valid c ≡ true) ↔ (((b'a' ≤ c) × (c ≤ b'e')) ⊎ ((b'A' ≤ c) × (c ≤ b'E')))
unfolding identifier_is_valid
identifier_is_valid_iff c = (λ h. ground arith, λ h. ground arith)

-- The tables have an entry for an index below the number of servers.
pub index_lookup :
    (i : ℕ)
    → i < number_of_servers
    → (name : Bytes) × (host : Bytes) × (server_index_to_server_name i ≡ returns name)
      × (server_host_name i ≡ returns host)
      × (server_index_to_listening_port i ≡ returns (8080 + i))
unfolding server_index_to_server_name server_host_name server_index_to_listening_port
index_lookup zero h = (_, _, refl, refl, refl)
index_lookup (suc zero) h = (_, _, refl, refl, refl)
index_lookup (suc (suc zero)) h = (_, _, refl, refl, refl)
index_lookup (suc (suc (suc zero))) h = (_, _, refl, refl, refl)
index_lookup (suc (suc (suc (suc zero)))) h = (_, _, refl, refl, refl)
index_lookup (suc (suc (suc (suc (suc i))))) h = absurd (omega arith)

-- For a valid letter `char_to_server_index` gives the letter's place in the alphabet, which is in
-- the range of the tables.
pub char_to_server_index-valid :
    (c : ℕ)
    → identifier_is_valid c ≡ true
    → (char_to_server_index c < number_of_servers) × (char_to_server_index c + b'a' ≡ tolower c)
unfolding identifier_is_valid char_to_server_index
char_to_server_index-valid c h = (ground arith, ground arith)
