-- ===== src/Network/Greeting.antt =====
-- The first two messages of a client, as the format and the buffer carry them.
use cpsc.Common.{
  ℤ, negsuc, is_int32, true, ℕ, zero, suc, pos, ◌≤◌, ◌≡◌, ◌≢◌, [], ◌∷◌, ◌++◌, refl, arith, All,
  All-append, length, length-append, returns,
}
use cpsc.Text.{Bytes, codes, to_string, All-Lacks, length-to_string_int32}
use cpsc.Constants.{server_index_to_server_name, mt_client_connect, mt_client_get, mt_client_ack}
use cpsc.Message.{DataMessage, text_message, as_char_vector, wire, view_message_type_as_string}
use cpsc.Server.Listen.Hop.{IsCarried}
use cpsc.Network.Lists.{server_name-Lacks}

-- A name that a user can enter and that every message to the server has room for.
pub record IsUsername (u : Bytes) : Type 0 where
  pub no_slash : All (λ c. c ≢ b'/') u
  pub short : length u ≤ 100

pub server_name-length :
    (k : ℕ) (name : Bytes) → server_index_to_server_name k ≡ returns name → length name ≤ 7
unfolding server_index_to_server_name
server_name-length zero name e = ground arith
server_name-length (suc zero) name e = ground arith
server_name-length (suc (suc zero)) name e = ground arith
server_name-length (suc (suc (suc zero))) name e = ground arith
server_name-length (suc (suc (suc (suc zero)))) name e = ground arith
server_name-length (suc (suc (suc (suc (suc k))))) name e = cc

abbrev pub connect_message : Bytes → Bytes → DataMessage
connect_message u server =
    text_message (pos 1) mt_client_connect u server (u ++ codes " has connected.")

abbrev pub get_message : Bytes → Bytes → DataMessage
get_message u server = text_message (pos 2) mt_client_get u server (codes "blank")

pub connect-IsCarried :
    (u server : Bytes) (k : ℕ)
    → IsUsername u
    → server_index_to_server_name k ≡ returns server
    → (bytes : Bytes) × IsCarried (connect_message u server) bytes
unfolding as_char_vector view_message_type_as_string to_string
connect-IsCarried u server k name e = (
  wire (connect_message u server) (codes "client connect"),
  record {
    plain = record {
      source = All-Lacks b'/' (b'?' ∷ []) u name.no_slash;
      destination = server_name-Lacks k server e;
      payload =
          All-Lacks b'/' (b'?' ∷ []) (u ++ codes " has connected.")
            (All-append (λ c. c ≢ b'/') u (codes " has connected.") name.no_slash (omega arith));
      origin = refl;
    };
    number = refl;
    printed = refl;
    fits = omega (arith, length-append {0}, server_name-length k server e, name.short);
  },
)

pub get-IsCarried :
    (u server : Bytes) (k : ℕ)
    → IsUsername u
    → server_index_to_server_name k ≡ returns server
    → (bytes : Bytes) × IsCarried (get_message u server) bytes
unfolding as_char_vector view_message_type_as_string to_string
get-IsCarried u server k name e = (
  wire (get_message u server) (codes "client get"),
  record {
    plain = record {
      source = All-Lacks b'/' (b'?' ∷ []) u name.no_slash;
      destination = server_name-Lacks k server e;
      payload = All-Lacks b'/' (b'?' ∷ []) (codes "blank") (omega arith);
      origin = refl;
    };
    number = refl;
    printed = refl;
    fits = omega (arith, length-append {0}, server_name-length k server e, name.short);
  },
)

pub ack-IsCarried :
    (z : ℤ) (u server : Bytes) (k : ℕ)
    → is_int32 z ≡ true
    → IsUsername u
    → server_index_to_server_name k ≡ returns server
    → (bytes : Bytes) × IsCarried (text_message z mt_client_ack u server (codes "blank")) bytes
unfolding as_char_vector view_message_type_as_string
ack-IsCarried z u server k number name e = (
  wire (text_message z mt_client_ack u server (codes "blank")) (codes "client ack"),
  record {
    plain = record {
      source = All-Lacks b'/' (b'?' ∷ []) u name.no_slash;
      destination = server_name-Lacks k server e;
      payload = All-Lacks b'/' (b'?' ∷ []) (codes "blank") (omega arith);
      origin = refl;
    };
    number = number;
    printed = refl;
    fits = omega (
      arith,
      length-append {0},
      server_name-length k server e,
      name.short,
      length-to_string_int32 z number,
      length-to_string_int32 (negsuc 0) refl,
    );
  },
)
