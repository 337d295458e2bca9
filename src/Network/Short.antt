-- ===== src/Network/Short.antt =====
-- Lists of clients whose sync messages fit the buffer.
use cpsc.Common.{
  ℕ, ℤ, pos, ◌+◌, ◌<◌, ◌≤◌, ◌^◌, List, [], ◌∷◌, ◌≡◌, ap, subst, ◌∙◌, arith, All, length,
  length-append, returns_inj, increment64,
}
use cpsc.Text.{Bytes, length-to_string}
use cpsc.Constants.{number_of_servers, to_uint8}
use cpsc.Message.{
  create_server_sync_payload, arbitrary_length, as_char_vector, view_message_type_as_string,
}
use cpsc.Connection.{Datagram, RemoteConnection}
use cpsc.Server.State.{Server, clients_served}
use cpsc.Server.Sync.Payloads.{Syncs, IsSync, done, skip, send}
use cpsc.Network.Lists.{IsTellable, increment64-small}
use cpsc.Network.Greeting.{server_name-length}

-- A list that a sync message can carry in the 256 bytes of the buffer, whoever sends it.
pub record IsShort (clients : List Bytes) : Type 0 where
  pub tellable : IsTellable clients
  pub short : length (create_server_sync_payload clients) ≤ 190

module _ {E T : Type 0} (s : Server E T) (j : ℤ) where
  IsSync-length :
      (a i : ℕ) (bytes : Bytes)
      → a < 2 ^ 31
      → i < number_of_servers
      → IsShort (clients_served s i)
      → IsSync s j (pos a) i bytes
      → length bytes ≤ arbitrary_length
  unfolding as_char_vector view_message_type_as_string
  IsSync-length a i bytes number inside list sync =
      subst (λ b. length b ≤ 256) (returns_inj sync.printed)
        (omega (
          arith,
          length-append {0},
          list.short,
          length-to_string a number,
          length-to_string i (omega arith),
          server_name-length s.index sync.source sync.from,
          server_name-length (to_uint8 j) sync.destination sync.to,
        ))

  -- The datagrams for lists that are short: what each is sent to, how long it is, and the number
  -- that is left.
  pub record Fits (c : RemoteConnection E T) (a : ℕ) (is : List ℕ) (o : List (Datagram E)) (n' : ℤ)
      : Type 0 where
    pub to : All (λ d. d.to ≡ c.endpoint) o
    pub fit : All (λ d. length d.bytes ≤ arbitrary_length) o
    pub last : ℕ
    pub numbered : n' ≡ pos last
    pub below : last ≤ a + length is

  pub Syncs-Fits :
      (c : RemoteConnection E T) (a : ℕ) {n n' : ℤ} (is : List ℕ) (o : List (Datagram E))
      → n ≡ pos a
      → a + length is < 2 ^ 31
      → All (λ i. (i < number_of_servers) × IsShort (clients_served s i)) is
      → Syncs s j c n is o n'
      → Fits c a is o n'
  Syncs-Fits c a [] [] start number lists done = record {
    to = tt;
    fit = tt;
    last = a;
    numbered = start;
    below = omega arith;
  }
  Syncs-Fits c a [] (d ∷ o) start number lists none_sent = elim none_sent [ ]
  Syncs-Fits c a (i ∷ is) o start number lists (skip empty rest) =
      let f = Syncs-Fits c a is o start (omega arith) lists.1 rest in
      record {
        to = f.to;
        fit = f.fit;
        last = f.last;
        numbered = f.numbered;
        below = omega (arith, f.below);
      }
  Syncs-Fits c a (i ∷ is) (d ∷ o) start number lists (send _ full to sync rest) =
      let next = ap increment64 start ∙ increment64-small a (omega arith) in
      let f = Syncs-Fits c (a + 1) is o next (omega arith) lists.1 rest in
      record {
        to = (to, f.to);
        fit = (
          IsSync-length (a + 1) i d.bytes (omega arith) lists.0.0 lists.0.1
              (subst (λ k. IsSync s j k i d.bytes) next sync),
          f.fit,
        );
        last = f.last;
        numbered = f.numbered;
        below = omega (arith, f.below);
      }
