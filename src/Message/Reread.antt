-- ===== src/Message/Reread.antt =====
-- What a message that was read from a vector is like: it can be printed and read again.
use cpsc.Common.{
  ℤ, pos, negsuc, ◌≡◌, ◌≤◌, ◌++◌, refl, true, arith, ap, ◌∙◌, returns, >>=-eq-returns, returns_inj,
  is_int32, is_int8, to_int8, length, subst, sym, length-append, length-take, length-replicate,
  take, ◌-◌, ℕ,
}
use cpsc.Text.{
  Bytes, before, after, stoi, stoi-is_int32, before-Lacks, length-before, length-after, Lacks,
}
use cpsc.Constants.{message_delimiter}
use cpsc.Message.{
  DataMessage, of_char_vector, as_char_vector, received_vector, arbitrary_length,
  string_to_message_type, view_message_type_as_string, wire,
}
use cpsc.Message.Parsed.{of_char_vector-typed}
use cpsc.Message.RoundTrip.{IsPlain, of_char_vector-as_char_vector}

to_int8-is_int8 : (z : ℤ) → is_int8 (to_int8 z) ≡ true
unfolding to_int8
to_int8-is_int8 (pos n) = ground arith
to_int8-is_int8 (negsuc n) = ground arith

length-received_vector : (datagram : Bytes) → length (received_vector datagram) ≡ arbitrary_length
unfolding received_vector
length-received_vector datagram = omega (
  arith,
  length-append (take arbitrary_length datagram) _,
  length-take arbitrary_length datagram,
  length-replicate {A = ℕ} (arbitrary_length - length datagram) 0,
)

as_char_vector-typed :
    (m : DataMessage)
    → (name : Bytes) × (view_message_type_as_string m.message_type ≡ returns name)
    → (bytes : Bytes) × (as_char_vector m ≡ returns bytes)
unfolding as_char_vector
as_char_vector-typed m (name, e) = (wire m name, rw e refl)

-- A text that was cut out of `s`: what stands before a delimiter in some end of it.
IsCut : Bytes → Bytes → Type 0
IsCut s f = (u : Bytes) × (length u ≤ length s) × (f ≡ before message_delimiter u)

record IsReadFrom (s : Bytes) (m : DataMessage) : Type 0 where
  number : is_int32 m.sequence_number ≡ true
  origin : is_int8 m.server_sync_payload_origin_index ≡ true
  source : IsCut s m.source_identifier
  destination : IsCut s m.destination_identifier
  payload : IsCut s m.payload

length-rest : (s : Bytes) → length (after message_delimiter s) ≤ length s
length-rest s = length-after b'/' b'?' s

of_char_vector-IsReadFrom :
    (s : Bytes) (m : DataMessage) → of_char_vector s ≡ returns m → IsReadFrom s m
unfolding of_char_vector IsCut
of_char_vector-IsReadFrom s m e =
    let s1 = after message_delimiter s in
    let s2 = after message_delimiter s1 in
    let s3 = after message_delimiter s2 in
    let s4 = after message_delimiter s3 in
    let s5 = after message_delimiter s4 in
    let (n, number, e1) = >>=-eq-returns (stoi (before message_delimiter s)) _ e in
    let (t, _, e2) = >>=-eq-returns (string_to_message_type (before message_delimiter s1)) _ e1 in
    let (o, _, e3) = >>=-eq-returns (stoi (before message_delimiter s5)) _ e2 in
    let read = returns_inj e3 in
    record {
      number =
          subst (λ (x : DataMessage). is_int32 x.sequence_number ≡ true) read
            (stoi-is_int32 (before message_delimiter s) n number);
      origin =
          subst (λ (x : DataMessage). is_int8 x.server_sync_payload_origin_index ≡ true) read
            (to_int8-is_int8 o);
      source = (
        s2,
        omega (arith, length-rest s, length-rest s1),
        ap (λ (x : DataMessage). x.source_identifier) (sym read),
      );
      destination = (
        s3,
        omega (arith, length-rest s, length-rest s1, length-rest s2),
        ap (λ (x : DataMessage). x.destination_identifier) (sym read),
      );
      payload = (
        s4,
        omega (arith, length-rest s, length-rest s1, length-rest s2, length-rest s3),
        ap (λ (x : DataMessage). x.payload) (sym read),
      );
    }

IsCut-Lacks : (s f : Bytes) → IsCut s f → Lacks message_delimiter f
unfolding IsCut
IsCut-Lacks s f (u, _, e) = subst (Lacks message_delimiter) (sym e) (before-Lacks b'/' b'?' u)

IsCut-length : (s f : Bytes) → IsCut s f → length f ≤ length s
unfolding IsCut
IsCut-length s f (u, below, e) = omega (arith, below, ap length e, length-before b'/' b'?' u)

pub of_char_vector-IsPlain :
    (s : Bytes) (m : DataMessage)
    → of_char_vector s ≡ returns m
    → IsPlain m × (is_int32 m.sequence_number ≡ true)
of_char_vector-IsPlain s m e =
    let read = of_char_vector-IsReadFrom s m e in
    (
      record {
        source = IsCut-Lacks s m.source_identifier read.source;
        destination = IsCut-Lacks s m.destination_identifier read.destination;
        payload = IsCut-Lacks s m.payload read.payload;
        origin = read.origin;
      },
      read.number,
    )

-- Every message that the program reads can be printed again, and what is printed is read as the
-- same message, whatever stands behind it.
pub of_char_vector-reprinted :
    (s : Bytes) (m : DataMessage)
    → of_char_vector s ≡ returns m
    → (bytes : Bytes) × (as_char_vector m ≡ returns bytes)
      × ((rest : Bytes) → of_char_vector (bytes ++ rest) ≡ returns m)
of_char_vector-reprinted s m e =
    let (bytes, printed) = as_char_vector-typed m (of_char_vector-typed s m e) in
    let (plain, number) = of_char_vector-IsPlain s m e in
    (
      bytes,
      printed,
      λ rest. of_char_vector-as_char_vector m bytes rest plain printed ∙ rw number refl,
    )

-- No datagram, however long, makes a program read a message with a name or a payload of more than
-- 256 bytes, the size of the buffer.
pub of_char_vector-arbitrary_length :
    (datagram : Bytes) (m : DataMessage)
    → of_char_vector (received_vector datagram) ≡ returns m
    → (length m.source_identifier ≤ arbitrary_length)
      × (length m.destination_identifier ≤ arbitrary_length)
      × (length m.payload ≤ arbitrary_length)
of_char_vector-arbitrary_length datagram m e =
    let read = of_char_vector-IsReadFrom (received_vector datagram) m e in
    let size = length-received_vector datagram in
    (
      omega (arith, size, IsCut-length _ m.source_identifier read.source),
      omega (arith, size, IsCut-length _ m.destination_identifier read.destination),
      omega (arith, size, IsCut-length _ m.payload read.payload),
    )
