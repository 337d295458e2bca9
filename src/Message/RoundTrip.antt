-- ===== src/Message/RoundTrip.antt =====
-- Messages against their form on the wire.
use cpsc.Common.{
  ℤ, pos, negsuc, >>=-eq-returns, returns_inj, ◌≤◌, [], ◌∷◌, ◌++◌, ◌≡◌, refl, ap, ◌∙◌, Bool, true,
  false, take-all, arith, is_int8, is_int32, to_int8, to_int8_self, Outcome, returns, throws, ◌>>=◌,
  if◌then◌else◌, length, append_assoc,
}
use cpsc.Text.{
  Bytes, Lacks, before, after, before-append, after-append, All-Lacks, stoi, to_string,
  stoi-to_string, to_string_no_slash,
}
use cpsc.Constants.{message_delimiter}
use cpsc.Message.{
  DataMessage, as_char_vector, of_char_vector, wire, view_message_type_as_string,
  string_to_message_type, received_vector, field, arbitrary_length,
}
use cpsc.Message.Types.{string_to_message_type-view, view_message_type_as_string-Lacks}

-- What the wire format can carry: no text holds the delimiter, and the index is an `int8_t`.
pub record IsPlain (m : DataMessage) : Type 0 where
  pub source : Lacks message_delimiter m.source_identifier
  pub destination : Lacks message_delimiter m.destination_identifier
  pub payload : Lacks message_delimiter m.payload
  pub origin : is_int8 m.server_sync_payload_origin_index ≡ true

before-field :
    (f rest : Bytes) → Lacks message_delimiter f → before message_delimiter (field f rest) ≡ f
before-field f rest h = before-append b'/' b'?' (omega arith) f rest h

after-field :
    (f rest : Bytes) → Lacks message_delimiter f → after message_delimiter (field f rest) ≡ rest
after-field f rest h = after-append b'/' b'?' (omega arith) f rest h

field-append : (f rest more : Bytes) → field f rest ++ more ≡ field f (rest ++ more)
field-append f rest more = append_assoc f (message_delimiter ++ rest) more

-- Reading six fields without the delimiter in them.
of_char_vector-field :
    (a t b c p o rest : Bytes)
    → Lacks message_delimiter a
    → Lacks message_delimiter t
    → Lacks message_delimiter b
    → Lacks message_delimiter c
    → Lacks message_delimiter p
    → Lacks message_delimiter o
    → of_char_vector (field a (field t (field b (field c (field p (field o rest)))))) ≡ (do
      n ← stoi a
      message_type ← string_to_message_type t
      origin ← stoi o
      returns (record {
        sequence_number = n;
        message_type = message_type;
        source_identifier = b;
        destination_identifier = c;
        payload = p;
        server_sync_payload_origin_index = to_int8 origin;
      }))
unfolding of_char_vector
of_char_vector-field a t b c p o rest ha ht hb hc hp ho = simp (
  before-field a _ ha,
  after-field a _ ha,
  before-field t _ ht,
  after-field t _ ht,
  before-field b _ hb,
  after-field b _ hb,
  before-field c _ hc,
  after-field c _ hc,
  before-field p _ hp,
  after-field p _ hp,
  before-field o _ ho,
)

to_string-Lacks : (z : ℤ) → Lacks message_delimiter (to_string z)
to_string-Lacks z = All-Lacks b'/' (b'?' ∷ []) (to_string z) (to_string_no_slash z)

stoi-int8 : (z : ℤ) → is_int8 z ≡ true → stoi (to_string z) ≡ returns z
stoi-int8 (pos n) h = ground (arith, stoi-to_string (pos n))
stoi-int8 (negsuc n) h = ground (arith, stoi-to_string (negsuc n))

wire-append :
    (m : DataMessage) (name rest : Bytes)
    → wire m name ++ rest
      ≡ field (to_string m.sequence_number) (
          field name (
            field m.source_identifier (
              field m.destination_identifier
                (field m.payload (field (to_string m.server_sync_payload_origin_index) rest)))))
wire-append m name rest = simp append_assoc

-- The outcome of reading a printed message again, whatever stands behind it in the buffer.
abbrev pub reread : DataMessage → Outcome DataMessage
reread m = if is_int32 m.sequence_number then returns m else throws

returns_if {ℓ κ} :
    {A : Type ℓ} {B : Type κ} (b : Bool) (a : A) (f : A → B)
    → ((if b then returns a else throws) >>= λ x. returns (f x))
      ≡ (if b then returns (f a) else throws)
returns_if true a f = refl
returns_if false a f = refl

of_char_vector-wire :
    (m : DataMessage) (name rest : Bytes)
    → view_message_type_as_string m.message_type ≡ returns name
    → IsPlain m
    → of_char_vector (wire m name ++ rest) ≡ reread m
of_char_vector-wire m name rest h plain =
    ap of_char_vector (wire-append m name rest)
    ∙ of_char_vector-field (to_string m.sequence_number) name m.source_identifier
        m.destination_identifier m.payload (to_string m.server_sync_payload_origin_index) rest
        (to_string-Lacks _) (view_message_type_as_string-Lacks _ name h) plain.source
        plain.destination plain.payload (to_string-Lacks _)
    ∙ rw
        (
          string_to_message_type-view m.message_type name h,
          stoi-int8 m.server_sync_payload_origin_index plain.origin,
          to_int8_self m.server_sync_payload_origin_index plain.origin,
          stoi-to_string m.sequence_number,
        )
        (returns_if (is_int32 m.sequence_number) m.sequence_number _)

-- A plain message is read back from its form on the wire, whatever stands behind it in the buffer,
-- if its sequence number is an `int`; else the reading throws.
pub of_char_vector-as_char_vector :
    (m : DataMessage) (bytes rest : Bytes)
    → IsPlain m
    → as_char_vector m ≡ returns bytes
    → of_char_vector (bytes ++ rest) ≡ reread m
unfolding as_char_vector
of_char_vector-as_char_vector m bytes rest plain h =
    let (name, e, r) = >>=-eq-returns (view_message_type_as_string m.message_type) _ h in
    rw (← returns_inj r) (of_char_vector-wire m name rest e plain)

-- So a message whose wire form fits into the receive buffer arrives as it was sent.
pub of_char_vector-received_vector :
    (m : DataMessage) (bytes : Bytes)
    → IsPlain m
    → as_char_vector m ≡ returns bytes
    → length bytes ≤ arbitrary_length
    → of_char_vector (received_vector bytes) ≡ reread m
unfolding received_vector
of_char_vector-received_vector m bytes plain h fits =
    rw (take-all arbitrary_length bytes fits) (of_char_vector-as_char_vector m bytes _ plain h)
