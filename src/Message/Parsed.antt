-- ===== src/Message/Parsed.antt =====
-- What the parser of received vectors can end in.
use cpsc.Common.{
  ℤ, ◌⊎◌, inl, inr, ◌≡◌, ◌≢◌, refl, Outcome, returns, throws, aborts, undefined, ◌>>=◌,
  >>=-eq-returns, ◌∙◌, ap, arith, returns_inj,
}
use cpsc.Text.{Bytes, before, after, stoi, stoi-ne-undefined, stoi-ne-aborts}
use cpsc.Constants.{message_delimiter, MessageType}
use cpsc.Message.{DataMessage, of_char_vector, string_to_message_type, view_message_type_as_string}
use cpsc.Message.Types.{string_to_message_type_iff}

defined_bind {ℓ κ} :
    {A : Type ℓ} {B : Type κ} (m : Outcome A) (f : A → Outcome B)
    → m ≢ undefined
    → ((a : A) → f a ≢ undefined)
    → (m >>= f) ≢ undefined
defined_bind (returns a) f h k = k a
defined_bind throws f h k = λ e. cc
defined_bind aborts f h k = λ e. cc
defined_bind undefined f h k = λ e. h refl

string_to_message_type-defined : (s : Bytes) → string_to_message_type s ≢ undefined
unfolding string_to_message_type
string_to_message_type-defined s h = ground arith

string_to_message_type-ne-throws : (s : Bytes) → string_to_message_type s ≢ throws
unfolding string_to_message_type
string_to_message_type-ne-throws s h = ground arith

unread-ne-aborts :
    (s : Bytes) → stoi (before message_delimiter s) ≡ throws → of_char_vector s ≢ aborts
unfolding of_char_vector
unread-ne-aborts s e = rw e (λ e'. cc)

-- No vector of characters makes the parser do anything undefined.
pub of_char_vector-defined : (s : Bytes) → of_char_vector s ≢ undefined
unfolding of_char_vector
of_char_vector-defined s =
    defined_bind (stoi (before message_delimiter s)) _ (stoi-ne-undefined _) (λ n.
      defined_bind (string_to_message_type (before message_delimiter (after message_delimiter s))) _
        (string_to_message_type-defined _)
        (λ t.
          defined_bind
            (stoi (
              before message_delimiter (
                after message_delimiter (
                  after message_delimiter (
                    after message_delimiter
                      (after message_delimiter (after message_delimiter s)))))))
            _ (stoi-ne-undefined _) (λ o e. cc)))

-- A message that was read has a type.
pub of_char_vector-typed :
    (s : Bytes) (m : DataMessage)
    → of_char_vector s ≡ returns m
    → (name : Bytes) × (view_message_type_as_string m.message_type ≡ returns name)
unfolding of_char_vector
of_char_vector-typed s m e =
    let (n, _, e1) = >>=-eq-returns (stoi (before message_delimiter s)) _ e in
    let (t, typed, e2) =
      >>=-eq-returns (string_to_message_type (before message_delimiter (after message_delimiter s)))
        _ e1 in
    let (o, _, e3) =
      >>=-eq-returns
        (stoi (
          before message_delimiter (
            after message_delimiter (
              after message_delimiter
                (after message_delimiter (after message_delimiter (after message_delimiter s)))))))
        _ e2 in
    (
      before message_delimiter (after message_delimiter s),
      (string_to_message_type_iff m.message_type _).0
          (typed ∙ ap returns (ap (λ (x : DataMessage). x.message_type) (returns_inj e3))),
    )

-- The number is read, and the text behind it is that of no message type.
pub record HasUnknownType (s : Bytes) : Type 0 where
  pub number : ℤ
  pub read : stoi (before message_delimiter s) ≡ returns number
  pub unknown :
      (t : MessageType)
      → view_message_type_as_string t
        ≢ returns (before message_delimiter (after message_delimiter s))

aborts_bind {ℓ κ} :
    {A : Type ℓ} {B : Type κ} (m : Outcome A) (f : A → Outcome B)
    → m ≢ aborts
    → ((a : A) → m ≡ returns a → f a ≢ aborts)
    → (m >>= f) ≢ aborts
aborts_bind (returns a) f h k = k a refl
aborts_bind throws f h k = λ e. cc
aborts_bind aborts f h k = λ e. h refl
aborts_bind undefined f h k = λ e. cc

-- The text of no type fails an assertion.
string_to_message_type-cases :
    (s : Bytes)
    → ((t : MessageType) × (string_to_message_type s ≡ returns t))
      ⊎ (string_to_message_type s ≡ aborts)
string_to_message_type-cases s = cases (string_to_message_type s) refl
  where
    cases :
        (o : Outcome MessageType)
        → string_to_message_type s ≡ o
        → ((t : MessageType) × (string_to_message_type s ≡ returns t))
          ⊎ (string_to_message_type s ≡ aborts)
    cases (returns t) e = inl (t, e)
    cases aborts e = inr e
    cases throws e = absurd (string_to_message_type-ne-throws s e)
    cases undefined e = absurd (string_to_message_type-defined s e)

known-ne-aborts :
    (s : Bytes) (t : MessageType)
    → string_to_message_type (before message_delimiter (after message_delimiter s)) ≡ returns t
    → of_char_vector s ≢ aborts
unfolding of_char_vector
known-ne-aborts s t e =
    aborts_bind (stoi (before message_delimiter s)) _ (stoi-ne-aborts _) (λ n read.
      aborts_bind (string_to_message_type (before message_delimiter (after message_delimiter s))) _
        (λ e'. cc (e, e'))
        (λ u typed.
          aborts_bind
            (stoi (
              before message_delimiter (
                after message_delimiter (
                  after message_delimiter (
                    after message_delimiter
                      (after message_delimiter (after message_delimiter s)))))))
            _ (stoi-ne-aborts _) (λ o e e''. cc)))

unknown-aborts :
    (s : Bytes) (n : ℤ)
    → stoi (before message_delimiter s) ≡ returns n
    → string_to_message_type (before message_delimiter (after message_delimiter s)) ≡ aborts
    → of_char_vector s ≡ aborts
unfolding of_char_vector
unknown-aborts s n e e' = rw (e, e') refl

-- The parser fails an assertion on an unknown type, and on nothing else.
pub of_char_vector-HasUnknownType :
    (s : Bytes)
    → (HasUnknownType s × (of_char_vector s ≡ aborts))
      ⊎ ((¬ HasUnknownType s) × (of_char_vector s ≢ aborts))
of_char_vector-HasUnknownType s =
    let text = before message_delimiter (after message_delimiter s) in
    elim (string_to_message_type-cases text) [
      | inl (t, e) ↦
          inr ((λ u. u.unknown t ((string_to_message_type_iff t text).0 e)), known-ne-aborts s t e)
      | inr e ↦ number (stoi (before message_delimiter s)) refl e
    ]
  where
    number :
        (o : Outcome ℤ)
        → stoi (before message_delimiter s) ≡ o
        → string_to_message_type (before message_delimiter (after message_delimiter s)) ≡ aborts
        → (HasUnknownType s × (of_char_vector s ≡ aborts))
          ⊎ ((¬ HasUnknownType s) × (of_char_vector s ≢ aborts))
    number (returns n) e e' = inl (
      record {
        number = n;
        read = e;
        unknown = λ t view. let e'' = (string_to_message_type_iff t _).1 view in cc (e', e'');
      },
      unknown-aborts s n e e',
    )
    number throws e e' = inr ((λ u. let r = u.read in cc (e, r)), unread-ne-aborts s e)
    number aborts e e' = absurd (stoi-ne-aborts _ e)
    number undefined e e' = absurd (stoi-ne-undefined _ e)
