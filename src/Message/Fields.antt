-- ===== src/Message/Fields.antt =====
-- The parser of received vectors against a parser that splits the vector once, at all delimiters.
use cpsc.Common.{
  ℕ, suc, ◌+◌, [], ◌∷◌, List, true, false, none, some, Option, ◌≡◌, ◌∙◌, refl, sym, ap, arith, take,
  drop, if◌then◌else◌, Bool-cases, Option-cases, inl, inr, Outcome, returns, throws, ◌>>=◌, to_int8,
}
use cpsc.Text.{Bytes, shift, find, before, after, stoi, starts_with}
use cpsc.Constants.{message_delimiter}
use cpsc.Message.{DataMessage, of_char_vector, string_to_message_type}

-- A character in front of the first part.
push : ℕ → List Bytes → List Bytes
push c [] = (c ∷ []) ∷ []
push c (f ∷ fs) = (c ∷ f) ∷ fs

-- The parts of a text between the delimiters.
unfoldable pub fields : Bytes → List Bytes
unfolding push
fields [] = [] ∷ []
fields (c ∷ []) = (c ∷ []) ∷ []
fields (c ∷ d ∷ s) =
    let behind = fields s in
    let rest = fields (d ∷ s) in
    if starts_with message_delimiter (c ∷ d ∷ s) then [] ∷ behind else push c rest

-- A message from the first six parts; what follows them is ignored.
unfoldable pub read_fields : List Bytes → Outcome DataMessage
read_fields (a ∷ t ∷ b ∷ c ∷ p ∷ o ∷ rest) = do
  sequence_number ← stoi a
  message_type ← string_to_message_type t
  origin ← stoi o
  returns (record {
    sequence_number = sequence_number;
    message_type = message_type;
    source_identifier = b;
    destination_identifier = c;
    payload = p;
    server_sync_payload_origin_index = to_int8 origin;
  })
read_fields _ = throws

-- The step of `find`.
find_here :
    (c : ℕ) (s : Bytes)
    → starts_with message_delimiter (c ∷ s) ≡ true
    → find message_delimiter (c ∷ s) ≡ some 0
unfolding find
find_here c s e = rw e refl

find_later :
    (c : ℕ) (s : Bytes)
    → starts_with message_delimiter (c ∷ s) ≡ false
    → find message_delimiter (c ∷ s) ≡ shift (find message_delimiter s)
unfolding find
find_later c s e = rw e refl

shift-some : (o : Option ℕ) (i : ℕ) → shift o ≡ some i → (j : ℕ) × (o ≡ some j) × (i ≡ suc j)
shift-some none i h = cc
shift-some (some j) i h = (j, refl, cc)

shift-none : (o : Option ℕ) → shift o ≡ none → o ≡ none
shift-none none h = refl
shift-none (some j) h = cc

fields_found :
    (s : Bytes) (i : ℕ)
    → find message_delimiter s ≡ some i
    → fields s ≡ take i s ∷ fields (drop (i + 2) s)
unfolding fields
fields_found [] i h = unfold find in cc h
fields_found (c ∷ []) i h = unfold find in unfold starts_with in ground arith
fields_found (c ∷ d ∷ s) i h = elim (Bool-cases (starts_with message_delimiter (c ∷ d ∷ s))) [
  | inl e ↦ let start : i ≡ 0 = cc (h, find_here c (d ∷ s) e) in rw (e, start) refl
  | inr e ↦
      let (j, found, at) =
        shift-some (find message_delimiter (d ∷ s)) i (sym (find_later c (d ∷ s) e) ∙ h) in
      let further : suc (j + 2) ≡ suc j + 2 = omega arith in
      rw (e, at, fields_found (d ∷ s) j found)
        (ap (λ n. take (suc j) (c ∷ d ∷ s) ∷ fields (drop n (c ∷ d ∷ s))) further)
]

fields-none : (s : Bytes) → find message_delimiter s ≡ none → fields s ≡ s ∷ []
unfolding fields
fields-none [] h = refl
fields-none (c ∷ []) h = refl
fields-none (c ∷ d ∷ s) h = elim (Bool-cases (starts_with message_delimiter (c ∷ d ∷ s))) [
  | inl e ↦ absurd (cc (h, find_here c (d ∷ s) e))
  | inr e ↦
      let lacks = shift-none (find message_delimiter (d ∷ s)) (sym (find_later c (d ∷ s) e) ∙ h) in
      rw (e, fields-none (d ∷ s) lacks) refl
]

-- A text with at least one more part: its first part, and the rest behind the delimiter.
fields-before :
    (s f g : Bytes) (rest : List Bytes)
    → fields s ≡ f ∷ g ∷ rest
    → (before message_delimiter s ≡ f) × (fields (after message_delimiter s) ≡ g ∷ rest)
unfolding before after
fields-before s f g rest h = elim (Option-cases (find message_delimiter s)) [
  | inl e ↦ absurd (cc (fields-none s e, h))
  | inr (i, e) ↦
      let split = fields_found s i e in
      (rw (e, before) (cc (split, h)), rw (e, after) (cc (split, h)))
]

fields-last :
    (s f : Bytes) (rest : List Bytes) → fields s ≡ f ∷ rest → before message_delimiter s ≡ f
unfolding before
fields-last s f rest h = elim (Option-cases (find message_delimiter s)) [
  | inl e ↦ rw (e, before) (cc (fields-none s e, h))
  | inr (i, e) ↦ rw (e, before) (cc (fields_found s i e, h))
]

-- On a vector with at least six parts, five delimiters, the parser that cuts the vector part by
-- part ends as the one that splits it once: with the same message or the same failure.
pub of_char_vector-fields :
    (s a t b c p o : Bytes) (rest : List Bytes)
    → fields s ≡ a ∷ t ∷ b ∷ c ∷ p ∷ o ∷ rest
    → of_char_vector s ≡ read_fields (fields s)
unfolding of_char_vector read_fields
of_char_vector-fields s a t b c p o rest h =
    let s1 = after message_delimiter s in
    let s2 = after message_delimiter s1 in
    let s3 = after message_delimiter s2 in
    let s4 = after message_delimiter s3 in
    let s5 = after message_delimiter s4 in
    let (e0, h1) = fields-before s a t (b ∷ c ∷ p ∷ o ∷ rest) h in
    let (e1, h2) = fields-before s1 t b (c ∷ p ∷ o ∷ rest) h1 in
    let (e2, h3) = fields-before s2 b c (p ∷ o ∷ rest) h2 in
    let (e3, h4) = fields-before s3 c p (o ∷ rest) h3 in
    let (e4, h5) = fields-before s4 p o rest h4 in
    rw (h, e0, e1, e2, e3, e4, fields-last s5 o rest h5) refl
