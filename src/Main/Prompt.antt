-- ===== src/Main/Prompt.antt =====
-- The prompt loop of the two `main` functions.
use cpsc.Common.{
  ℕ, zero, suc, ◌<◌, [], ◌∷◌, ◌++◌, Option, none, some, ◌≡◌, ◌∙◌, ◌⊎◌, inl, inr, refl, sym, ap,
  subst, true, false, arith, All, All-append, Bool-cases, length, length-append, Outcome, returns,
  throws, aborts, undefined, if◌then◌else◌, append_assoc,
}
use cpsc.Text.{Bytes, is_space}
use cpsc.Constants.{identifier_is_valid}
use cpsc.Main.{read_identifier, prompt, extract_identifier, check_identifier}

abbrev AllRefused : Bytes → Type 0
AllRefused = All (λ x. identifier_is_valid x ≡ false)

abbrev AllSpaces : Bytes → Type 0
AllSpaces = All (λ x. is_space x ≡ true)

-- The input up to the first valid letter, and what is behind it.
pub record FirstLetter (input : Bytes) (c : ℕ) (rest : Bytes) : Type 0 where
  pub refused : Bytes
  pub split : input ≡ refused ++ c ∷ rest
  pub not_valid : All (λ x. identifier_is_valid x ≡ false) refused
  pub valid : identifier_is_valid c ≡ true

-- How the loop ends that starts with this value of the variable: never, at the first valid letter,
-- or by reading a variable that has no value.
abbrev EndsFrom : Option ℕ → Bytes → Option (Outcome (ℕ × Bytes)) → Type 0
EndsFrom i input none = AllRefused input × ((rounds : ℕ) → prompt rounds i input ≡ none)
EndsFrom i input (some (returns (c, rest))) = FirstLetter input c rest
EndsFrom i input (some undefined) = AllSpaces input × (i ≡ none)
EndsFrom i input (some throws) = ⊥
EndsFrom i input (some aborts) = ⊥

abbrev pub PromptEnds : Bytes → Option (Outcome (ℕ × Bytes)) → Type 0
PromptEnds = EndsFrom none

-- Up to the first character that is no space.
record FirstCharacter (input : Bytes) (r : Option ℕ × Bytes) : Type 0 where
  spaces : Bytes
  c : ℕ
  rest : Bytes
  split : input ≡ spaces ++ c ∷ rest
  all : AllSpaces spaces
  result : r ≡ (some c, rest)

FirstCharacter-cons :
    (c : ℕ) (input : Bytes) (r r' : Option ℕ × Bytes)
    → is_space c ≡ true
    → r' ≡ r
    → FirstCharacter input r
    → FirstCharacter (c ∷ input) r'
FirstCharacter-cons c input r r' space e f = record {
  spaces = c ∷ f.spaces;
  c = f.c;
  rest = f.rest;
  split = ap (λ s. c ∷ s) f.split;
  all = (space, f.all);
  result = e ∙ f.result;
}

extract_identifier-space :
    (i : Option ℕ) (c : ℕ) (input : Bytes)
    → is_space c ≡ true
    → extract_identifier i (c ∷ input) ≡ extract_identifier i input
unfolding extract_identifier
extract_identifier-space i c input space =
    ap (λ b. if b then extract_identifier i input else (some c, input)) space

extract_identifier-other :
    (i : Option ℕ) (c : ℕ) (input : Bytes)
    → is_space c ≡ false
    → extract_identifier i (c ∷ input) ≡ (some c, input)
unfolding extract_identifier
extract_identifier-other i c input other =
    ap (λ b. if b then extract_identifier i input else (some c, input)) other

extract_identifier-cases :
    (i : Option ℕ) (input : Bytes)
    → (AllSpaces input × (extract_identifier i input ≡ (i, [])))
      ⊎ FirstCharacter input (extract_identifier i input)
unfolding extract_identifier
extract_identifier-cases i [] = inl (tt, refl)
extract_identifier-cases i (c ∷ input) = elim (Bool-cases (is_space c)) [
  | inr other ↦ inr (record {
    spaces = [];
    c = c;
    rest = input;
    split = refl;
    all = tt;
    result = extract_identifier-other i c input other;
  })
  | inl space ↦
      let e = extract_identifier-space i c input space in
      elim (extract_identifier-cases i input) [
        | inl (all, e') ↦ inl ((space, all), e ∙ e')
        | inr f ↦ inr (FirstCharacter-cons c input _ _ space e f)
      ]
]

space-not_valid : (c : ℕ) → is_space c ≡ true → identifier_is_valid c ≡ false
unfolding identifier_is_valid is_space
space-not_valid c h = ground arith

AllSpaces-AllRefused : (s : Bytes) → AllSpaces s → AllRefused s
AllSpaces-AllRefused [] h = tt
AllSpaces-AllRefused (c ∷ s) h = (space-not_valid c h.0, AllSpaces-AllRefused s h.1)

prompt-suc :
    (rounds : ℕ) (i i' : Option ℕ) (input rest : Bytes)
    → extract_identifier i input ≡ (i', rest)
    → prompt (suc rounds) i input ≡ check_identifier i' rest (prompt rounds i' rest)
unfolding prompt
prompt-suc rounds i i' input rest e = ap (λ r. check_identifier r.0 r.1 (prompt rounds r.0 r.1)) e

-- A round whose character is refused is followed by the others.
prompt-refused :
    (rounds c : ℕ) (i : Option ℕ) (input rest : Bytes)
    → extract_identifier i input ≡ (some c, rest)
    → identifier_is_valid c ≡ false
    → prompt (suc rounds) i input ≡ prompt rounds (some c) rest
unfolding check_identifier
prompt-refused rounds c i input rest e refused =
    prompt-suc rounds i (some c) input rest e
    ∙ ap (λ b. if b then some (returns (c, rest)) else prompt rounds (some c) rest) refused

-- At the end of the input a refused character is refused again and again.
prompt-nil :
    (rounds c : ℕ) (input : Bytes)
    → identifier_is_valid c ≡ false
    → extract_identifier (some c) input ≡ (some c, [])
    → prompt rounds (some c) input ≡ none
unfolding prompt extract_identifier
prompt-nil zero c input refused e = refl
prompt-nil (suc rounds) c input refused e =
    prompt-refused rounds c (some c) input [] e refused ∙ prompt-nil rounds c [] refused refl

none_behind :
    (i : Option ℕ) (input : Bytes) (f : FirstCharacter input (extract_identifier i input))
    → identifier_is_valid f.c ≡ false
    → ((rounds : ℕ) → prompt rounds (some f.c) f.rest ≡ none)
    → (rounds : ℕ) → prompt rounds i input ≡ none
unfolding prompt
none_behind i input f refused h zero = refl
none_behind i input f refused h (suc k) = prompt-refused k f.c i input f.rest f.result refused ∙ h k

-- A first character that is refused, and the rounds behind it.
EndsFrom-refused :
    (i : Option ℕ) (input : Bytes) (f : FirstCharacter input (extract_identifier i input))
    (r : Option (Outcome (ℕ × Bytes)))
    → identifier_is_valid f.c ≡ false
    → EndsFrom (some f.c) f.rest r
    → EndsFrom i input r
unfolding prompt
EndsFrom-refused i input f none refused h = (
  subst AllRefused (sym f.split)
      (All-append _ f.spaces (f.c ∷ f.rest) (AllSpaces-AllRefused f.spaces f.all) (refused, h.0)),
  λ rounds. none_behind i input f refused h.1 rounds,
)
EndsFrom-refused i input f (some (returns (c, rest))) refused h = record {
  refused = f.spaces ++ f.c ∷ h.refused;
  split =
      f.split
      ∙ ap (λ s. f.spaces ++ f.c ∷ s) h.split
      ∙ sym (append_assoc f.spaces (f.c ∷ h.refused) (c ∷ rest));
  not_valid =
      All-append _ f.spaces (f.c ∷ h.refused) (AllSpaces-AllRefused f.spaces f.all)
        (refused, h.not_valid);
  valid = h.valid;
}
EndsFrom-refused i input f (some undefined) refused h = let e = h.1 in cc
EndsFrom-refused i input f (some throws) refused h = h
EndsFrom-refused i input f (some aborts) refused h = h

abbrev IsRefused : Option ℕ → Type 0
IsRefused none = Unit
IsRefused (some c) = identifier_is_valid c ≡ false

prompt-spaces :
    (rounds : ℕ) (i : Option ℕ) (input : Bytes)
    → IsRefused i
    → AllSpaces input
    → extract_identifier i input ≡ (i, [])
    → EndsFrom i input (prompt (suc rounds) i input)
unfolding check_identifier
prompt-spaces rounds none input tt all e =
    subst (EndsFrom none input) (sym (prompt-suc rounds none none input [] e)) (all, refl)
prompt-spaces rounds (some c) input refused all e =
    subst (EndsFrom (some c) input) (sym (prompt-nil (suc rounds) c input refused e))
      (AllSpaces-AllRefused input all, λ k. prompt-nil k c input refused e)

prompt-EndsFrom :
    (rounds : ℕ) (i : Option ℕ) (input : Bytes)
    → length input < rounds
    → IsRefused i
    → EndsFrom i input (prompt rounds i input)
unfolding check_identifier
prompt-EndsFrom zero i input enough refused = absurd (omega arith)
prompt-EndsFrom (suc rounds) i input enough refused = elim (extract_identifier-cases i input) [
  | inl (all, e) ↦ prompt-spaces rounds i input refused all e
  | inr f ↦ elim (Bool-cases (identifier_is_valid f.c)) [
    | inl valid ↦
        subst (EndsFrom i input)
          (sym (
            prompt-suc rounds i (some f.c) input f.rest f.result
            ∙ ap (λ b. if b then some (returns (f.c, f.rest)) else prompt rounds (some f.c) f.rest)
                valid))
          (record {
            refused = f.spaces;
            split = f.split;
            not_valid = AllSpaces-AllRefused f.spaces f.all;
            valid = valid;
          })
    | inr other ↦
        let size = ap length f.split ∙ length-append f.spaces (f.c ∷ f.rest) in
        subst (EndsFrom i input) (sym (prompt-refused rounds f.c i input f.rest f.result other)) (
          EndsFrom-refused i input f (prompt rounds (some f.c) f.rest) other
            (prompt-EndsFrom rounds (some f.c) f.rest (omega (arith, size, enough)) other))
  ]
]

-- The prompt ends with the first valid letter of the input, if there is one, and with all that
-- stands behind it left to read; the letters in front of it are refused, and the spaces skipped.
-- On an input of spaces alone it reads a variable that has no value, which is undefined. On any
-- other input without a valid letter it does not end, however many rounds it does.
pub read_identifier-PromptEnds : (input : Bytes) → PromptEnds input (read_identifier input)
unfolding read_identifier
read_identifier-PromptEnds input = prompt-EndsFrom (suc (length input)) none input (omega arith) tt
