-- ===== src/Text/Stream.antt =====
-- `std::stringstream` as the client's input loop uses it: `>>` into a string and `std::getline`.
use cpsc.Common.{
  [], ◌∷◌, Bool, true, false, if◌then◌else◌, ◌==◌, ◌≡◌, ◌⊎◌, inl, inr, refl, Bool-cases, All, ◌≢◌,
  arith,
}
use cpsc.Text.Equal.{Bytes}
use cpsc.Text.Decimal.{is_space, skip_spaces}

-- What is not read yet, and whether no read has met the end.
pub record StringStream : Type 0 where
  pub rest : Bytes
  pub good : Bool

-- The characters up to the first white space, and those from it on.
unfoldable pub word : Bytes → Bytes
unfolding is_space
word [] = []
word (c ∷ s) = let tail = c ∷ word s in if is_space c then [] else tail

unfoldable pub past_word : Bytes → Bytes
unfolding is_space
past_word [] = []
past_word (c ∷ s) = let tail = past_word s in if is_space c then c ∷ s else tail

is_empty : Bytes → Bool
is_empty [] = true
is_empty (c ∷ s) = false

-- `ss >> target`. Where no word is left the read fails and `target` keeps its value; a read that
-- meets the end leaves a stream that is not good.
unfoldable pub extract : StringStream → Bytes → StringStream × Bytes
unfolding is_empty word past_word skip_spaces
extract ss target =
    let text = skip_spaces ss.rest in
    if ss.good
    then if is_empty text then (record { rest = []; good = false }, target) else (
      record { rest = past_word text; good = if is_empty (past_word text) then false else true },
      word text,
    )
    else (ss, target)

line : Bytes → Bytes
line [] = []
line (c ∷ s) = let tail = c ∷ line s in if c == 10 then [] else tail

past_line : Bytes → Bytes
past_line [] = []
past_line (c ∷ s) = let tail = past_line s in if c == 10 then s else tail

has_newline : Bytes → Bool
has_newline [] = false
has_newline (c ∷ s) = if c == 10 then true else has_newline s

-- `std::getline(ss, target)`
unfoldable pub getline : StringStream → Bytes → StringStream × Bytes
unfolding line past_line has_newline
getline ss target =
    if ss.good
    then (record { rest = past_line ss.rest; good = has_newline ss.rest }, line ss.rest)
    else (ss, target)

-- Empty, or with a white space in front.
abbrev pub StartsWithSpace : Bytes → Type 0
StartsWithSpace [] = Unit
StartsWithSpace (c ∷ s) = is_space c ≡ true

past_word-StartsWithSpace : (s : Bytes) → StartsWithSpace (past_word s)
unfolding past_word
past_word-StartsWithSpace [] = tt
past_word-StartsWithSpace (c ∷ s) = elim (Bool-cases (is_space c)) [
  | inl e ↦ rw e e
  | inr e ↦ rw e (past_word-StartsWithSpace s)
]

line-StartsWithSpace : (s : Bytes) → StartsWithSpace s → StartsWithSpace (line s)
unfolding line
line-StartsWithSpace [] h = tt
line-StartsWithSpace (c ∷ s) h = elim (Bool-cases (c == 10)) [ inl e ↦ rw e tt | inr e ↦ rw e h ]

getline-cases :
    (s input : Bytes) (good : Bool)
    → StartsWithSpace s
    → ((getline (record { rest = s; good = good }) input).1 ≡ input)
      ⊎ StartsWithSpace (getline (record { rest = s; good = good }) input).1
unfolding getline
getline-cases s input true h = inr (line-StartsWithSpace s h)
getline-cases s input false h = inl refl

getline_behind :
    (rest : Bytes) (good : Bool) (target input : Bytes)
    → let ss = (extract (record { rest = rest; good = good }) target).0 in
      ((getline ss input).1 ≡ input) ⊎ StartsWithSpace (getline ss input).1
unfolding extract
getline_behind rest false target input = inl (unfold getline in refl)
getline_behind rest true target input = elim (Bool-cases (is_empty (skip_spaces rest))) [
  | inl f ↦ rw f (getline-cases [] input false tt)
  | inr f ↦ rw f (
      getline-cases (past_word (skip_spaces rest)) input _
        (past_word-StartsWithSpace (skip_spaces rest)))
]

-- What `getline` finds behind a word begins with the white space that ended the word; where
-- nothing is left to read, the target keeps its value.
pub getline-extract :
    (ss : StringStream) (target input : Bytes)
    → ((getline (extract ss target).0 input).1 ≡ input)
      ⊎ StartsWithSpace (getline (extract ss target).0 input).1
getline-extract ss target input = getline_behind ss.rest ss.good target input

line_whole : (s : Bytes) → All (λ c. c ≢ 10) s → line s ≡ s
unfolding line
line_whole [] h = refl
line_whole (c ∷ s) h = ground (arith, line_whole s h.1)

-- A rest with no line break in it is read whole.
pub getline_whole :
    (s input : Bytes)
    → All (λ c. c ≢ 10) s
    → (getline (record { rest = s; good = true }) input).1 ≡ s
unfolding getline
getline_whole s input h = line_whole s h
