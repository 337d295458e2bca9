-- ===== src/Client/Command.antt =====
-- The command parser of `inputLoop`.
use cpsc.Common.{
  [], ◌∷◌, ◌++◌, ◌≡◌, ◌≢◌, inl, inr, refl, sym, ◌∙◌, subst, arith, true, false, All, ℕ,
}
use cpsc.Text.{
  Bytes, codes, equals, StartsWithSpace, extract, getline-extract, word, past_word, skip_spaces,
  is_space, getline_whole,
}
use cpsc.Client.{is_command, command_arguments}

abbrev pub exit_text : Bytes
exit_text = codes "/exit"

exit_no_space : ¬ StartsWithSpace exit_text
unfolding is_space
exit_no_space h = cc

-- The first word of the line `/exit` is `/exit`, which is no command.
exit_no_command : is_command (extract (record { rest = exit_text; good = true }) []).1 ≡ false
unfolding is_command extract equals
exit_no_command = refl

-- The text of a command is never `/exit`: it begins with the white space behind the destination,
-- or it is the whole line, whose first word is a command.
pub command_arguments-ne-exit :
    (input : Bytes)
    → is_command (extract (record { rest = input; good = true }) []).1 ≡ true
    → (command_arguments input (extract (record { rest = input; good = true }) []).0).1 ≢ exit_text
unfolding command_arguments
command_arguments-ne-exit input h e =
    elim (getline-extract (extract (record { rest = input; good = true }) []).0 (codes "broadcast")
      input) [
        | inl whole ↦ no_exit (sym whole ∙ e)
        | inr spaced ↦ exit_no_space (subst StartsWithSpace e spaced)
      ]
  where
    no_exit : input ≡ exit_text → ⊥
    no_exit same = cc (
      exit_no_command,
      subst (λ l. is_command (extract (record { rest = l; good = true }) []).1 ≡ true) same h,
    )

-- A name that can be entered as a destination: a word.
abbrev pub IsWord : Bytes → Type 0
IsWord = All (λ c. is_space c ≡ false)

word-append : (w rest : Bytes) → IsWord w → word (w ++ 32 ∷ rest) ≡ w
unfolding word is_space
word-append [] rest h = refl
word-append (c ∷ w) rest h = ground (arith, word-append w rest)

past_word-append : (w rest : Bytes) → IsWord w → past_word (w ++ 32 ∷ rest) ≡ 32 ∷ rest
unfolding past_word is_space
past_word-append [] rest h = refl
past_word-append (c ∷ w) rest h = ground (arith, past_word-append w rest)

skip_spaces_word :
    (c : ℕ) (rest : Bytes) → is_space c ≡ false → skip_spaces (32 ∷ c ∷ rest) ≡ c ∷ rest
unfolding skip_spaces is_space
skip_spaces_word c rest h = ground arith

-- Reading a word with a blank behind it, at the front of the stream or behind a blank.
extract_word :
    (c : ℕ) (w rest target : Bytes)
    → IsWord (c ∷ w)
    → extract (record { rest = (c ∷ w) ++ 32 ∷ rest; good = true }) target
      ≡ (record { rest = 32 ∷ rest; good = true }, c ∷ w)
unfolding extract
extract_word c w rest target h = simp (
  skip_no_space c (w ++ 32 ∷ rest) h.0,
  past_word-append (c ∷ w) rest h,
  word-append (c ∷ w) rest h,
)
  where
    skip_no_space : (c : ℕ) (s : Bytes) → is_space c ≡ false → skip_spaces (c ∷ s) ≡ c ∷ s
    skip_no_space c s e = unfold skip_spaces in ground arith

extract_second :
    (c : ℕ) (w rest target : Bytes)
    → IsWord (c ∷ w)
    → extract (record { rest = 32 ∷ ((c ∷ w) ++ 32 ∷ rest); good = true }) target
      ≡ (record { rest = 32 ∷ rest; good = true }, c ∷ w)
unfolding extract
extract_second c w rest target h = simp (
  skip_spaces_word c (w ++ 32 ∷ rest) h.0,
  past_word-append (c ∷ w) rest h,
  word-append (c ∷ w) rest h,
)

-- A line without a line break is read by `getline` whole.
abbrev pub IsLine : Bytes → Type 0
IsLine = All (λ c. c ≢ 10)

-- The line that sends `text` to the destination.
abbrev pub command_line : Bytes → Bytes → Bytes
command_line destination text = codes "/m" ++ 32 ∷ (destination ++ 32 ∷ text)

-- A line made of the command, a destination that is one word and a text is read as that
-- destination, and as the text with the blank in front of it.
pub command_arguments-command_line :
    (c : ℕ) (w text : Bytes)
    → IsWord (c ∷ w)
    → IsLine text
    → (is_command (extract (record { rest = command_line (c ∷ w) text; good = true }) []).1 ≡ true)
      × (command_arguments
            (command_line (c ∷ w) text)
            (extract (record { rest = command_line (c ∷ w) text; good = true }) []).0
          ≡ (c ∷ w, 32 ∷ text))
unfolding command_arguments
command_arguments-command_line c w text h one_line =
    let first = extract_word b'/' (b'm' ∷ []) ((c ∷ w) ++ 32 ∷ text) [] slash_m in
    (
      rw first slash_m_command,
      simp (
        first,
        extract_second c w text (codes "broadcast") h,
        getline_whole (32 ∷ text) (command_line (c ∷ w) text)
            ((λ e. absurd (omega arith)), one_line),
      ),
    )
  where
    slash_m : IsWord (codes "/m")
    slash_m = unfold is_space in (refl, (refl, tt))

    slash_m_command : is_command (codes "/m") ≡ true
    slash_m_command = unfold is_command equals in refl
