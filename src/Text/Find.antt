-- ===== src/Text/Find.antt =====
-- `find`, `substr` and `erase`, used to cut a text at a delimiter.
use cpsc.Common.{
  ℕ, suc, ◌+◌, ◌-◌, ◌%◌, ◌^◌, [], ◌∷◌, ◌++◌, Bool, true, false, ◌&&◌, Option, none, some, ◌≡◌, ◌≢◌,
  refl, ◌==◌, arith, if◌then◌else◌, length, take, drop, take-append_length, drop-append_length, All,
}
use cpsc.Text.Equal.{Bytes}

unfoldable pub starts_with : Bytes → Bytes → Bool
starts_with [] s = true
starts_with (p ∷ ps) [] = false
starts_with (p ∷ ps) (c ∷ s) = p == c && starts_with ps s

abbrev pub shift : Option ℕ → Option ℕ
shift none = none
shift (some i) = some (suc i)

-- `find` of a nonempty pattern; `none` is `npos`.
unfoldable pub find : Bytes → Bytes → Option ℕ
unfolding starts_with
find p [] = none
find p (c ∷ s) = if starts_with p (c ∷ s) then some 0 else shift (find p s)

-- `s.substr(0, s.find(p))`
unfoldable pub before : Bytes → Bytes → Bytes
before p s = elim (find p s) [ none ↦ s | some i ↦ take i s ]

-- `s.erase(0, s.find(p) + p.length())`: `npos`, which is 2^64 - 1, wraps around.
unfoldable pub after : Bytes → Bytes → Bytes
after p s = elim (find p s) [
  | none ↦ drop ((2 ^ 64 - 1 + length p) % 2 ^ 64) s
  | some i ↦ drop (i + length p) s
]

-- A text that does not hold the pattern.
abbrev pub Lacks : Bytes → Bytes → Type 0
Lacks p s = find p s ≡ none

-- A delimiter of two different bytes, as the program uses, is found where it was put.
module _ (a b : ℕ) (distinct : a ≢ b) where
  find-append :
      (f rest : Bytes)
      → Lacks (a ∷ b ∷ []) f
      → find (a ∷ b ∷ []) (f ++ a ∷ b ∷ rest) ≡ some (length f)
  unfolding find
  find-append [] rest h = ground arith
  find-append (c ∷ []) rest h = ground (arith, find-append [] rest refl)
  find-append (c ∷ d ∷ f) rest h = ground (arith, find-append (d ∷ f) rest)

  pub before-append :
      (f rest : Bytes) → Lacks (a ∷ b ∷ []) f → before (a ∷ b ∷ []) (f ++ a ∷ b ∷ rest) ≡ f
  unfolding before
  before-append f rest h = rw (find-append f rest h, before) (take-append_length f (a ∷ b ∷ rest))

  pub after-append :
      (f rest : Bytes) → Lacks (a ∷ b ∷ []) f → after (a ∷ b ∷ []) (f ++ a ∷ b ∷ rest) ≡ rest
  unfolding after
  after-append f rest h = rw (find-append f rest h, after) (drop-append_length f (a ∷ b ∷ rest) 2)

pub All-Lacks : (a : ℕ) (ps f : Bytes) → All (λ c. c ≢ a) f → Lacks (a ∷ ps) f
unfolding find
All-Lacks a ps [] h = refl
All-Lacks a ps (c ∷ f) h = ground (arith, All-Lacks a ps f h.1)
