-- ===== src/Text/Equal.antt =====
-- `operator==` of `std::string`, and the bytes of a literal.
use Prim.Native.Char.{code}
use cpsc.Common.{
  ℕ, String, List, [], ◌∷◌, Bool, true, false, ◌&&◌, ◌≡◌, ◌≢◌, refl, ◌↔◌, ◌==◌, arith, Bool-cases,
  inl, inr,
}

abbrev pub Bytes : Type 0
Bytes = List ℕ

-- The bytes of an ASCII literal.
abbrev pub codes : String → Bytes
codes String.[] = []
codes (String.◌∷◌ c s) = code c ∷ codes s

unfoldable pub equals : Bytes → Bytes → Bool
equals [] [] = true
equals [] (y ∷ ys) = false
equals (x ∷ xs) [] = false
equals (x ∷ xs) (y ∷ ys) = x == y && equals xs ys

equals-eq : (s t : Bytes) → equals s t ≡ true → s ≡ t
unfolding equals
equals-eq [] [] h = refl
equals-eq [] (y ∷ ys) h = ground arith
equals-eq (x ∷ xs) [] h = ground arith
equals-eq (x ∷ xs) (y ∷ ys) h = ground (arith, equals-eq xs ys)

pub equals_self : (s : Bytes) → equals s s ≡ true
unfolding equals
equals_self [] = refl
equals_self (x ∷ xs) = ground (arith, equals_self xs)

pub equals_iff : (s t : Bytes) → (equals s t ≡ true) ↔ (s ≡ t)
equals_iff s t = (equals-eq s t, λ e. cc (equals_self s, e))

pub equals_ne : (s t : Bytes) → s ≢ t → equals s t ≡ false
equals_ne s t h = elim (Bool-cases (equals s t)) [
  | inl e ↦ absurd (h (equals-eq s t e))
  | inr e ↦ e
]
