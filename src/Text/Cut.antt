-- ===== src/Text/Cut.antt =====
-- What stands before a delimiter of two bytes.
use cpsc.Common.{
  ℕ, ◌≤◌, ◌+◌, [], ◌∷◌, true, false, ◌≡◌, refl, arith, length, length-drop, Bool-cases,
  Option-cases, inl, inr, ◌%◌, ◌-◌, ◌^◌,
}
use cpsc.Text.Equal.{Bytes}
use cpsc.Text.Find.{find, before, after, Lacks, starts_with}

module _ (a b : ℕ) where
  abbrev delimiter : Bytes
  delimiter = a ∷ b ∷ []

  before-found :
      (c : ℕ) (s : Bytes) → starts_with delimiter (c ∷ s) ≡ true → before delimiter (c ∷ s) ≡ []
  unfolding before find
  before-found c s h = rw (h, before) refl

  before-cons :
      (c : ℕ) (s : Bytes)
      → starts_with delimiter (c ∷ s) ≡ false
      → before delimiter (c ∷ s) ≡ c ∷ before delimiter s
  unfolding before find
  before-cons c s h = elim (Option-cases (find delimiter s)) [
    | inl e ↦ ground arith
    | inr (i, e) ↦ ground arith
  ]

  pub length-before : (s : Bytes) → length (before delimiter s) ≤ length s
  unfolding before find
  length-before [] = omega arith
  length-before (c ∷ s) = elim (Bool-cases (starts_with delimiter (c ∷ s))) [
    | inl e ↦ rw (before-found c s e) (omega arith)
    | inr e ↦ rw (before-cons c s e) (omega (arith, length-before s))
  ]

  pub length-after : (s : Bytes) → length (after delimiter s) ≤ length s
  unfolding after
  length-after s = elim (Option-cases (find delimiter s)) [
    | inl e ↦ rw (e, after) (length-drop ((2 ^ 64 - 1 + length delimiter) % 2 ^ 64) s)
    | inr (i, e) ↦ rw (e, after) (length-drop (i + length delimiter) s)
  ]

  -- What a text begins with, it begins with in front of a delimiter only if it does so anyway.
  starts_with-before :
      (c : ℕ) (s : Bytes)
      → starts_with delimiter (c ∷ s) ≡ false
      → starts_with delimiter (c ∷ before delimiter s) ≡ false
  unfolding starts_with before find
  starts_with-before c [] h = h
  starts_with-before c (d ∷ s) h = elim (Bool-cases (starts_with delimiter (d ∷ s))) [
    | inl e ↦ rw (before-found d s e) (ground arith)
    | inr e ↦ rw (before-cons d s e) (ground arith)
  ]

  pub before-Lacks : (s : Bytes) → Lacks delimiter (before delimiter s)
  unfolding before find
  before-Lacks [] = refl
  before-Lacks (c ∷ s) = elim (Bool-cases (starts_with delimiter (c ∷ s))) [
    | inl e ↦ rw (before-found c s e) refl
    | inr e ↦ rw (before-cons c s e, starts_with-before c s e, before-Lacks s) refl
  ]
