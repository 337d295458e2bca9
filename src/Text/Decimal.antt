-- ===== src/Text/Decimal.antt =====
-- `std::to_string` of a signed integer, and `std::stoi`.
use cpsc.Common.{
  length, ◌^◌, ℕ, zero, suc, ◌+◌, ◌-◌, ◌*◌, ◌/◌, ◌%◌, ◌<◌, ◌≤◌, [], ◌∷◌, Bool, false, ◌&&◌, ◌||◌,
  ◌≡◌, ◌≢◌, refl, ◌==◌, ltb, leb, arith, if◌then◌else◌, ℤ, pos, negsuc, is_int32, Outcome, returns,
  throws, All, ◌>>=◌, Bool-cases, inl, inr, undefined, aborts,
}
use cpsc.Text.Equal.{Bytes}

-- The digits of `n` in front of `out`, in `fuel` rounds at most.
digits : ℕ → ℕ → Bytes → Bytes
digits zero n out = out
digits (suc fuel) n out =
    let rest = digits fuel (n / 10) ((b'0' + n % 10) ∷ out) in
    if ltb n 10 then (b'0' + n) ∷ out else rest

abbrev print_nat : ℕ → Bytes
print_nat n = digits (suc n) n []

unfoldable pub to_string : ℤ → Bytes
unfolding digits
to_string (pos n) = print_nat n
to_string (negsuc n) = b'-' ∷ print_nat (suc n)

is_digit : ℕ → Bool
is_digit c = leb b'0' c && leb c b'9'

-- The number that the digits at the front of the text spell behind `n`.
read_digits : ℕ → Bytes → ℕ
read_digits n [] = n
read_digits n (c ∷ s) =
    let rest = read_digits (n * 10 + (c - b'0')) s in if is_digit c then rest else n

starts_with_digit : Bytes → Bool
starts_with_digit [] = false
starts_with_digit (c ∷ s) = is_digit c

-- `isspace` in the "C" locale: the space, and tab to carriage return.
unfoldable pub is_space : ℕ → Bool
is_space c = c == 32 || (leb 9 c && leb c 13)

unfoldable pub skip_spaces : Bytes → Bytes
unfolding is_space
skip_spaces [] = []
skip_spaces (c ∷ s) = let rest = skip_spaces s in if is_space c then rest else c ∷ s

negated : ℕ → ℤ
negated zero = pos 0
negated (suc n) = negsuc n

-- `std::out_of_range` for a value that is no `int`.
in_int : ℤ → Outcome ℤ
in_int z = if is_int32 z then returns z else throws

-- `std::invalid_argument` where no digit follows.
read_nat : Bytes → Outcome ℕ
read_nat s = if starts_with_digit s then returns (read_digits 0 s) else throws

read_signed : Bytes → Outcome ℤ
read_signed [] = throws
read_signed (c ∷ s) =
    if c == b'-'
    then (read_nat s >>= λ n. in_int (negated n))
    else if c == b'+'
    then (read_nat s >>= λ n. in_int (pos n))
    else (read_nat (c ∷ s) >>= λ n. in_int (pos n))

-- Leading white space is skipped, and what follows the number is ignored.
unfoldable pub stoi : Bytes → Outcome ℤ
unfolding skip_spaces is_digit read_digits starts_with_digit negated in_int read_nat read_signed
stoi s = read_signed (skip_spaces s)

read_digits-digits :
    (fuel n : ℕ) (out : Bytes) → n < fuel → read_digits 0 (digits fuel n out) ≡ read_digits n out
unfolding read_digits is_digit digits
read_digits-digits zero n out h = elim h [ ]
read_digits-digits (suc fuel) n out h =
    ground (arith, read_digits-digits fuel (n / 10) ((b'0' + n % 10) ∷ out))

read_digits_nil : (n : ℕ) → read_digits n [] ≡ n
unfolding read_digits
read_digits_nil n = refl

-- The first byte of a printed number is a digit.
digits_head :
    (fuel n : ℕ) (out : Bytes)
    → n < fuel
    → (c : ℕ) × (s : Bytes) × (digits fuel n out ≡ c ∷ s) × (b'0' ≤ c) × (c ≤ b'9')
unfolding digits
digits_head zero n out h = elim h [ ]
digits_head (suc fuel) n out h = elim (Bool-cases (ltb n 10)) [
  | inl small ↦ (b'0' + n, out, rw small refl, omega arith, ground arith)
  | inr large ↦ rw large (digits_head fuel (n / 10) ((b'0' + n % 10) ∷ out) (ground arith))
]

read_nat_head :
    (c : ℕ) (s : Bytes) → b'0' ≤ c → c ≤ b'9' → read_nat (c ∷ s) ≡ returns (read_digits 0 (c ∷ s))
unfolding read_nat starts_with_digit is_digit read_digits
read_nat_head c s h k = ground arith

stoi_head :
    (c : ℕ) (s : Bytes) → b'0' ≤ c → c ≤ b'9' → stoi (c ∷ s) ≡ in_int (pos (read_digits 0 (c ∷ s)))
unfolding stoi
stoi_head c s h k = ground arith

read_nat-print : (n : ℕ) → read_nat (print_nat n) ≡ returns n
read_nat-print n =
    let (c, s, e, h, k) = digits_head (suc n) n [] (omega arith) in
    cc (e, read_nat_head c s h k, read_digits-digits (suc n) n [] (omega arith), read_digits_nil n)

stoi-print : (n : ℕ) → stoi (print_nat n) ≡ in_int (pos n)
stoi-print n =
    let (c, s, e, h, k) = digits_head (suc n) n [] (omega arith) in
    cc (e, stoi_head c s h k, read_digits-digits (suc n) n [] (omega arith), read_digits_nil n)

stoi_minus :
    (n : ℕ) (s : Bytes) → read_nat s ≡ returns (suc n) → stoi (b'-' ∷ s) ≡ in_int (negsuc n)
unfolding stoi
stoi_minus n s h = ground arith

-- `stoi` reads every `int` back from its print, and throws on the print of any other number.
pub stoi-to_string : (z : ℤ) → stoi (to_string z) ≡ (if is_int32 z then returns z else throws)
unfolding to_string in_int
stoi-to_string (pos n) = stoi-print n
stoi-to_string (negsuc n) = stoi_minus n _ (read_nat-print (suc n))

digits_above_slash :
    (fuel n : ℕ) (out : Bytes) → All (λ c. c ≢ b'/') out → All (λ c. c ≢ b'/') (digits fuel n out)
unfolding digits
digits_above_slash zero n out h = h
digits_above_slash (suc fuel) n out h =
    ground (arith, digits_above_slash fuel (n / 10) ((b'0' + n % 10) ∷ out))

pub to_string_no_slash : (z : ℤ) → All (λ c. c ≢ b'/') (to_string z)
unfolding to_string
to_string_no_slash (pos n) = digits_above_slash (suc n) n [] tt
to_string_no_slash (negsuc n) = (omega arith, digits_above_slash (suc (suc n)) (suc n) [] tt)

read_signed-ne-undefined : (s : Bytes) → read_signed s ≢ undefined
unfolding read_signed read_nat in_int
read_signed-ne-undefined [] h = cc
read_signed-ne-undefined (c ∷ s) h = ground arith

pub stoi-ne-undefined : (s : Bytes) → stoi s ≢ undefined
unfolding stoi
stoi-ne-undefined s = read_signed-ne-undefined (skip_spaces s)

read_signed-ne-aborts : (s : Bytes) → read_signed s ≢ aborts
unfolding read_signed read_nat in_int
read_signed-ne-aborts [] h = cc
read_signed-ne-aborts (c ∷ s) h = ground arith

pub stoi-ne-aborts : (s : Bytes) → stoi s ≢ aborts
unfolding stoi
stoi-ne-aborts s = read_signed-ne-aborts (skip_spaces s)

-- A number that was read is an `int`.
pub stoi-is_int32 : (s : Bytes) (z : ℤ) → stoi s ≡ returns z → is_int32 z ≡ Bool.true
unfolding stoi read_signed read_nat in_int
stoi-is_int32 s z h = signed (skip_spaces s) h
  where
    signed : (s : Bytes) → read_signed s ≡ returns z → is_int32 z ≡ Bool.true
    signed [] h = cc
    signed (c ∷ s) h = ground arith

tens : ℕ → ℕ
tens zero = 1
tens (suc d) = 10 * tens d

length-digits :
    (fuel d n : ℕ) (out : Bytes)
    → n < tens (suc d)
    → length (digits fuel n out) ≤ length out + suc d
unfolding digits tens
length-digits zero d n out h = omega arith
length-digits (suc fuel) zero n out h = ground arith
length-digits (suc fuel) (suc d) n out h =
    ground (arith, length-digits fuel d (n / 10) ((b'0' + n % 10) ∷ out))

-- A sequence number that is an `int` has ten digits at most.
pub length-to_string : (n : ℕ) → n < 2 ^ 31 → length (to_string (pos n)) ≤ 10
unfolding to_string tens
length-to_string n h = length-digits (suc n) 9 n [] (omega arith)

pub length-to_string_int32 : (z : ℤ) → is_int32 z ≡ Bool.true → length (to_string z) ≤ 11
unfolding to_string tens
length-to_string_int32 (pos n) h =
    let inside : n < 2 ^ 31 = ground arith in
    omega (arith, length-digits (suc n) 9 n [] (omega arith))
length-to_string_int32 (negsuc n) h =
    let inside : n < 2 ^ 31 = ground arith in
    omega (arith, length-digits (suc (suc n)) 9 (suc n) [] (omega arith))
