-- ===== src/Decimal.antt =====
-- `%d` and `%ld` of `fprintf` and `snprintf`: the decimal digits of a number, with a sign in front of
-- a negative one. They are read back by `atoi` and `atol`, which are `atoi` of CString.
use distributed_concurrent_f.Prelude.{
  ℕ, zero, suc, ◌+◌, ◌/◌, ◌%◌, ◌≤◌, ◌<◌, false, ◌&&◌, [], ◌∷◌, ◌≡◌, ◌≢◌, refl, arith, Bytes, ℤ, pos,
  negsuc, All, All-imp, ◌||◌, ltb, leb, ◌==◌, if◌then◌else◌, Bool-cases, inl, inr,
}
use distributed_concurrent_f.CString.{is_space, skip_spaces, digits_value, signed_value, atoi}
use distributed_concurrent_f.CString.Fields.{IsField}

-- The digits of `n` in front of `out`; a number has fewer digits than `n + 1`.
unfoldable pub digits : ℕ → ℕ → Bytes → Bytes
digits zero n out = out
digits (suc rounds) n out =
    let more = digits rounds (n / 10) ((b'0' + n % 10) ∷ out) in
    if ltb n 10 then (b'0' + n) ∷ out else more

unfoldable pub print_nat : ℕ → Bytes
unfolding digits
print_nat n = digits (suc n) n []

unfoldable pub print_int : ℤ → Bytes
unfolding print_nat
print_int (pos n) = print_nat n
print_int (negsuc n) = b'-' ∷ print_nat (suc n)

abbrev pub IsDigit : ℕ → Type 0
IsDigit c = (b'0' ≤ c) × (c ≤ b'9')

digits-IsDigit : (rounds n : ℕ) (out : Bytes) → All IsDigit out → All IsDigit (digits rounds n out)
unfolding digits
digits-IsDigit zero n out h = h
digits-IsDigit (suc rounds) n out h = elim (Bool-cases (ltb n 10)) [
  | inl small ↦ rw (small, digits) ((ground arith), h)
  | inr large ↦
      rw (large, digits) (digits-IsDigit rounds (n / 10) ((b'0' + n % 10) ∷ out) ((omega arith), h))
]

cons-ne-nil : (c : ℕ) (s : Bytes) → c ∷ s ≢ []
cons-ne-nil c s e = cc

digits-ne-nil : (rounds n : ℕ) (c : ℕ) (out : Bytes) → digits rounds n (c ∷ out) ≢ []
unfolding digits
digits-ne-nil zero n c out = cons-ne-nil c out
digits-ne-nil (suc rounds) n c out = ground (
  arith,
  cons-ne-nil (b'0' + n) (c ∷ out),
  digits-ne-nil rounds (n / 10) (b'0' + n % 10) (c ∷ out),
)

print_nat-ne-nil : (n : ℕ) → print_nat n ≢ []
unfolding print_nat
print_nat-ne-nil n =
    ground (arith, cons-ne-nil (b'0' + n) [], digits-ne-nil n (n / 10) (b'0' + n % 10) [])

pub print_nat-IsDigit : (n : ℕ) → All IsDigit (print_nat n)
unfolding print_nat
print_nat-IsDigit n = digits-IsDigit (suc n) n [] tt

-- Reading the digits gives the number.
digits_value-digits :
    (rounds n : ℕ) (out : Bytes)
    → n < rounds
    → digits_value (digits rounds n out) 0 ≡ digits_value out n
unfolding digits digits_value
digits_value-digits zero n out h = absurd (omega arith)
digits_value-digits (suc rounds) n out h =
    ground (arith, digits_value-digits rounds (n / 10) ((b'0' + n % 10) ∷ out))

signed_digits :
    (s : Bytes) → s ≢ [] → All IsDigit s → signed_value (skip_spaces s) ≡ pos (digits_value s 0)
unfolding skip_spaces is_space
signed_digits [] n h = absurd (n refl)
signed_digits (c ∷ s) n h = ground arith

digits_value-print_nat : (n : ℕ) → digits_value (print_nat n) 0 ≡ n
unfolding print_nat digits_value
digits_value-print_nat n = digits_value-digits (suc n) n [] (omega arith)

-- What is printed of an integer is read back by `atoi`, and by `atol`.
pub atoi-print_int : (z : ℤ) → atoi (print_int z) ≡ z
unfolding atoi print_int skip_spaces is_space
atoi-print_int (pos n) = ground (
  arith,
  signed_digits (print_nat n) (print_nat-ne-nil n) (print_nat-IsDigit n),
  digits_value-print_nat n,
)
atoi-print_int (negsuc n) = rw (digits_value-print_nat (suc n)) refl

pub print_int-ne-nil : (z : ℤ) → print_int z ≢ []
unfolding print_int
print_int-ne-nil (pos n) = print_nat-ne-nil n
print_int-ne-nil (negsuc n) = cons-ne-nil b'-' (print_nat (suc n))

-- A byte that is no digit and no sign.
abbrev pub IsApart : ℕ → Type 0
IsApart d = (d == b'-' || (leb b'0' d && leb d b'9')) ≡ false

print_nat-free : (d n : ℕ) → IsApart d → All (λ c. (c == d) ≡ false) (print_nat n)
print_nat-free d n h =
    All-imp IsDigit (λ c. (c == d) ≡ false) (λ c k. ground (arith, h, k.0, k.1)) (print_nat n)
      (print_nat-IsDigit n)

print_int-free : (d : ℕ) (z : ℤ) → IsApart d → All (λ c. (c == d) ≡ false) (print_int z)
unfolding print_int
print_int-free d (pos n) h = print_nat-free d n h
print_int-free d (negsuc n) h = (ground (arith, h), print_nat-free d (suc n) h)

-- A printed number is a field.
pub print_int-IsField : (d : ℕ) (z : ℤ) → IsApart d → IsField d (print_int z)
print_int-IsField d z h = (print_int-ne-nil z, print_int-free d z h)
