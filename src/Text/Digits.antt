-- ===== src/Text/Digits.antt =====
-- Decimal digits: their number, and the number that they stand for.
use native.Mathlib.Nat.{pow-suc}
use aosv_project.Base.{
  ℕ, zero, suc, ◌+◌, ◌-◌, ◌*◌, ◌/◌, ◌%◌, ◌^◌, ◌≤◌, ◌<◌, ◌≡◌, refl, List, [], ◌∷◌, ◌++◌, arith, ltb,
  length, Bool-cases, inl, inr, Bool, true, ◌&&◌,
}
use aosv_project.Text.{Text, digits, print_signed, print_int, print_long}

pub length-append : {A : Type 0} (xs ys : List A) → length (xs ++ ys) ≡ length xs + length ys
length-append [] ys = omega arith
length-append (x ∷ xs) ys = omega (arith, length-append xs ys)

pub length-digits-le : (size n : ℕ) → length (digits size n) ≤ size
unfolding digits
length-digits-le zero n = omega arith
length-digits-le (suc size) n = ground (
  arith,
  length-digits-le size (n / 10),
  length-append (digits size (n / 10)) ((b'0' + n % 10) ∷ []),
)

length-print_signed-le : (size half n : ℕ) → length (print_signed size half n) ≤ size + 1
unfolding print_signed
length-print_signed-le size half n =
    ground (arith, length-digits-le size n, length-digits-le size (2 * half - n))

pub length-print_int-le : (n : ℕ) → length (print_int n) ≤ 11
unfolding print_int
length-print_int-le n = length-print_signed-le 10 (2 ^ 31) n

pub length-print_long-le : (n : ℕ) → length (print_long n) ≤ 20
unfolding print_long
length-print_long-le n = length-print_signed-le 19 (2 ^ 63) n

-- What a sequence of digits stands for, after `acc`.
abbrev pub value : (acc : ℕ) → Text → ℕ
value acc [] = acc
value acc (c ∷ cs) = value (10 * acc + (c - b'0')) cs

value-append : (acc : ℕ) (xs ys : Text) → value acc (xs ++ ys) ≡ value (value acc xs) ys
value-append acc [] ys = refl
value-append acc (x ∷ xs) ys = value-append (10 * acc + (x - b'0')) xs ys

pub value-digits : (size n : ℕ) → n < 10 ^ size → value 0 (digits size n) ≡ n
unfolding digits
value-digits zero n h = omega arith
value-digits (suc size) n h = elim (Bool-cases (ltb n 10)) [
  | inl small ↦ rw small (omega arith)
  | inr large ↦
      let smaller : n / 10 < 10 ^ size =
        let e : 10 ^ suc size ≡ 10 ^ size * 10 = pow-suc 10 size in omega (arith, e) in
      rw
        (
          large,
          value-append 0 (digits size (n / 10)) ((b'0' + n % 10) ∷ []),
          value-digits size (n / 10) smaller,
        )
        (omega arith)
]

-- A text of decimal digits alone.
abbrev pub all_digits : Text → Bool
all_digits [] = true
all_digits (c ∷ cs) = ltb 47 c && ltb c 58 && all_digits cs

all_digits-append : (xs ys : Text) → all_digits (xs ++ ys) ≡ all_digits xs && all_digits ys
all_digits-append [] ys = refl
all_digits-append (x ∷ xs) ys = ground (arith, all_digits-append xs ys)

pub all_digits-digits : (size n : ℕ) → all_digits (digits size n) ≡ true
unfolding digits
all_digits-digits zero n = refl
all_digits-digits (suc size) n = elim (Bool-cases (ltb n 10)) [
  | inl small ↦ rw small (ground arith)
  | inr large ↦
      rw
        (
          large,
          all_digits-append (digits size (n / 10)) ((b'0' + n % 10) ∷ []),
          all_digits-digits size (n / 10),
        )
        (ground arith)
]

pub length-digits-positive : (size n : ℕ) → 0 < length (digits (suc size) n)
unfolding digits
length-digits-positive size n =
    ground (arith, length-append (digits size (n / 10)) ((b'0' + n % 10) ∷ []))

pub print_int-small : (n : ℕ) → n < 2 ^ 31 → print_int n ≡ digits 10 n
unfolding print_int
print_int-small n h = let e : ltb n (2 ^ 31) ≡ true = ground arith in rw (print_int, e) refl
