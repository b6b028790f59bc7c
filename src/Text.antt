-- ===== src/Text.antt =====
-- Texts as lists of bytes, and what `sprintf` writes for "%d" and "%ld".
pub mod Digits
use Prim.Native.Char.{code}
use Prim.Native.String.{String}
use aosv_project.Base.{
  ℕ, zero, suc, ◌+◌, ◌-◌, ◌/◌, ◌%◌, ◌^◌, ◌*◌, List, [], ◌∷◌, ◌++◌, if◌then◌else◌, ltb, int_mod,
  long_mod,
}

abbrev pub Text : Type 0
Text = List ℕ

-- The bytes of a literal, which is ASCII.
abbrev pub codes : String → Text
codes String.[] = []
codes (String.◌∷◌ c s) = code c ∷ codes s

-- The decimal digits of `n`, at most `size` of them, the last ones.
unfoldable pub digits : (size n : ℕ) → Text
digits zero n = []
digits (suc size) n =
    let front = digits size (n / 10) in
    if ltb n 10 then (b'0' + n) ∷ [] else front ++ ((b'0' + n % 10) ∷ [])

-- A number below `2 * half` as a two's complement pattern, with `size` digits for its magnitude.
unfoldable pub print_signed : (size half n : ℕ) → Text
unfolding digits
print_signed size half n = if ltb n half then digits size n else b'-' ∷ digits size (2 * half - n)

-- "%d": the magnitude of an `int` has ten digits at most.
unfoldable pub print_int : ℕ → Text
unfolding print_signed
print_int n = print_signed 10 (2 ^ 31) n

-- "%ld": the magnitude of a `long` has nineteen digits at most.
unfoldable pub print_long : ℕ → Text
unfolding print_signed
print_long n = print_signed 19 (2 ^ 63) n
