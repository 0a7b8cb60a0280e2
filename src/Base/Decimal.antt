-- ===== src/Base/Decimal.antt =====
-- `{n}` of `format!` and `str::parse::<u64>`.
use Prim.Native.Nat.{ℕ, zero, suc, ◌+◌, ◌-◌, ◌*◌, ◌/◌, ◌%◌, ◌≤◌, ◌<◌}
use mathlib.Core.Path.{◌≡◌, refl, ◌∙◌}
use mathlib.Core.Logic.{inl, inr}
use mathlib.Core.Bool.{Bool, ◌&&◌}
use mathlib.Core.Option.{Option, none, some}
use mathlib.Core.List.{List, [], ◌∷◌}
use native.Mathlib.Omega.{arith}
use kutsu.Base.Tests.{ltb, leb, ◌==◌, if◌then◌else◌, Bool-cases}
use kutsu.Base.Words.{u64_max}
use kutsu.Base.Lists.{All}

-- The decimal digits of `n` before `rest`; `fuel` above `n` is enough.
digits_from : ℕ → ℕ → List ℕ → List ℕ
digits_from zero n rest = rest
digits_from (suc fuel) n rest =
    let more = digits_from fuel (n / 10) ((48 + n % 10) ∷ rest) in
    if ltb n 10 then (48 + n) ∷ rest else more

unfoldable pub print_decimal : ℕ → List ℕ
unfolding digits_from
print_decimal n = digits_from (suc n) n []

is_digit : ℕ → Bool
is_digit c = leb 48 c && leb c 57

-- The digit loop of `u64::from_str`, with its overflow check.
parse_digits : ℕ → List ℕ → Option ℕ
parse_digits acc [] = some acc
parse_digits acc (c ∷ cs) =
    let next = acc * 10 + (c - 48) in
    let rest = parse_digits next cs in if is_digit c && leb next u64_max then rest else none

-- `str::parse::<u64>`: an optional `+`, then one or more digits.
unfoldable pub parse_u64 : List ℕ → Option ℕ
unfolding parse_digits is_digit
parse_u64 [] = none
parse_u64 (c ∷ []) = parse_digits 0 (c ∷ [])
parse_u64 (c ∷ d ∷ cs) = if c == 43 then parse_digits 0 (d ∷ cs) else parse_digits 0 (c ∷ d ∷ cs)

parse_digits-digits_from :
    (fuel n : ℕ) (rest : List ℕ)
    → n < fuel
    → n ≤ u64_max
    → parse_digits 0 (digits_from fuel n rest) ≡ parse_digits n rest
unfolding parse_digits digits_from is_digit
parse_digits-digits_from zero n rest h fits = absurd (omega arith)
parse_digits-digits_from (suc fuel) n rest h fits =
    ground (arith, parse_digits-digits_from fuel (n / 10) ((48 + n % 10) ∷ rest))

-- The first byte of a printed number is a digit, so it is no `+`.
digits_from-cons :
    (fuel n : ℕ) (rest : List ℕ)
    → n < fuel
    → (c : ℕ) × (cs : List ℕ) × (digits_from fuel n rest ≡ c ∷ cs) × (48 ≤ c)
unfolding digits_from
digits_from-cons zero n rest h = absurd (omega arith)
digits_from-cons (suc fuel) n rest h = elim (Bool-cases (ltb n 10)) [
  | inl e ↦ rw e (48 + n, rest, refl, omega arith)
  | inr e ↦ rw e (digits_from-cons fuel (n / 10) ((48 + n % 10) ∷ rest) (ground arith))
]

parse_u64-digits : (c : ℕ) (cs : List ℕ) → 48 ≤ c → parse_u64 (c ∷ cs) ≡ parse_digits 0 (c ∷ cs)
unfolding parse_u64
parse_u64-digits c [] h = refl
parse_u64-digits c (d ∷ cs) h = ground arith

printed_digits : (n : ℕ) → n ≤ u64_max → parse_digits 0 (print_decimal n) ≡ some n
unfolding print_decimal parse_digits
printed_digits n fits = parse_digits-digits_from (suc n) n [] (omega arith) fits

pub parse_u64-print_decimal : (n : ℕ) → n ≤ u64_max → parse_u64 (print_decimal n) ≡ some n
unfolding print_decimal
parse_u64-print_decimal n fits =
    let (c, cs, e, h) = digits_from-cons (suc n) n [] (omega arith) in
    rw e (parse_u64-digits c cs h ∙ rw (← e) (printed_digits n fits))

digits_from-ge :
    (fuel n : ℕ) (rest : List ℕ)
    → All (λ c. 48 ≤ c) rest
    → All (λ c. 48 ≤ c) (digits_from fuel n rest)
unfolding digits_from
digits_from-ge zero n rest h = h
digits_from-ge (suc fuel) n rest h = elim (Bool-cases (ltb n 10)) [
  | inl e ↦ rw e (omega arith, h)
  | inr e ↦ rw e (digits_from-ge fuel (n / 10) ((48 + n % 10) ∷ rest) (omega arith, h))
]

-- No byte of a printed number is below the digits.
pub print_decimal-ge : (n : ℕ) → All (λ c. 48 ≤ c) (print_decimal n)
unfolding print_decimal
print_decimal-ge n = digits_from-ge (suc n) n [] tt
