-- ===== src/Steps/PrivArgs/Decimal.antt =====
-- The digits that internal/steps/privargs.go writes for a number are read back as the number.
use rootmote_agent.Prelude.{
  ℕ, zero, suc, ◌+◌, ◌-◌, ◌*◌, ◌/◌, ◌%◌, ◌^◌, ◌<◌, ◌≤◌, ◌≡◌, refl, ap, ◌∙◌, Bool, true, false, some,
  [], ◌∷◌, Text, length, leb, ltb, if◌then◌else◌, arith,
}
use rootmote_agent.Steps.Params.{digits}
use rootmote_agent.Steps.Validate.{every, is_digit, number_of}
use rootmote_agent.Steps.PrivArgs.{decimal_digits, decimal}

abbrev pow10 : ℕ → ℕ
pow10 zero = 1
pow10 (suc f) = 10 * pow10 f

digits-cons :
    (acc d : ℕ) (rest : Text) → d < 10 → digits acc ((b'0' + d) ∷ rest) ≡ digits (acc * 10 + d) rest
unfolding digits
digits-cons acc d rest h =
    let value : 48 + d - 48 ≡ d = omega arith in
    let low : leb b'0' (b'0' + d) ≡ true = ground arith in
    let high : leb (b'0' + d) b'9' ≡ true = ground (arith, h) in rw low (rw high (rw value refl))

tenth : (n f : ℕ) → n < 10 * f → n / 10 < f
tenth n f h = omega (arith, h)

parts : (n : ℕ) → n / 10 * 10 + n % 10 ≡ n
parts n = omega arith

below_ten : (n : ℕ) → n % 10 < 10
below_ten n = omega arith

digits-decimal_digits :
    (fuel n : ℕ) (rest : Text)
    → n < pow10 fuel
    → 0 < fuel
    → digits 0 (decimal_digits fuel n rest) ≡ digits n rest
unfolding decimal_digits
digits-decimal_digits zero n rest h p = absurd (omega (arith, p))
digits-decimal_digits (suc fuel) n rest h p =
    by_test (ltb n 10) refl
      (digits-decimal_digits fuel (n / 10) ((b'0' + n % 10) ∷ rest) (tenth n (pow10 fuel) h))
  where
    by_test :
        (t : Bool)
        → ltb n 10 ≡ t
        → (0 < fuel
            → digits 0 (decimal_digits fuel (n / 10) ((b'0' + n % 10) ∷ rest))
              ≡ digits (n / 10) ((b'0' + n % 10) ∷ rest))
        → digits 0
            (if t then (b'0' + n) ∷ rest else decimal_digits fuel (n / 10) ((b'0' + n % 10) ∷ rest))
          ≡ digits n rest
    by_test true e ih =
        let value : 0 * 10 + n ≡ n = omega arith in
        digits-cons 0 n rest (ground (arith, e)) ∙ ap (λ x. digits x rest) value
    by_test false e ih =
        ih (more fuel h (ground (arith, e)))
        ∙ digits-cons (n / 10) (n % 10) rest (below_ten n)
        ∙ ap (λ x. digits x rest) (parts n)
      where
        more : (f : ℕ) → n < pow10 (suc f) → 10 ≤ n → 0 < f
        more zero l g = absurd (omega (arith, l, g))
        more (suc f) l g = omega arith

-- Every character is a digit.
IsDigits : Text → Type 0
IsDigits s = every is_digit s ≡ true

nil-IsDigits : IsDigits []
unfolding IsDigits
nil-IsDigits = refl

cons-IsDigits : (d : ℕ) (rest : Text) → d < 10 → IsDigits rest → IsDigits ((b'0' + d) ∷ rest)
unfolding IsDigits
cons-IsDigits d rest h r = ground (arith, h, r)

decimal_digits-IsDigits :
    (fuel n : ℕ) (rest : Text)
    → IsDigits rest
    → n < pow10 fuel
    → IsDigits (decimal_digits fuel n rest)
unfolding decimal_digits
decimal_digits-IsDigits zero n rest d h = d
decimal_digits-IsDigits (suc fuel) n rest d h = by_test (ltb n 10) refl (
    decimal_digits-IsDigits fuel (n / 10) ((b'0' + n % 10) ∷ rest)
      (cons-IsDigits (n % 10) rest (below_ten n) d) (tenth n (pow10 fuel) h))
  where
    by_test :
        (t : Bool)
        → ltb n 10 ≡ t
        → IsDigits (decimal_digits fuel (n / 10) ((b'0' + n % 10) ∷ rest))
        → IsDigits
            (if t then (b'0' + n) ∷ rest else decimal_digits fuel (n / 10) ((b'0' + n % 10) ∷ rest))
    by_test true e ih = cons-IsDigits n rest (ground (arith, e)) d
    by_test false e ih = ih

-- From one character more than `rest` to `fuel` characters more.
length-decimal_digits :
    (fuel n : ℕ) (rest : Text)
    → (length rest ≤ length (decimal_digits fuel n rest))
      × (length (decimal_digits fuel n rest) ≤ fuel + length rest)
unfolding decimal_digits
length-decimal_digits zero n rest = (omega arith, omega arith)
length-decimal_digits (suc fuel) n rest =
    by_test (ltb n 10) (length-decimal_digits fuel (n / 10) ((b'0' + n % 10) ∷ rest))
  where
    Sized : Text → Type 0
    Sized s = (length rest < length s) × (length s ≤ suc fuel + length rest)

    by_test :
        (t : Bool)
        → (suc (length rest) ≤ length (decimal_digits fuel (n / 10) ((b'0' + n % 10) ∷ rest)))
          × (length (decimal_digits fuel (n / 10) ((b'0' + n % 10) ∷ rest))
              ≤ fuel + suc (length rest))
        → (length rest
            ≤ length (
                if t
                then (b'0' + n) ∷ rest
                else decimal_digits fuel (n / 10) ((b'0' + n % 10) ∷ rest)))
          × (length (
                if t
                then (b'0' + n) ∷ rest
                else decimal_digits fuel (n / 10) ((b'0' + n % 10) ∷ rest))
              ≤ suc fuel + length rest)
    by_test true ih = (omega arith, omega arith)
    by_test false (lo, hi) = (omega (arith, lo), omega (arith, hi))

decimal_lem : (n : ℕ) → decimal n ≡ decimal_digits 20 n []
unfolding decimal
decimal_lem n = refl

number_of-digits :
    (s : Text) (n : ℕ)
    → IsDigits s
    → 0 < length s
    → length s ≤ 20
    → digits 0 s ≡ some n
    → number_of s ≡ some n
unfolding IsDigits
number_of-digits [] n d lo hi h = absurd (omega (arith, lo))
number_of-digits (c ∷ s) n d lo hi h =
    let short : leb (length (c ∷ s)) 20 ≡ true = ground (arith, hi) in rw short (rw d h)

decimal_digits_longer :
    (fuel n : ℕ) (rest : Text) → length rest < length (decimal_digits (suc fuel) n rest)
unfolding decimal_digits
decimal_digits_longer fuel n rest =
    by_test (ltb n 10) (length-decimal_digits fuel (n / 10) ((b'0' + n % 10) ∷ rest)).0
  where
    by_test :
        (t : Bool)
        → suc (length rest) ≤ length (decimal_digits fuel (n / 10) ((b'0' + n % 10) ∷ rest))
        → length rest
          < length (
              if t
              then (b'0' + n) ∷ rest
              else decimal_digits fuel (n / 10) ((b'0' + n % 10) ∷ rest))
    by_test true lo = omega arith
    by_test false lo = omega (arith, lo)

pub number_of-decimal : (n : ℕ) → n < 2 ^ 64 → number_of (decimal n) ≡ some n
unfolding digits
number_of-decimal n h =
    let low : n < pow10 20 = omega (arith, h) in
    ap number_of (decimal_lem n)
    ∙ number_of-digits (decimal_digits 20 n []) n (decimal_digits-IsDigits 20 n [] nil-IsDigits low)
        (decimal_digits_longer 19 n []) (length-decimal_digits 20 n []).1
        (digits-decimal_digits 20 n [] low (omega arith))
