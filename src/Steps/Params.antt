-- ===== src/Steps/Params.antt =====
-- internal/steps/params.go: the arguments of a step, as they come out of JSON.
use rootmote_agent.Prelude.{
  ℕ, ◌+◌, ◌*◌, ◌-◌, ◌^◌, Bool, ◌&&◌, Option, none, some, [], ◌∷◌, Text, ltb, leb, eqb, text_eq,
  if◌then◌else◌,
}
use rootmote_agent.Prelude.Int.{ℤ, pos, negsuc}
use rootmote_agent.Prelude.Maps.{Map, lookup}

-- The dynamic types that `Int` and `String` tell apart. `real` is a float64 with a fraction.
pub data Value : Type 0 where
  int : ℤ → Value
  uint64 : ℕ → Value
  whole : ℤ → Value
  real : Value
  number : Text → Value
  text : Text → Value
  otherwise : Value

abbrev pub Params : Type 0
Params = Map Text Value

abbrev text_of : Option Value → Text
text_of (some (text s)) = s
text_of _ = []

unfoldable pub string_param : Params → Text → Text
string_param p name = text_of (lookup name p)

-- The decimal digits of a text, or `none` at any other character.
unfoldable pub digits : ℕ → Text → Option ℕ
digits n [] = some n
digits n (c ∷ s) =
    let rest = digits (n * 10 + (c - b'0')) s in if leb b'0' c && leb c b'9' then rest else none

-- Numbers are within an int64.
abbrev positive : Option ℕ → Option ℤ
positive none = none
positive (some n) = if ltb n (2 ^ 63) then some (pos n) else none

abbrev negative : Option ℕ → Option ℤ
negative none = none
negative (some n) =
    if eqb n 0 then some (pos 0) else (if leb n (2 ^ 63) then some (negsuc (n - 1)) else none)

abbrev unsigned : Text → Option ℕ
unsigned [] = none
unsigned (c ∷ s) = digits 0 (c ∷ s)

-- `strconv.ParseInt(s, 10, 64)`: an optional sign and digits.
unfoldable pub parse_int : Text → Option ℤ
unfolding digits
parse_int [] = none
parse_int (c ∷ s) =
    if eqb c b'-'
    then negative (unsigned s)
    else (if eqb c b'+' then positive (unsigned s) else positive (unsigned (c ∷ s)))

-- The whole float64s that are taken: up to 2^53 in size.
abbrev fits_double : ℤ → Bool
fits_double (pos n) = leb n (2 ^ 53)
fits_double (negsuc n) = leb (n + 1) (2 ^ 53)

abbrev pub int_of : Option Value → Option ℤ
int_of (some (int v)) = some v
int_of (some (uint64 n)) = if ltb n (2 ^ 63) then some (pos n) else none
int_of (some (whole v)) = if fits_double v then some v else none
int_of (some (number s)) = parse_int s
int_of (some (text s)) = parse_int s
int_of _ = none

unfoldable pub int_param : Params → Text → Option ℤ
unfolding parse_int
int_param p name = int_of (lookup name p)
