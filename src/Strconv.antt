-- ===== src/Strconv.antt =====
-- What the code uses of decimal numbers: `%d` of fmt, and strconv.Atoi.
pub mod RoundTrip
use radius_go.Base.{
  ℕ, zero, suc, ◌+◌, ◌-◌, ◌*◌, ◌/◌, ◌%◌, ◌^◌, ◌≡◌, refl, Bool, ◌&&◌, Option, none, some, List, [],
  ◌∷◌, ◌==◌, ltb, leb, if◌then◌else◌,
}
use radius_go.Base.Int.{ℤ, pos, negsuc}
use radius_go.Base.Text.{Str, codes}

-- The digits of n before `acc`. A round divides by ten, so n + 1 rounds are enough.
digits_loop : ℕ → ℕ → Str → Str
digits_loop zero n acc = acc
digits_loop (suc fuel) n acc =
    let acc' : Str = (b'0' + n % 10) ∷ acc in
    let more = digits_loop fuel (n / 10) acc' in if n / 10 == 0 then acc' else more

unfoldable pub format_nat : ℕ → Str
unfolding digits_loop
format_nat n = digits_loop (suc n) n []

-- `fmt.Sprintf("%d", z)`
unfoldable pub format_int : ℤ → Str
unfolding format_nat
format_int (pos n) = format_nat n
format_int (negsuc n) = b'-' ∷ format_nat (suc n)

unfoldable pub parse_digits : ℕ → Str → Option ℕ
parse_digits acc [] = some acc
parse_digits acc (c ∷ s) =
    let rest = parse_digits (acc * 10 + (c - b'0')) s in
    if leb b'0' c && leb c b'9' then rest else none

-- At least one digit.
abbrev pub parse_nat : Str → Option ℕ
parse_nat [] = none
parse_nat (c ∷ s) = parse_digits 0 (c ∷ s)

abbrev positive : Option ℕ → Option ℤ
positive none = none
positive (some n) = if ltb n (2 ^ 63) then some (pos n) else none

abbrev negative : Option ℕ → Option ℤ
negative none = none
negative (some zero) = some (pos 0)
negative (some (suc n)) = if ltb n (2 ^ 63) then some (negsuc n) else none

-- strconv.Atoi: an optional sign, digits, and the range of int64. An error is `none`.
unfoldable pub atoi : Str → Option ℤ
unfolding parse_digits
atoi [] = none
atoi (c ∷ s) =
    if c == b'-'
    then negative (parse_nat s)
    else if c == b'+'
    then positive (parse_nat s)
    else positive (parse_nat (c ∷ s))

format_example : format_int (negsuc 1023) ≡ codes "-1024"
unfolding format_int
format_example = refl

atoi_example : atoi (codes "-1024") ≡ some (negsuc 1023)
unfolding atoi
atoi_example = refl

atoi_overflow : atoi (codes "9223372036854775808") ≡ none
unfolding atoi
atoi_overflow = refl
