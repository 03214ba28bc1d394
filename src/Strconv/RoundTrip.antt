-- ===== src/Strconv/RoundTrip.antt =====
-- Reading back a printed number.
use radius_go.Base.{ℕ, zero, suc, ◌+◌, ◌/◌, ◌%◌, ◌^◌, ◌<◌, ◌≤◌, length, ◌≡◌, some, [], ◌∷◌, arith}
use radius_go.Base.Int.{ℤ, pos, negsuc, IsInt64}
use radius_go.Base.Text.{Str}
use radius_go.Strconv.{digits_loop, format_nat, format_int, parse_digits, atoi}

-- Reading the digits of n before a rest goes on with n.
parse-digits_loop :
    (fuel n : ℕ) (acc : Str)
    → n < fuel
    → parse_digits 0 (digits_loop fuel n acc) ≡ parse_digits n acc
unfolding parse_digits digits_loop
parse-digits_loop zero n acc h = absurd (omega arith)
parse-digits_loop (suc fuel) n acc h =
    ground (arith, parse-digits_loop fuel (n / 10) ((b'0' + n % 10) ∷ acc))

length-digits_loop : (fuel n : ℕ) (acc : Str) → length acc ≤ length (digits_loop fuel n acc)
unfolding digits_loop
length-digits_loop zero n acc = omega arith
length-digits_loop (suc fuel) n acc =
    ground (arith, length-digits_loop fuel (n / 10) ((b'0' + n % 10) ∷ acc))

length-format_nat : (n : ℕ) → 0 < length (format_nat n)
unfolding format_nat
length-format_nat n = ground (arith, length-digits_loop n (n / 10) ((b'0' + n % 10) ∷ []))

parse-format_nat : (n : ℕ) → parse_digits 0 (format_nat n) ≡ some n
unfolding format_nat parse_digits
parse-format_nat n = parse-digits_loop (suc n) n [] (omega arith)

-- A text that reads as a natural number has no sign.
atoi_unsigned :
    (s : Str) (n : ℕ)
    → 0 < length s
    → parse_digits 0 s ≡ some n
    → n < 2 ^ 63
    → atoi s ≡ some (pos n)
unfolding atoi
atoi_unsigned [] n h e b = absurd (omega arith)
atoi_unsigned (c ∷ s) n h e b = ground arith

atoi_negated :
    (s : Str) (n : ℕ)
    → 0 < length s
    → parse_digits 0 s ≡ some (suc n)
    → n < 2 ^ 63
    → atoi (b'-' ∷ s) ≡ some (negsuc n)
unfolding atoi
atoi_negated [] n h e b = absurd (omega arith)
atoi_negated (c ∷ s) n h e b = ground arith

-- Atoi reads back every 64-bit number that `%d` printed.
pub atoi-format_int : (z : ℤ) → IsInt64 z → atoi (format_int z) ≡ some z
unfolding format_int
atoi-format_int (pos n) h =
    atoi_unsigned (format_nat n) n (length-format_nat n) (parse-format_nat n) h.0
atoi-format_int (negsuc n) h =
    atoi_negated (format_nat (suc n)) n (length-format_nat (suc n)) (parse-format_nat (suc n))
      (omega arith)
