-- ===== src/Net/Ip.antt =====
-- net.ParseIP, which is netip.ParseAddr with no zone, and net.IP.To4. An address is its 16 bytes.
use radius_go.Base.{
  ℕ, zero, suc, ◌+◌, ◌-◌, ◌*◌, ◌/◌, ◌%◌, ◌≡◌, refl, Bool, false, ◌||◌, ◌&&◌, not, Option, none,
  some, List, [], ◌∷◌, ◌++◌, ◌==◌, ltb, leb, if◌then◌else◌, length, take, drop,
}
use radius_go.Base.Text.{Str, codes, str_eq}

abbrev is_digit : ℕ → Bool
is_digit c = leb b'0' c && leb c b'9'

-- parseIPv4Fields: the fields so far, the value and the number of digits of the current one.
ipv4_fields : Str → List ℕ → ℕ → ℕ → Option (List ℕ)
ipv4_fields [] fields val digits =
    if (length fields == 3) && not (digits == 0) then some (fields ++ (val ∷ [])) else none
ipv4_fields (c ∷ s) fields val digits =
    let value = val * 10 + (c - b'0') in
    let digit = ipv4_fields s fields value (digits + 1) in
    let dot = ipv4_fields s (fields ++ (val ∷ [])) 0 0 in
    if is_digit c
    then (if ((digits == 1) && (val == 0)) || ltb 255 value then none else digit)
    else if c == b'.'
    then (if (digits == 0) || (length fields == 3) then none else dot)
    else none

parse_ipv4 : Str → Option Str
unfolding ipv4_fields
parse_ipv4 s = ipv4_fields s [] 0 0

abbrev hex_value : ℕ → Option ℕ
hex_value c =
    if is_digit c
    then some (c - b'0')
    else if leb b'a' c && leb c b'f'
    then some (c - b'a' + 10)
    else if leb b'A' c && leb c b'F'
    then some (c - b'A' + 10)
    else none

-- A run of hex digits: its value, its length and what follows. More than four fail.
hex_run : Str → ℕ → ℕ → Option (ℕ × ℕ × Str)
hex_run [] acc off = some (acc, off, [])
hex_run (c ∷ s) acc off = elim (hex_value c) [
  | none ↦ some (acc, off, c ∷ s)
  | some d ↦ if ltb 3 off then none else hex_run s (acc * 16 + d) (off + 1)
]

zeros : ℕ → Str
zeros zero = []
zeros (suc n) = 0 ∷ zeros n

-- The end of parseIPv6: `seen` is what was parsed, `before` what stood before `::`.
ipv6_finish : Str → Option Str → Option Str
unfolding zeros
ipv6_finish seen none = if length seen == 16 then some seen else none
ipv6_finish seen (some before) =
    if ltb (length before + length seen) 16
    then some (before ++ zeros (16 - (length before + length seen)) ++ seen)
    else none

abbrev before_length : Option Str → ℕ
before_length none = 0
before_length (some before) = length before

-- A rest that starts with a dot: the group began an embedded IPv4 address.
abbrev starts_with_dot : Str → Bool
starts_with_dot [] = false
starts_with_dot (c ∷ s) = c == b'.'

ipv6_embedded : Str → Str → Option Str → Option Str
unfolding parse_ipv4 ipv6_finish
ipv6_embedded s seen before =
    let at = before_length before + length seen in
    if ltb 12 at then none else elim before [
      | none ↦
          if at == 12
          then elim (parse_ipv4 s) [ none ↦ none | some v4 ↦ ipv6_finish (seen ++ v4) none ]
          else none
      | some b ↦ elim (parse_ipv4 s) [ none ↦ none | some v4 ↦ ipv6_finish (seen ++ v4) (some b) ]
    ]

-- The loop of parseIPv6, one group of 16 bits a round; eight rounds are all that it makes.
ipv6_groups : ℕ → Str → Str → Option Str → Option Str
unfolding hex_run ipv6_finish ipv6_embedded
ipv6_groups zero s seen before = none
ipv6_groups (suc rounds) s seen before = elim (hex_run s 0 0) [
  | none ↦ none
  | some (acc, zero, rest) ↦ none
  | some (acc, suc off, rest) ↦
      let seen' : Str = seen ++ (acc / 256 ∷ acc % 256 ∷ []) in
      if starts_with_dot rest then ipv6_embedded s seen before else elim rest [
        | [] ↦ ipv6_finish seen' before
        | _ ∷ [] ↦ none
        | c ∷ d ∷ more ↦
            if not (c == b':')
            then none
            else if d == b':'
            then (elim before [
              | some b ↦ none
              | none ↦ elim more [
                | [] ↦ ipv6_finish [] (some seen')
                | x ∷ xs ↦ ipv6_groups rounds (x ∷ xs) [] (some seen')
              ]
            ])
            else ipv6_groups rounds (d ∷ more) seen' before
      ]
]

parse_ipv6 : Str → Option Str
unfolding ipv6_groups
parse_ipv6 (c ∷ d ∷ []) =
    if (c == b':') && (d == b':')
    then ipv6_finish [] (some [])
    else ipv6_groups 8 (c ∷ d ∷ []) [] none
parse_ipv6 (c ∷ d ∷ e ∷ s) =
    if (c == b':') && (d == b':')
    then ipv6_groups 8 (e ∷ s) [] (some [])
    else ipv6_groups 8 (c ∷ d ∷ e ∷ s) [] none
parse_ipv6 s = ipv6_groups 8 s [] none

-- The prefix of an IPv4 address in its 16 bytes.
abbrev mapped_prefix : Str
mapped_prefix = 0 ∷ 0 ∷ 0 ∷ 0 ∷ 0 ∷ 0 ∷ 0 ∷ 0 ∷ 0 ∷ 0 ∷ 255 ∷ 255 ∷ []

-- netip.ParseAddr goes by the first of the bytes `.`, `:` and `%`.
parse_addr : Str → Str → Option Str
unfolding parse_ipv4 parse_ipv6
parse_addr whole [] = none
parse_addr whole (c ∷ s) =
    let next = parse_addr whole s in
    if c == b'.'
    then elim (parse_ipv4 whole) [ none ↦ none | some v4 ↦ some (mapped_prefix ++ v4) ]
    else if c == b':'
    then parse_ipv6 whole
    else if c == b'%'
    then none
    else next

unfoldable pub parse_ip : Str → Option Str
unfolding parse_addr
parse_ip s = parse_addr s s

unfoldable pub to4 : Str → Option Str
to4 (a ∷ b ∷ c ∷ d ∷ []) = some (a ∷ b ∷ c ∷ d ∷ [])
to4 ip = if (length ip == 16) && str_eq (take 12 ip) mapped_prefix then some (drop 12 ip) else none

parse_ipv4_text : parse_ip (codes "10.0.0.7") ≡ some (mapped_prefix ++ (10 ∷ 0 ∷ 0 ∷ 7 ∷ []))
unfolding parse_ip
parse_ipv4_text = refl

parse_leading_zero : parse_ip (codes "10.0.0.07") ≡ none
unfolding parse_ip
parse_leading_zero = refl

parse_loopback : parse_ip (codes "::1") ≡ some (zeros 15 ++ (1 ∷ []))
unfolding parse_ip
parse_loopback = refl

parse_embedded : parse_ip (codes "::ffff:1.2.3.4") ≡ some (mapped_prefix ++ (1 ∷ 2 ∷ 3 ∷ 4 ∷ []))
unfolding parse_ip
parse_embedded = refl

parse_full :
    parse_ip (codes "1:2:3:4:5:6:7::")
    ≡ some (0 ∷ 1 ∷ 0 ∷ 2 ∷ 0 ∷ 3 ∷ 0 ∷ 4 ∷ 0 ∷ 5 ∷ 0 ∷ 6 ∷ 0 ∷ 7 ∷ 0 ∷ 0 ∷ [])
unfolding parse_ip
parse_full = refl

parse_too_long : parse_ip (codes "1:2:3:4:5:6:7:8:9") ≡ none
unfolding parse_ip
parse_too_long = refl

parse_double : parse_ip (codes "1::2::3") ≡ none
unfolding parse_ip
parse_double = refl

to4_text : to4 (mapped_prefix ++ (10 ∷ 0 ∷ 0 ∷ 7 ∷ [])) ≡ some (10 ∷ 0 ∷ 0 ∷ 7 ∷ [])
unfolding to4 str_eq
to4_text = refl
