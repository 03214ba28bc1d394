-- ===== src/Net/HostPort.antt =====
-- net.SplitHostPort and net.JoinHostPort. An error is `none`.
pub mod RoundTrip
use radius_go.Base.{
  ℕ, ◌≡◌, refl, Bool, true, false, ◌||◌, Option, none, some, List, [], ◌∷◌, ◌++◌, ◌==◌,
  if◌then◌else◌, arith, not, ◌&&◌,
}
use radius_go.Base.Text.{Str, codes}

-- `strings.IndexByte(s, c) >= 0`
unfoldable pub contains : ℕ → Str → Bool
contains c [] = false
contains c (x ∷ s) = (x == c) || contains c s

abbrev pub consed : ℕ → Option (Str × Str) → Option (Str × Str)
consed x none = none
consed x (some (a, b)) = some (x ∷ a, b)

-- What stands before and behind the first byte `c`.
unfoldable pub split_first : ℕ → Str → Option (Str × Str)
split_first c [] = none
split_first c (x ∷ s) =
    let rest = consed x (split_first c s) in if x == c then some ([], s) else rest

-- The same for the last byte `c`.
unfoldable pub split_last : ℕ → Str → Option (Str × Str)
split_last c [] = none
split_last c (x ∷ s) = elim (split_last c s) [
  | some (a, b) ↦ some (x ∷ a, b)
  | none ↦ if x == c then some ([], s) else none
]

-- `[host]:port`, behind the opening bracket: the first `]` stands just before the last colon.
unfoldable pub split_bracketed : Str → Option (Str × Str)
split_bracketed s = elim (split_first b']' s) [
  | none ↦ none
  | some (host, []) ↦ none
  | some (host, c ∷ port) ↦
      if (c == b':')
        && not (contains b':' port)
        && not (contains b'[' s)
        && not (contains b']' port)
      then some (host, port)
      else none
]

unfoldable pub split_plain : Str → Option (Str × Str)
split_plain s = elim (split_last b':' s) [
  | none ↦ none
  | some (host, port) ↦
      if contains b':' host || (contains b'[' s || contains b']' s) then none else some (host, port)
]

unfoldable pub split_host_port : Str → Option (Str × Str)
unfolding split_bracketed split_plain
split_host_port [] = none
split_host_port (c ∷ s) = if c == b'[' then split_bracketed s else split_plain (c ∷ s)

unfoldable pub join_host_port : Str → Str → Str
join_host_port host port =
    if contains b':' host then (b'[' ∷ host) ++ (b']' ∷ b':' ∷ port) else host ++ (b':' ∷ port)

-- `host, _, err := net.SplitHostPort(s); if err != nil { host = s }`
unfoldable pub host_of : Str → Str
host_of s = elim (split_host_port s) [ none ↦ s | some (host, _) ↦ host ]

split_ipv4 : split_host_port (codes "10.0.0.1:3799") ≡ some (codes "10.0.0.1", codes "3799")
unfolding split_host_port split_last contains
split_ipv4 = refl

split_ipv6 : split_host_port (codes "[::1]:3799") ≡ some (codes "::1", codes "3799")
unfolding split_host_port split_first contains
split_ipv6 = refl

split_bare : split_host_port (codes "::1") ≡ none
unfolding split_host_port split_last contains
split_bare = refl
