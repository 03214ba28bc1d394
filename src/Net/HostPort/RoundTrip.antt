-- ===== src/Net/HostPort/RoundTrip.antt =====
-- net.JoinHostPort and net.SplitHostPort undo each other.
use radius_go.Base.{
  ℕ, ◌≡◌, refl, ◌∙◌, false, ◌||◌, none, some, [], ◌∷◌, ◌++◌, arith, Bool-cases, inl, inr,
}
use radius_go.Base.Text.{Str}
use radius_go.Net.HostPort.{
  contains, split_first, split_last, split_bracketed, split_plain, split_host_port, join_host_port,
  host_of,
}

-- No bracket in a host, and no bracket and no colon in a port.
pub record IsHost (host : Str) : Type 0 where
  pub no_open : contains b'[' host ≡ false
  pub no_close : contains b']' host ≡ false

pub record IsPort (port : Str) : Type 0 where
  pub no_colon : contains b':' port ≡ false
  pub no_open : contains b'[' port ≡ false
  pub no_close : contains b']' port ≡ false

contains-append : (c : ℕ) (a b : Str) → contains c (a ++ b) ≡ (contains c a || contains c b)
unfolding contains
contains-append c [] b = refl
contains-append c (x ∷ a) b = ground (arith, contains-append c a b)

split_first-append :
    (c : ℕ) (a b : Str) → contains c a ≡ false → split_first c (a ++ (c ∷ b)) ≡ some (a, b)
unfolding contains split_first
split_first-append c [] b h = ground arith
split_first-append c (x ∷ a) b h = ground (arith, split_first-append c a b)

split_last-none : (c : ℕ) (a : Str) → contains c a ≡ false → split_last c a ≡ none
unfolding contains split_last
split_last-none c [] h = refl
split_last-none c (x ∷ a) h = ground (arith, split_last-none c a)

split_last-append :
    (c : ℕ) (a b : Str) → contains c b ≡ false → split_last c (a ++ (c ∷ b)) ≡ some (a, b)
unfolding split_last
split_last-append c [] b h = ground (arith, split_last-none c b h)
split_last-append c (x ∷ a) b h = ground (arith, split_last-append c a b h)

split_bracketed-append :
    (host port : Str)
    → IsHost host
    → IsPort port
    → split_bracketed (host ++ (b']' ∷ b':' ∷ port)) ≡ some (host, port)
unfolding split_bracketed contains
split_bracketed-append host port h p = ground (
  arith,
  h.no_open,
  p.no_colon,
  p.no_open,
  p.no_close,
  split_first-append b']' host (b':' ∷ port) h.no_close,
  contains-append b'[' host (b']' ∷ b':' ∷ port),
)

split_plain-append :
    (host port : Str)
    → contains b':' host ≡ false
    → IsHost host
    → IsPort port
    → split_plain (host ++ (b':' ∷ port)) ≡ some (host, port)
unfolding split_plain contains
split_plain-append host port v4 h p = ground (
  arith,
  v4,
  h.no_open,
  h.no_close,
  p.no_open,
  p.no_close,
  split_last-append b':' host port p.no_colon,
  contains-append b'[' host (b':' ∷ port),
  contains-append b']' host (b':' ∷ port),
)

-- The plain form does not start with a bracket.
split_host_port-plain :
    (host port : Str)
    → contains b'[' host ≡ false
    → split_host_port (host ++ (b':' ∷ port)) ≡ split_plain (host ++ (b':' ∷ port))
unfolding split_host_port contains
split_host_port-plain [] port h = refl
split_host_port-plain (x ∷ host) port h = ground (arith, h)

-- A host, of version 4 or 6 or a name, and a port come back from the string that they make, where
-- the host has no bracket and the port no bracket and no colon.
pub split_host_port-join_host_port :
    (host port : Str)
    → IsHost host
    → IsPort port
    → split_host_port (join_host_port host port) ≡ some (host, port)
unfolding split_host_port join_host_port
split_host_port-join_host_port host port h p = elim (Bool-cases (contains b':' host)) [
  | inl v6 ↦ rw (v6, join_host_port, split_host_port) (split_bracketed-append host port h p)
  | inr v4 ↦
      rw (v4, join_host_port)
        (split_host_port-plain host port h.no_open ∙ split_plain-append host port v4 h p)
]

pub host_of-join_host_port :
    (host port : Str) → IsHost host → IsPort port → host_of (join_host_port host port) ≡ host
unfolding host_of
host_of-join_host_port host port h p =
    rw (split_host_port-join_host_port host port h p, host_of) refl
