-- ===== src/Accounting/Totals.antt =====
-- The counters of a request, and their growth.
use radius_go.Base.{ℕ, ◌+◌, ◌-◌, ◌*◌, ◌^◌, ◌≤◌, ◌<◌, ◌≡◌, Option, none, some, or_else, arith}
use Prim.Native.Nat.{min}
use radius_go.Base.Int.{pos, add64, sub64}
use radius_go.Accounting.{total_octets, delta, max_int64}

-- The value of a 32-bit attribute, zero where it is missing.
abbrev pub Fits32 : Option ℕ → Type 0
Fits32 o = or_else o 0 < 2 ^ 32

-- Gigawords and octets make one 64-bit number, cut off at the largest int64: nothing of the two
-- counters is lost below that, and nothing wraps to a negative total.
pub total_octets_lem :
    (octets gigawords : Option ℕ)
    → Fits32 octets
    → Fits32 gigawords
    → total_octets octets gigawords
      ≡ pos (min (or_else gigawords 0 * 2 ^ 32 + or_else octets 0) max_int64)
unfolding total_octets
total_octets_lem octets none h k = ground arith
total_octets_lem octets (some high) h k = ground arith

-- The growth of a counter that did not go back is the difference.
pub delta_grown :
    (now before : ℕ)
    → before ≤ now
    → now < 2 ^ 63
    → delta (pos now) (pos before) ≡ pos (now - before)
unfolding delta sub64
delta_grown now before h k = ground arith

-- A counter that went back is taken to have started again.
pub delta_restarted :
    (now before : ℕ) → now < before → before < 2 ^ 63 → delta (pos now) (pos before) ≡ pos now
unfolding delta sub64
delta_restarted now before h k = ground arith

pub add64_pos : (a b : ℕ) → a + b < 2 ^ 63 → add64 (pos a) (pos b) ≡ pos (a + b)
unfolding add64
add64_pos a b h = ground arith
