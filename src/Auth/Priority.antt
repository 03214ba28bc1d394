-- ===== src/Auth/Priority.antt =====
-- Which setting wins, stated apart from the code: the first of a list of candidates.
use radius_go.Base.{ℕ, ◌*◌, ◌^◌, ◌≡◌, Option, none, some, List, [], ◌∷◌, ltb, if◌then◌else◌, arith}
use Prim.Native.Nat.{min}
use radius_go.Base.Int.{ℤ, pos, ltb_ℤ, u32, pos_part, ◌≤ℤ◌}
use radius_go.Base.Text.{Str, is_empty}
use radius_go.Domain.Pppoe.{PppoeProfile}
use radius_go.Domain.User.{RadiusUser}
use radius_go.Auth.Effective.{
  format_bandwidth_kbps, format_rate_limit, effective_rate_limit, effective_bandwidth,
  effective_max_total_octets, effective_session_timeout, effective_idle_timeout, max_uint32,
}

abbrev pub first_non_empty : List Str → Str
first_non_empty [] = []
first_non_empty (s ∷ ss) = if is_empty s then first_non_empty ss else s

abbrev pub first_positive : List ℤ → ℤ
first_positive [] = pos 0
first_positive (z ∷ zs) = if ltb_ℤ (pos 0) z then z else first_positive zs

abbrev pub of_profile {ℓ} : {A : Type ℓ} → (PppoeProfile → List A) → Option PppoeProfile → List A
of_profile f none = []
of_profile f (some p) = f p

-- The rate limit of a reply is the first non-empty of: the user's text, the user's speeds, the
-- profile's text and the profile's bandwidth.
pub effective_rate_limit_lem :
    (u : RadiusUser)
    → effective_rate_limit u
      ≡ first_non_empty (
          u.rate_limit
          ∷ format_rate_limit u
          ∷ of_profile
              (λ p.
                p.rate_limit ∷ format_bandwidth_kbps p.bandwidth_max_up p.bandwidth_max_down ∷ [])
              u.pppoe_profile)
unfolding effective_rate_limit
effective_rate_limit_lem u = ground arith

-- Both timeouts of a reply are the first positive of the user's and the profile's, and else zero.
pub effective_timeouts :
    (u : RadiusUser)
    → (effective_session_timeout u
        ≡ first_positive
            (u.session_timeout ∷ of_profile (λ p. p.session_timeout ∷ []) u.pppoe_profile))
      × (effective_idle_timeout u
          ≡ first_positive (u.idle_timeout ∷ of_profile (λ p. p.idle_timeout ∷ []) u.pppoe_profile))
unfolding effective_session_timeout effective_idle_timeout
effective_timeouts u = (ground arith, ground arith)

-- The octet limit of a reply is the user's if that is positive, and else the profile's, cut off at
-- the largest 32-bit number; a negative limit of the profile counts as none.
pub effective_max_total_octets_lem :
    (u : RadiusUser)
    → effective_max_total_octets u ≡ (
        if ltb 0 u.max_total_octets then u.max_total_octets else elim u.pppoe_profile [
          | none ↦ 0
          | some p ↦ min (pos_part p.max_total_octets) max_uint32
        ])
unfolding effective_max_total_octets u32
effective_max_total_octets_lem u = ground arith

-- Each direction of the bandwidth is the user's if that is not zero, and else the profile's, where
-- the profile's is a 32-bit number; without a positive one of the profile it stays zero.
pub effective_bandwidth_lem :
    (u : RadiusUser) (p : PppoeProfile)
    → u.pppoe_profile ≡ some p
    → p.bandwidth_max_up ≤ℤ pos max_uint32
    → p.bandwidth_max_down ≤ℤ pos max_uint32
    → effective_bandwidth u ≡ (
      if ltb 0 u.bandwidth_max_up then u.bandwidth_max_up else pos_part p.bandwidth_max_up,
      if ltb 0 u.bandwidth_max_down then u.bandwidth_max_down else pos_part p.bandwidth_max_down,
    )
unfolding effective_bandwidth u32
effective_bandwidth_lem u p e h k = ground arith

-- The conversion to 32 bits is not guarded: whatever multiple of 2^32 a profile names as upload
-- bandwidth, a user without one of his own gets zero, which the reply takes for no limit.
pub effective_bandwidth_wraps :
    (u : RadiusUser) (p : PppoeProfile) (k : ℕ)
    → u.pppoe_profile ≡ some p
    → u.bandwidth_max_up ≡ 0
    → p.bandwidth_max_up ≡ pos (k * 2 ^ 32)
    → (effective_bandwidth u).0 ≡ 0
unfolding effective_bandwidth u32
effective_bandwidth_wraps u p k e h e' = ground arith
