-- ===== src/Vouchers/Balance.antt =====
-- The balance of a voucher against the tests of handleAuth.
use radius_go.Base.{◌≡◌, Bool, true, ◌&&◌, ◌||◌, some, arith, Bool-cases, inl, inr, ap, ◌∙◌}
use radius_go.Base.Int.{ℤ, pos, ltb_ℤ, leb_ℤ, sub64, ◌≤ℤ◌, IsInt64}
use radius_go.Base.Text.{Str, str_eq}
use radius_go.Domain.User.{RadiusUser}
use radius_go.Domain.Voucher.{VoucherPackage, VoucherBalance, time_limit_usage}
use radius_go.Auth.Decision.{voucher_refused, after}
use radius_go.Vouchers.{get_balance, with_package, not_below_zero, names_package}

-- The limits that were copied to the voucher are still those of the package.
pub record SameLimits (user : RadiusUser) (pkg : VoucherPackage) : Type 0 where
  pub time_type : user.voucher_time_limit_type ≡ pkg.time_limit_type
  pub seconds : user.voucher_time_limit_seconds ≡ pkg.time_limit_seconds
  pub cap : user.voucher_data_cap_bytes ≡ pkg.data_cap_bytes

-- Limits and usage that int64 holds and that are not negative.
pub record Counted (user : RadiusUser) : Type 0 where
  pub seconds : (pos 0 ≤ℤ user.usage_seconds_used) × IsInt64 user.usage_seconds_used
  pub bytes : (pos 0 ≤ℤ user.data_bytes_used) × IsInt64 user.data_bytes_used
  pub time_limit :
      (pos 0 ≤ℤ user.voucher_time_limit_seconds) × IsInt64 user.voucher_time_limit_seconds
  pub data_cap : (pos 0 ≤ℤ user.voucher_data_cap_bytes) × IsInt64 user.voucher_data_cap_bytes

abbrev pub is_zero : ℤ → Bool
is_zero z = leb_ℤ z (pos 0)

-- Whether a balance shows a voucher that is used up.
abbrev pub shows_end : VoucherBalance → Bool
shows_end bal =
    (str_eq bal.time_limit_type time_limit_usage
      && ltb_ℤ (pos 0) bal.time_limit_seconds
      && is_zero bal.usage_seconds_remaining)
    || (ltb_ℤ (pos 0) bal.data_cap_bytes && is_zero bal.data_bytes_remaining)

remaining_zero :
    (limit used : ℤ)
    → (pos 0 ≤ℤ limit) × IsInt64 limit
    → (pos 0 ≤ℤ used) × IsInt64 used
    → is_zero (not_below_zero (sub64 limit used)) ≡ leb_ℤ limit used
unfolding sub64
remaining_zero limit used h k = ground arith

-- The same test on four numbers.
abbrev left_at_end : Str → ℤ → ℤ → ℤ → ℤ → Bool
left_at_end kind seconds used cap bytes =
    (str_eq kind time_limit_usage
      && ltb_ℤ (pos 0) seconds
      && is_zero (not_below_zero (sub64 seconds used)))
    || (ltb_ℤ (pos 0) cap && is_zero (not_below_zero (sub64 cap bytes)))

refused-left :
    (user : RadiusUser) (now : ℤ)
    → Counted user
    → voucher_refused user now ≡ (
        after user.expires_at now
        || left_at_end user.voucher_time_limit_type user.voucher_time_limit_seconds
            user.usage_seconds_used user.voucher_data_cap_bytes user.data_bytes_used)
unfolding voucher_refused
refused-left user now counted = ground (
  arith,
  remaining_zero user.voucher_time_limit_seconds user.usage_seconds_used counted.time_limit
      counted.seconds,
  remaining_zero user.voucher_data_cap_bytes user.data_bytes_used counted.data_cap counted.bytes,
)

shows_end-get_balance :
    (user : RadiusUser) (pkg : VoucherPackage) (bal : VoucherBalance)
    → names_package user.voucher_package_id ≡ true
    → get_balance (some user) (some pkg) ≡ some bal
    → shows_end bal
      ≡ left_at_end pkg.time_limit_type pkg.time_limit_seconds user.usage_seconds_used
          pkg.data_cap_bytes user.data_bytes_used
unfolding get_balance with_package
shows_end-get_balance user pkg bal named e = elim (Bool-cases user.is_voucher) [
  | inr other ↦ absurd (cc (e, other))
  | inl voucher ↦ cc (e, voucher, named)
]

-- The balance of a voucher tells what handleAuth decides, as long as the package has the limits
-- that were copied to the voucher: the voucher is refused exactly if it is expired or its balance
-- shows nothing left under a limit. The voucher names a package, and limits and usage are 64-bit
-- numbers that are not negative.
pub voucher_refused-get_balance :
    (user : RadiusUser) (pkg : VoucherPackage) (bal : VoucherBalance) (now : ℤ)
    → SameLimits user pkg
    → Counted user
    → names_package user.voucher_package_id ≡ true
    → get_balance (some user) (some pkg) ≡ some bal
    → voucher_refused user now ≡ (after user.expires_at now || shows_end bal)
voucher_refused-get_balance user pkg bal now same counted named e =
    refused-left user now counted
    ∙ ap (λ (b : Bool). after user.expires_at now || b)
        (cc (same.time_type, same.seconds, same.cap, shows_end-get_balance user pkg bal named e))
