-- ===== src/Handlers/Subscribers/Passwords.antt =====
-- What the length checks of the handlers let through and other packages refuse.
use radius_go.Base.{
  ℕ, ◌^◌, ◌<◌, ◌≤◌, ◌≡◌, ap, ◌∙◌, false, none, arith, Option-cases, inl, inr, length,
}
use radius_go.Base.Int.{ℤ, pos}
use radius_go.Base.Text.{Str}
use radius_go.Domain.User.{RadiusUser}
use radius_go.Domain.Voucher.{VoucherPackage}
use radius_go.Repository.{Postgres, Database, stored_uuid, is_int4}
use radius_go.Repository.Users.{create_user, user_fits}
use radius_go.Vouchers.{new_voucher}
use radius_go.Handlers.{Libraries}

-- bcrypt refuses a password of more than 72 bytes.
abbrev pub RefusesLong : Libraries → Type 0
RefusesLong lib = (password : Str) → 72 < length password → lib.hash password ≡ none

new_voucher-max_total_octets :
    (pkg : VoucherPackage) (id code hash : Str) (bytes : ℕ)
    → pkg.data_cap_bytes ≡ pos bytes
    → 0 < bytes
    → bytes < 2 ^ 32
    → (new_voucher pkg id code hash).max_total_octets ≡ bytes
unfolding new_voucher
new_voucher-max_total_octets pkg id code hash bytes e low high = ground (arith, e)

user_fits-large :
    (pg : Postgres) (user : RadiusUser)
    → is_int4 (pos user.max_total_octets) ≡ false
    → user_fits pg user ≡ false
unfolding user_fits
user_fits-large pg user large = ground (arith, large)

-- A number that its column does not hold keeps the row out.
large_octets-create_user :
    (pg : Postgres) (now : ℤ) (user : RadiusUser) (db : Database)
    → is_int4 (pos user.max_total_octets) ≡ false
    → create_user pg now user db ≡ none
unfolding create_user
large_octets-create_user pg now user db large = elim (Option-cases (pg.uuid user.id)) [
  | inl n ↦ ground (arith, n)
  | inr (key, n) ↦ elim (Option-cases (stored_uuid pg user.pppoe_profile_id)) [
    | inl m ↦ ground (arith, n, m)
    | inr (profile, m) ↦ elim (Option-cases (stored_uuid pg user.voucher_package_id)) [
      | inl l ↦ ground (arith, n, m, l)
      | inr (pkg, l) ↦ ground (arith, n, m, l, user_fits-large pg user large)
    ]
  ]
]

-- A voucher of a package with a data cap of 2^31 to 2^32 - 1 bytes is never stored: the service copies
-- the cap to max_total_octets, a column of 32 bits with a sign.
pub large_cap-create_user :
    (pg : Postgres) (now : ℤ) (pkg : VoucherPackage) (id code hash : Str) (bytes : ℕ)
    (db : Database)
    → pkg.data_cap_bytes ≡ pos bytes
    → 2 ^ 31 ≤ bytes
    → bytes < 2 ^ 32
    → create_user pg now (new_voucher pkg id code hash) db ≡ none
unfolding is_int4
large_cap-create_user pg now pkg id code hash bytes db e low high =
    let copied = new_voucher-max_total_octets pkg id code hash bytes e (omega (arith, low)) high in
    large_octets-create_user pg now (new_voucher pkg id code hash) db
      (ap (λ (n : ℕ). is_int4 (pos n)) copied ∙ ground (arith, low))
