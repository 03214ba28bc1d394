-- ===== src/Vouchers.antt =====
-- internal/radius/voucher_service.go. What the database answers, the random source, bcrypt and the
-- new UUIDs are arguments; `none` is an error of the query or the statement.
pub mod Fresh
pub mod Balance
use radius_go.Base.{
  ℕ, zero, suc, ◌+◌, Bool, true, false, ◌&&◌, not, Option, none, some, List, [], ◌∷◌, ◌++◌, map,
  or_else, if◌then◌else◌, ltb,
}
use radius_go.Base.Int.{ℤ, pos, pos_part, ltb_ℤ, leb_ℤ, sub64}
use radius_go.Base.Text.{Str, codes, is_empty, str_eq}
use radius_go.Domain.User.{RadiusUser, Subscriber, subscriber_from_user, service_type_framed}
use radius_go.Domain.Voucher.{
  VoucherPackage, CreateVoucherPackageRequest, UpdateVoucherPackageRequest, GenerateVoucherRequest,
  VoucherBalance, time_limit_calendar, time_limit_usage,
}
use radius_go.Strconv.{format_nat}

-- CreatePackage: the row that is inserted. Every type but calendar becomes usage.
unfoldable pub new_package : Str → CreateVoucherPackageRequest → VoucherPackage
new_package id req = record {
  id = id;
  name = req.name;
  description = req.description;
  price = req.price;
  speed_upload_kbps = req.speed_upload_kbps;
  speed_download_kbps = req.speed_download_kbps;
  data_cap_bytes = req.data_cap_bytes;
  time_limit_type =
      if str_eq req.time_limit_type time_limit_calendar
      then time_limit_calendar
      else time_limit_usage;
  time_limit_seconds = req.time_limit_seconds;
  max_concurrent_users = req.max_concurrent_users;
  address_pool = req.address_pool;
  primary_dns = req.primary_dns;
  secondary_dns = req.secondary_dns;
  enabled = true;
  created_at = pos 0;
  updated_at = pos 0;
}

-- UpdatePackage: the row that is written. The type is taken as it is given.
abbrev pub updated_package : UpdateVoucherPackageRequest → VoucherPackage → VoucherPackage
updated_package req p = record p {
  name = or_else req.name p.name;
  description = or_else req.description p.description;
  price = or_else req.price p.price;
  speed_upload_kbps = or_else req.speed_upload_kbps p.speed_upload_kbps;
  speed_download_kbps = or_else req.speed_download_kbps p.speed_download_kbps;
  data_cap_bytes = or_else req.data_cap_bytes p.data_cap_bytes;
  time_limit_type = or_else req.time_limit_type p.time_limit_type;
  time_limit_seconds = or_else req.time_limit_seconds p.time_limit_seconds;
  max_concurrent_users = or_else req.max_concurrent_users p.max_concurrent_users;
  address_pool = or_else req.address_pool p.address_pool;
  primary_dns = or_else req.primary_dns p.primary_dns;
  secondary_dns = or_else req.secondary_dns p.secondary_dns;
  enabled = or_else req.enabled p.enabled;
}

abbrev letters : Str
letters = codes "abcdefghijklmnopqrstuvwxyzABCDEFGHIJKLMNOPQRSTUVWXYZ0123456789"

-- `chars[n]`, for the n below 62 that `rand.Int` gives.
letter : ℕ → Str → ℕ
letter n [] = 0
letter zero (c ∷ s) = c
letter (suc n) (c ∷ s) = letter n s

-- The numbers of the random source, by the letters that follow, and the length.
unfoldable pub generate_random_code : (ℕ → ℕ) → ℕ → Str
unfolding letter
generate_random_code rand zero = []
generate_random_code rand (suc n) = letter (rand n) letters ∷ generate_random_code rand n

-- What one voucher draws from outside.
pub record Draw : Type 0 where
  pub code_numbers : ℕ → ℕ
  pub password_numbers : ℕ → ℕ
  pub new_id : Str
  pub hash : Str → Option Str
  pub create_user : RadiusUser → Bool

unfoldable pub code_of : GenerateVoucherRequest → ℤ → ℕ → Draw → Str
code_of req code_length index draw =
    if not (str_eq req.code_format (codes "custom"))
    then generate_random_code draw.code_numbers (pos_part code_length)
    else if ltb_ℤ (pos 1) req.count && not (is_empty req.custom_code)
    then req.custom_code ++ (b'-' ∷ format_nat (index + 1))
    else req.custom_code

unfoldable pub password_of : GenerateVoucherRequest → Str → Draw → Str
password_of req code draw =
    if str_eq req.password_mode (codes "random")
    then generate_random_code draw.password_numbers 16
    else if str_eq req.password_mode (codes "custom")
    then req.custom_password
    else code

unfoldable pub new_voucher : VoucherPackage → Str → Str → Str → RadiusUser
new_voucher pkg id code hash = record {
  id = id;
  username = code;
  password_hash = hash;
  full_name = codes "Voucher: " ++ pkg.name;
  email = [];
  enabled = true;
  simultaneous_use =
      if ltb_ℤ pkg.max_concurrent_users (pos 0) then pos 0 else pkg.max_concurrent_users;
  session_timeout = pos 0;
  idle_timeout = pos 0;
  framed_ip = [];
  mikrotik_group = [];
  rate_limit = [];
  bandwidth_max_up = 0;
  bandwidth_max_down = 0;
  max_total_octets =
      if ltb_ℤ (pos 0) pkg.data_cap_bytes && leb_ℤ pkg.data_cap_bytes (pos 4294967295)
      then pos_part pkg.data_cap_bytes
      else 0;
  service_type = service_type_framed;
  pppoe_profile_id = none;
  pppoe_profile = none;
  voucher_package_id = some pkg.id;
  voucher_package = none;
  is_voucher = true;
  first_login_at = none;
  expires_at = none;
  usage_seconds_used = pos 0;
  data_bytes_used = pos 0;
  speed_upload_kbps = pkg.speed_upload_kbps;
  speed_download_kbps = pkg.speed_download_kbps;
  voucher_time_limit_type = pkg.time_limit_type;
  voucher_time_limit_seconds = pkg.time_limit_seconds;
  voucher_data_cap_bytes = pkg.data_cap_bytes;
  created_at = pos 0;
  updated_at = pos 0;
}

-- The row that is stored, and the password that is shown once.
pub record GeneratedVoucher : Type 0 where
  pub user : RadiusUser
  pub subscriber : Subscriber
  pub password : Str

unfoldable pub generate_one_voucher :
    VoucherPackage → GenerateVoucherRequest → ℤ → ℕ → Draw → Option GeneratedVoucher
generate_one_voucher pkg req code_length index draw =
    let code = code_of req code_length index draw in
    let password = password_of req code draw in
    elim (draw.hash password) [
      | none ↦ none
      | some hash ↦
          let user = new_voucher pkg draw.new_id code hash in
          if draw.create_user user
          then some
              (record { user = user; subscriber = subscriber_from_user user; password = password })
          else none
    ]

-- An error ends the loop with what was collected before.
abbrev pub collected :
    Option GeneratedVoucher → List GeneratedVoucher × Bool → List GeneratedVoucher × Bool
collected none rest = ([], false)
collected (some v) rest = (v ∷ rest.0, rest.1)

-- The loop from an index on: the vouchers so far, and whether all of them were made.
unfoldable pub generate_from :
    VoucherPackage → GenerateVoucherRequest → ℤ → (ℕ → Draw) → ℕ → ℕ → List GeneratedVoucher × Bool
generate_from pkg req code_length draws index zero = ([], true)
generate_from pkg req code_length draws index (suc n) =
    collected (generate_one_voucher pkg req code_length index (draws index))
      (generate_from pkg req code_length draws (suc index) n)

unfoldable pub generate_vouchers :
    Option VoucherPackage → GenerateVoucherRequest → (ℕ → Draw) → List GeneratedVoucher × Bool
generate_vouchers none req draws = ([], false)
generate_vouchers (some pkg) req draws =
    if pkg.enabled
    then generate_from pkg req (if leb_ℤ req.code_length (pos 0) then pos 12 else req.code_length)
        draws 0 (if leb_ℤ req.count (pos 0) then 1 else pos_part req.count)
    else ([], false)

abbrev pub not_below_zero : ℤ → ℤ
not_below_zero z = if ltb_ℤ z (pos 0) then pos 0 else z

-- The package's part of a balance, where the voucher has one that is found.
unfoldable pub with_package : RadiusUser → Option VoucherPackage → VoucherBalance → VoucherBalance
with_package user none bal = bal
with_package user (some pkg) bal = record bal {
  package_name = pkg.name;
  time_limit_type = pkg.time_limit_type;
  time_limit_seconds = pkg.time_limit_seconds;
  usage_seconds_remaining = not_below_zero (sub64 pkg.time_limit_seconds user.usage_seconds_used);
  data_cap_bytes = pkg.data_cap_bytes;
  data_bytes_remaining = not_below_zero (sub64 pkg.data_cap_bytes user.data_bytes_used);
}

abbrev pub names_package : Option Str → Bool
names_package none = false
names_package (some id) = not (is_empty id)

-- The second argument is what GetPackage gives for the package of the user.
unfoldable pub get_balance : Option RadiusUser → Option VoucherPackage → Option VoucherBalance
get_balance none pkg = none
get_balance (some user) pkg =
    if user.is_voucher
    then some (
        with_package user (if names_package user.voucher_package_id then pkg else none) (record {
          username = user.username;
          package_name = [];
          enabled = user.enabled;
          first_login_at = user.first_login_at;
          expires_at = user.expires_at;
          time_limit_type = [];
          time_limit_seconds = pos 0;
          usage_seconds_used = user.usage_seconds_used;
          usage_seconds_remaining = pos 0;
          data_cap_bytes = pos 0;
          data_bytes_used = user.data_bytes_used;
          data_bytes_remaining = pos 0;
        }))
    else none

unfoldable pub list_vouchers : List RadiusUser → List Subscriber
list_vouchers users = map subscriber_from_user users
