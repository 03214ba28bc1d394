-- ===== src/Domain/Voucher.antt =====
-- internal/domain/domain.go: voucher packages, their requests and the balance. A price (float64)
-- is only copied: it is the number of its bit pattern.
use radius_go.Base.{ℕ, Bool, Option}
use radius_go.Base.Int.{ℤ}
use radius_go.Base.Text.{Str, codes}

-- A string type: a value from outside may be none of the constants.
abbrev pub TimeLimitType : Type 0
TimeLimitType = Str

abbrev pub time_limit_calendar : TimeLimitType
time_limit_calendar = codes "calendar"

abbrev pub time_limit_usage : TimeLimitType
time_limit_usage = codes "usage"

pub record VoucherPackage : Type 0 where
  pub id : Str
  pub name : Str
  pub description : Str
  pub price : ℕ
  pub speed_upload_kbps : ℤ
  pub speed_download_kbps : ℤ
  pub data_cap_bytes : ℤ
  pub time_limit_type : TimeLimitType
  pub time_limit_seconds : ℤ
  pub max_concurrent_users : ℤ
  pub address_pool : Str
  pub primary_dns : Str
  pub secondary_dns : Str
  pub enabled : Bool
  pub created_at : ℤ
  pub updated_at : ℤ

pub record CreateVoucherPackageRequest : Type 0 where
  pub name : Str
  pub description : Str
  pub price : ℕ
  pub speed_upload_kbps : ℤ
  pub speed_download_kbps : ℤ
  pub data_cap_bytes : ℤ
  pub time_limit_type : Str
  pub time_limit_seconds : ℤ
  pub max_concurrent_users : ℤ
  pub address_pool : Str
  pub primary_dns : Str
  pub secondary_dns : Str

pub record UpdateVoucherPackageRequest : Type 0 where
  pub name : Option Str
  pub description : Option Str
  pub price : Option ℕ
  pub speed_upload_kbps : Option ℤ
  pub speed_download_kbps : Option ℤ
  pub data_cap_bytes : Option ℤ
  pub time_limit_type : Option Str
  pub time_limit_seconds : Option ℤ
  pub max_concurrent_users : Option ℤ
  pub address_pool : Option Str
  pub primary_dns : Option Str
  pub secondary_dns : Option Str
  pub enabled : Option Bool

pub record GenerateVoucherRequest : Type 0 where
  pub package_id : Str
  pub count : ℤ
  pub code_format : Str
  pub code_length : ℤ
  pub custom_code : Str
  pub password_mode : Str
  pub custom_password : Str

pub record VoucherBalance : Type 0 where
  pub username : Str
  pub package_name : Str
  pub enabled : Bool
  pub first_login_at : Option ℤ
  pub expires_at : Option ℤ
  pub time_limit_type : Str
  pub time_limit_seconds : ℤ
  pub usage_seconds_used : ℤ
  pub usage_seconds_remaining : ℤ
  pub data_cap_bytes : ℤ
  pub data_bytes_used : ℤ
  pub data_bytes_remaining : ℤ
