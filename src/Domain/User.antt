-- ===== src/Domain/User.antt =====
-- internal/domain/domain.go: users, network access servers, and what the API shows of a user.
use radius_go.Base.{ℕ, Bool, Option, none, some, if◌then◌else◌}
use radius_go.Base.Int.{ℤ}
use radius_go.Base.Text.{Str, codes, is_empty}
use radius_go.Domain.Pppoe.{PppoeProfile}
use radius_go.Domain.Voucher.{VoucherPackage}

-- A string type: a value from outside may be none of the constants.
abbrev pub ServiceType : Type 0
ServiceType = Str

abbrev pub service_type_framed : ServiceType
service_type_framed = codes "framed"

abbrev pub service_type_login : ServiceType
service_type_login = codes "login"

-- Times are nanoseconds since the zero time of Go.
pub record RadiusUser : Type 0 where
  pub id : Str
  pub username : Str
  pub password_hash : Str
  pub full_name : Str
  pub email : Str
  pub enabled : Bool
  pub simultaneous_use : ℤ
  pub session_timeout : ℤ
  pub idle_timeout : ℤ
  pub framed_ip : Str
  pub mikrotik_group : Str
  pub rate_limit : Str
  pub bandwidth_max_up : ℕ
  pub bandwidth_max_down : ℕ
  pub max_total_octets : ℕ
  pub service_type : ServiceType
  pub pppoe_profile_id : Option Str
  pub pppoe_profile : Option PppoeProfile
  pub voucher_package_id : Option Str
  pub voucher_package : Option VoucherPackage
  pub is_voucher : Bool
  pub first_login_at : Option ℤ
  pub expires_at : Option ℤ
  pub usage_seconds_used : ℤ
  pub data_bytes_used : ℤ
  pub speed_upload_kbps : ℤ
  pub speed_download_kbps : ℤ
  pub voucher_time_limit_type : Str
  pub voucher_time_limit_seconds : ℤ
  pub voucher_data_cap_bytes : ℤ
  pub created_at : ℤ
  pub updated_at : ℤ

pub record Nas : Type 0 where
  pub id : Str
  pub name : Str
  pub ip_address : Str
  pub secret : Str
  pub description : Str
  pub enabled : Bool
  pub created_at : ℤ
  pub updated_at : ℤ

pub record CreateUserRequest : Type 0 where
  pub username : Str
  pub password : Str
  pub full_name : Str
  pub email : Str
  pub simultaneous_use : ℤ
  pub session_timeout : ℤ
  pub idle_timeout : ℤ
  pub framed_ip : Str
  pub mikrotik_group : Str
  pub rate_limit : Str
  pub bandwidth_max_up : ℕ
  pub bandwidth_max_down : ℕ
  pub max_total_octets : ℕ
  pub service_type : Str
  pub pppoe_profile_id : Str

pub record UpdateUserRequest : Type 0 where
  pub username : Str
  pub password : Str
  pub full_name : Str
  pub email : Str
  pub enabled : Option Bool
  pub simultaneous_use : Option ℤ
  pub session_timeout : Option ℤ
  pub idle_timeout : Option ℤ
  pub framed_ip : Str
  pub mikrotik_group : Str
  pub rate_limit : Str
  pub bandwidth_max_up : Option ℕ
  pub bandwidth_max_down : Option ℕ
  pub max_total_octets : Option ℕ
  pub service_type : Str
  pub pppoe_profile_id : Option Str

pub record CreateNasRequest : Type 0 where
  pub name : Str
  pub ip_address : Str
  pub secret : Str
  pub description : Str

pub record UpdateNasRequest : Type 0 where
  pub name : Str
  pub ip_address : Str
  pub secret : Str
  pub description : Str
  pub enabled : Option Bool

pub record Subscriber : Type 0 where
  pub id : Str
  pub username : Str
  pub full_name : Str
  pub email : Str
  pub enabled : Bool
  pub simultaneous_use : ℤ
  pub session_timeout : ℤ
  pub idle_timeout : ℤ
  pub framed_ip : Str
  pub mikrotik_group : Str
  pub rate_limit : Str
  pub bandwidth_max_up : ℕ
  pub bandwidth_max_down : ℕ
  pub max_total_octets : ℕ
  pub service_type : ServiceType
  pub pppoe_profile_id : Option Str
  pub is_voucher : Bool
  pub voucher_package_id : Option Str
  pub expires_at : Option ℤ
  pub created_at : ℤ
  pub updated_at : ℤ

package_of : Option Str → Option Str
package_of none = none
package_of (some id) = if is_empty id then none else some id

pub subscriber_from_user : RadiusUser → Subscriber
subscriber_from_user u = record {
  id = u.id;
  username = u.username;
  full_name = u.full_name;
  email = u.email;
  enabled = u.enabled;
  simultaneous_use = u.simultaneous_use;
  session_timeout = u.session_timeout;
  idle_timeout = u.idle_timeout;
  framed_ip = u.framed_ip;
  mikrotik_group = u.mikrotik_group;
  rate_limit = u.rate_limit;
  bandwidth_max_up = u.bandwidth_max_up;
  bandwidth_max_down = u.bandwidth_max_down;
  max_total_octets = u.max_total_octets;
  service_type = u.service_type;
  pppoe_profile_id = u.pppoe_profile_id;
  is_voucher = u.is_voucher;
  voucher_package_id = package_of u.voucher_package_id;
  expires_at = u.expires_at;
  created_at = u.created_at;
  updated_at = u.updated_at;
}
