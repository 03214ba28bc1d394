-- ===== src/Domain/Pppoe.antt =====
-- internal/domain/domain.go: PPPoE profiles and the requests that create and change them.
use radius_go.Base.{Bool, Option}
use radius_go.Base.Int.{ℤ}
use radius_go.Base.Text.{Str}

pub record PppoeProfile : Type 0 where
  pub id : Str
  pub name : Str
  pub description : Str
  pub framed_ip_pool : Str
  pub framed_ip_netmask : Str
  pub primary_dns : Str
  pub secondary_dns : Str
  pub ppp_compression : Bool
  pub mtu : ℤ
  pub mru : ℤ
  pub keepalive_interval : ℤ
  pub rate_limit : Str
  pub bandwidth_max_up : ℤ
  pub bandwidth_max_down : ℤ
  pub session_timeout : ℤ
  pub idle_timeout : ℤ
  pub max_total_octets : ℤ
  pub enabled : Bool
  pub created_at : ℤ
  pub updated_at : ℤ

pub record CreatePppoeProfileRequest : Type 0 where
  pub name : Str
  pub description : Str
  pub framed_ip_pool : Str
  pub framed_ip_netmask : Str
  pub primary_dns : Str
  pub secondary_dns : Str
  pub ppp_compression : Bool
  pub mtu : ℤ
  pub mru : ℤ
  pub keepalive_interval : ℤ
  pub rate_limit : Str
  pub bandwidth_max_up : ℤ
  pub bandwidth_max_down : ℤ
  pub session_timeout : ℤ
  pub idle_timeout : ℤ
  pub max_total_octets : ℤ

-- A field that is `none` is left as it is.
pub record UpdatePppoeProfileRequest : Type 0 where
  pub name : Option Str
  pub description : Option Str
  pub framed_ip_pool : Option Str
  pub framed_ip_netmask : Option Str
  pub primary_dns : Option Str
  pub secondary_dns : Option Str
  pub ppp_compression : Option Bool
  pub mtu : Option ℤ
  pub mru : Option ℤ
  pub keepalive_interval : Option ℤ
  pub rate_limit : Option Str
  pub bandwidth_max_up : Option ℤ
  pub bandwidth_max_down : Option ℤ
  pub session_timeout : Option ℤ
  pub idle_timeout : Option ℤ
  pub max_total_octets : Option ℤ
  pub enabled : Option Bool
