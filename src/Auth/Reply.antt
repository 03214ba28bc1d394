-- ===== src/Auth/Reply.antt =====
-- The Access-Accept of handleAuth (internal/radius/auth.go). The errors of the attribute setters are
-- dropped, as the code drops them.
pub mod Kept
pub mod Vendor
pub mod Timeouts
use radius_go.Base.{ℕ, Bool, ◌&&◌, Option, none, some, List, [], ◌∷◌, ltb, if◌then◌else◌, not}
use radius_go.Base.Int.{ℤ, pos, ltb_ℤ, u32, ◌-ℤ◌, sub64, sat64}
use radius_go.Base.Text.{Str, is_empty, str_eq}
use radius_go.Domain.Pppoe.{PppoeProfile}
use radius_go.Domain.User.{RadiusUser, service_type_login, service_type_framed}
use radius_go.Domain.Voucher.{VoucherPackage, time_limit_calendar, time_limit_usage}
use radius_go.Net.Ip.{parse_ip}
use radius_go.Packet.{
  Packet, RadiusLibrary, write, service_type_add, framed_ip_address_add, session_timeout_add,
  idle_timeout_add,
}
use radius_go.Packet.Code
use radius_go.Packet.Vsa.{
  mikrotik_rate_limit_set_string, mikrotik_group_set_string, mikrotik_address_pool_set_string,
  mikrotik_total_limit_set, pf_sense_bandwidth_max_up_set, pf_sense_bandwidth_max_down_set,
  pf_sense_max_total_octets_set,
}
use radius_go.Packet.Attributes.{
  framed_protocol_add_ppp, framed_pool_set_string, framed_ip_netmask_add_text, framed_mtu_set,
  framed_compression_add_stac, emit_dns,
}
use radius_go.Auth.Effective.{
  effective_rate_limit, effective_bandwidth, effective_max_total_octets, effective_session_timeout,
  effective_idle_timeout,
}

-- What the handlers use beside their own package: the RADIUS library, bcrypt, and
-- `int(d.Seconds())` of a duration in nanoseconds, which goes through floating point.
pub record Env : Type 0 where
  pub lib : RadiusLibrary
  pub compare_hash : Str → Str → Bool
  pub whole_seconds : ℤ → ℤ

-- `rfc2865.ServiceType_Value_LoginUser` and `_FramedUser`
abbrev pub login_user : ℕ
login_user = 1

abbrev pub framed_user : ℕ
framed_user = 2

module _ (env : Env) where
  unfoldable pub add_service_type : RadiusUser → Packet → Packet
  add_service_type user p =
      if str_eq user.service_type service_type_login
      then write env.lib (service_type_add login_user) p
      else write env.lib (service_type_add framed_user) p

  -- The user's own address, if it is one.
  unfoldable pub add_framed_ip : RadiusUser → Packet → Packet
  add_framed_ip user p = if is_empty user.framed_ip then p else elim (parse_ip user.framed_ip) [
    | none ↦ p
    | some ip ↦ write env.lib (framed_ip_address_add ip) p
  ]

  unfoldable pub add_pool : Str → Packet → Packet
  add_pool pool p =
      (mikrotik_address_pool_set_string env.lib (framed_pool_set_string env.lib p pool) pool).0

  unfoldable pub add_ppp_profile : RadiusUser → PppoeProfile → Packet → Packet
  unfolding add_framed_ip add_pool
  add_ppp_profile user profile p =
      let p1 = framed_protocol_add_ppp env.lib p in
      let p2 =
        if not (is_empty profile.framed_ip_pool)
        then add_pool profile.framed_ip_pool p1
        else add_framed_ip user p1 in
      let p3 =
        if is_empty profile.framed_ip_netmask
        then p2
        else framed_ip_netmask_add_text env.lib p2 profile.framed_ip_netmask in
      let p4 = if ltb_ℤ (pos 0) profile.mtu then framed_mtu_set env.lib p3 profile.mtu else p3 in
      let p5 = if profile.ppp_compression then framed_compression_add_stac env.lib p4 else p4 in
      emit_dns env.lib p5 profile.primary_dns profile.secondary_dns

  unfoldable pub add_ppp : RadiusUser → Packet → Packet
  unfolding add_ppp_profile
  add_ppp user p =
      if str_eq user.service_type service_type_login
      then elim user.pppoe_profile [
        | none ↦ add_framed_ip user p
        | some profile ↦ add_ppp_profile user profile p
      ]
      else add_framed_ip user p

  unfoldable pub add_package : VoucherPackage → Packet → Packet
  unfolding add_pool
  add_package pkg p =
      let p' = if is_empty pkg.address_pool then p else add_pool pkg.address_pool p in
      emit_dns env.lib p' pkg.primary_dns pkg.secondary_dns

  unfoldable pub add_hotspot : RadiusUser → Packet → Packet
  unfolding add_package
  add_hotspot user p =
      if str_eq user.service_type service_type_framed
      then elim user.voucher_package [ none ↦ p | some pkg ↦ add_package pkg p ]
      else p

  unfoldable pub add_timeouts : RadiusUser → Packet → Packet
  add_timeouts user p =
      let session = effective_session_timeout user in
      let idle = effective_idle_timeout user in
      let p' =
        if ltb_ℤ (pos 0) session then write env.lib (session_timeout_add (u32 session)) p else p in
      if ltb_ℤ (pos 0) idle then write env.lib (idle_timeout_add (u32 idle)) p' else p'

  unfoldable pub add_mikrotik : RadiusUser → Packet → Packet
  add_mikrotik user p =
      let rate_limit = effective_rate_limit user in
      let p' =
        if is_empty rate_limit
        then p
        else (mikrotik_rate_limit_set_string env.lib p rate_limit).0 in
      if is_empty user.mikrotik_group
      then p'
      else (mikrotik_group_set_string env.lib p' user.mikrotik_group).0

  unfoldable pub add_pf_sense : RadiusUser → Packet → Packet
  add_pf_sense user p =
      let (up, down) = effective_bandwidth user in
      let octets = effective_max_total_octets user in
      let p1 = if ltb 0 up then (pf_sense_bandwidth_max_up_set env.lib p up).0 else p in
      let p2 = if ltb 0 down then (pf_sense_bandwidth_max_down_set env.lib p1 down).0 else p1 in
      if ltb 0 octets
      then (mikrotik_total_limit_set env.lib (pf_sense_max_total_octets_set env.lib p2 octets).0
          octets).0
      else p2

  abbrev pub add_remaining : ℤ → Packet → Packet
  add_remaining remaining p =
      if ltb_ℤ (pos 0) remaining then write env.lib (session_timeout_add (u32 remaining)) p else p

  unfoldable pub add_usage_timeout : RadiusUser → Packet → Packet
  add_usage_timeout user p =
      if user.is_voucher
        && str_eq user.voucher_time_limit_type time_limit_usage
        && ltb_ℤ (pos 0) user.voucher_time_limit_seconds
      then add_remaining (sub64 user.voucher_time_limit_seconds user.usage_seconds_used) p
      else p

  -- `time.Until` saturates at 64 bits.
  unfoldable pub add_calendar_timeout : RadiusUser → ℤ → Packet → Packet
  add_calendar_timeout user now p =
      if user.is_voucher && str_eq user.voucher_time_limit_type time_limit_calendar
      then elim user.expires_at [
        | none ↦ p
        | some t ↦ add_remaining (env.whole_seconds (sat64 (t -ℤ now))) p
      ]
      else p

  unfoldable pub accept_packet : Str → RadiusUser → ℤ → Packet
  accept_packet secret user now =
      let p = env.lib.new_packet Code.access_accept secret in
      add_calendar_timeout user now (
        add_usage_timeout user (
          add_pf_sense user (
            add_mikrotik user
              (add_timeouts user (add_hotspot user (add_ppp user (add_service_type user p)))))))
