-- ===== src/Auth/Reply/Timeouts.antt =====
-- Which Session-Timeout attributes an Access-Accept carries.
use radius_go.Base.{ℕ, ◌≡◌, ◌≢◌, Bool, ◌&&◌, none, some, List, [], ◌∷◌, ◌++◌, if◌then◌else◌, arith}
use radius_go.Base.Int.{ℤ, pos, ltb_ℤ, sat64, sub64, ◌-ℤ◌, u32}
use mathlib.Core.List.{append-nil}
use radius_go.Base.Text.{Str, str_eq}
use radius_go.Domain.User.{RadiusUser}
use radius_go.Domain.Pppoe.{PppoeProfile}
use radius_go.Domain.Voucher.{VoucherPackage, time_limit_calendar, time_limit_usage}
use radius_go.Packet.{
  Packet, RadiusLibrary, AttributeLaws, Call, call_kind, write, values, session_timeout_add,
}
use radius_go.Packet.Code
use radius_go.Packet.Vsa.{vsa_set_uint32, mikrotik_vsa_set_string}
use radius_go.Packet.Attributes.{
  framed_pool_set_string, framed_ip_netmask_add_text, framed_mtu_set, emit_dns,
}
use radius_go.Auth.Effective.{effective_session_timeout}
use radius_go.Auth.Reply.{
  Env, add_service_type, add_framed_ip, add_pool, add_ppp_profile, add_ppp, add_package,
  add_hotspot, add_timeouts, add_mikrotik, add_pf_sense, add_usage_timeout, add_calendar_timeout,
  accept_packet,
}

abbrev pub session_timeout_type : ℕ
session_timeout_type = 27

-- The Session-Timeout attributes of a packet.
abbrev pub timeouts : Packet → List Str
timeouts p = values session_timeout_type p.attributes

module _ (lib : RadiusLibrary) (laws : AttributeLaws lib) where
  timeouts-write :
      (c : Call) (p : Packet)
      → call_kind c ≢ session_timeout_type
      → timeouts (write lib c p) ≡ timeouts p
  timeouts-write c p h = laws.values_other session_timeout_type c p.attributes h

  timeouts-vsa_set_uint32 :
      (p : Packet) (id t v : ℕ) → timeouts (vsa_set_uint32 lib p id t v).0 ≡ timeouts p
  unfolding vsa_set_uint32
  timeouts-vsa_set_uint32 p id t v = grind (arith, timeouts-write)

  timeouts-mikrotik_vsa_set_string :
      (p : Packet) (t : ℕ) (v : Str) (b : Bool)
      → timeouts (mikrotik_vsa_set_string lib p t v b).0 ≡ timeouts p
  unfolding mikrotik_vsa_set_string
  timeouts-mikrotik_vsa_set_string p t v b = grind (arith, timeouts-write)

  timeouts-emit_dns : (p : Packet) (a b : Str) → timeouts (emit_dns lib p a b) ≡ timeouts p
  unfolding emit_dns
  timeouts-emit_dns p a b = grind (arith, timeouts-vsa_set_uint32)

  timeouts-framed_pool_set_string :
      (p : Packet) (s : Str) → timeouts (framed_pool_set_string lib p s) ≡ timeouts p
  unfolding framed_pool_set_string
  timeouts-framed_pool_set_string p s = grind (arith, timeouts-write)

  timeouts-framed_ip_netmask_add_text :
      (p : Packet) (s : Str) → timeouts (framed_ip_netmask_add_text lib p s) ≡ timeouts p
  unfolding framed_ip_netmask_add_text
  timeouts-framed_ip_netmask_add_text p s = grind (arith, timeouts-write)

  timeouts-framed_mtu_set : (p : Packet) (z : ℤ) → timeouts (framed_mtu_set lib p z) ≡ timeouts p
  unfolding framed_mtu_set
  timeouts-framed_mtu_set p z = grind (arith, timeouts-write)

ruleset timeout_laws = (
  timeouts-write, timeouts-vsa_set_uint32, timeouts-mikrotik_vsa_set_string, timeouts-emit_dns,
  timeouts-framed_pool_set_string, timeouts-framed_ip_netmask_add_text, timeouts-framed_mtu_set,
)

module _ (env : Env) (laws : AttributeLaws env.lib) (user : RadiusUser) where
  timeouts-add_service_type : (p : Packet) → timeouts (add_service_type env user p) ≡ timeouts p
  unfolding add_service_type
  timeouts-add_service_type p = grind (arith, timeout_laws)

  timeouts-add_framed_ip : (p : Packet) → timeouts (add_framed_ip env user p) ≡ timeouts p
  unfolding add_framed_ip
  timeouts-add_framed_ip p = grind (arith, timeout_laws)

  timeouts-add_pool : (pool : Str) (p : Packet) → timeouts (add_pool env pool p) ≡ timeouts p
  unfolding add_pool
  timeouts-add_pool pool p = grind (arith, timeout_laws)

  timeouts-add_ppp_profile :
      (profile : PppoeProfile) (p : Packet)
      → timeouts (add_ppp_profile env user profile p) ≡ timeouts p
  unfolding add_ppp_profile
  timeouts-add_ppp_profile profile p =
      grind (arith, timeout_laws, timeouts-add_pool, timeouts-add_framed_ip)

  timeouts-add_ppp : (p : Packet) → timeouts (add_ppp env user p) ≡ timeouts p
  unfolding add_ppp
  timeouts-add_ppp p = grind (arith, timeouts-add_ppp_profile, timeouts-add_framed_ip)

  timeouts-add_package :
      (pkg : VoucherPackage) (p : Packet) → timeouts (add_package env pkg p) ≡ timeouts p
  unfolding add_package
  timeouts-add_package pkg p = grind (arith, timeout_laws, timeouts-add_pool)

  timeouts-add_hotspot : (p : Packet) → timeouts (add_hotspot env user p) ≡ timeouts p
  unfolding add_hotspot
  timeouts-add_hotspot p = grind (arith, timeouts-add_package)

  timeouts-add_mikrotik : (p : Packet) → timeouts (add_mikrotik env user p) ≡ timeouts p
  unfolding add_mikrotik
  timeouts-add_mikrotik p = grind (arith, timeout_laws)

  timeouts-add_pf_sense : (p : Packet) → timeouts (add_pf_sense env user p) ≡ timeouts p
  unfolding add_pf_sense
  timeouts-add_pf_sense p = grind (arith, timeout_laws)

  -- One attribute of a positive number of seconds, none of another.
  abbrev pub one_timeout : ℤ → List Str
  one_timeout seconds = if ltb_ℤ (pos 0) seconds then env.lib.new_integer (u32 seconds) ∷ [] else []

  -- The attribute for what a voucher has left of its usage.
  abbrev pub usage_timeout : List Str
  usage_timeout =
      if user.is_voucher
        && str_eq user.voucher_time_limit_type time_limit_usage
        && ltb_ℤ (pos 0) user.voucher_time_limit_seconds
      then one_timeout (sub64 user.voucher_time_limit_seconds user.usage_seconds_used)
      else []

  -- The attribute for the time until a voucher expires.
  abbrev pub calendar_timeout : ℤ → List Str
  calendar_timeout now =
      if user.is_voucher && str_eq user.voucher_time_limit_type time_limit_calendar
      then elim user.expires_at [
        | none ↦ []
        | some t ↦ one_timeout (env.whole_seconds (sat64 (t -ℤ now)))
      ]
      else []

  timeouts-session_timeout_add :
      (v : ℕ) (p : Packet)
      → timeouts (write env.lib (session_timeout_add v) p)
        ≡ timeouts p ++ (env.lib.new_integer v ∷ [])
  timeouts-session_timeout_add v p = laws.values-session_timeout_add v p.attributes

  timeouts-add_timeouts :
      (p : Packet)
      → timeouts (add_timeouts env user p)
        ≡ timeouts p ++ one_timeout (effective_session_timeout user)
  unfolding add_timeouts
  timeouts-add_timeouts p =
      grind (arith, timeout_laws, timeouts-session_timeout_add, append-nil (timeouts p))

  timeouts-add_usage_timeout :
      (p : Packet) → timeouts (add_usage_timeout env user p) ≡ timeouts p ++ usage_timeout
  unfolding add_usage_timeout
  timeouts-add_usage_timeout p =
      grind (arith, timeouts-session_timeout_add, append-nil (timeouts p))

  timeouts-add_calendar_timeout :
      (now : ℤ) (p : Packet)
      → timeouts (add_calendar_timeout env user now p) ≡ timeouts p ++ calendar_timeout now
  unfolding add_calendar_timeout
  timeouts-add_calendar_timeout now p =
      grind (arith, timeouts-session_timeout_add, append-nil (timeouts p))

  timeouts-new_packet :
      (secret : Str) → timeouts (env.lib.new_packet Code.access_accept secret) ≡ []
  unfolding values
  timeouts-new_packet secret = rw laws.new_packet_lem

  -- The Session-Timeout attributes of an Access-Accept are, in this order: the configured timeout,
  -- what a usage voucher has left, and the time until a calendar voucher expires, each if it is
  -- positive.
  pub timeouts-accept_packet :
      (secret : Str) (now : ℤ)
      → timeouts (accept_packet env secret user now)
        ≡ (one_timeout (effective_session_timeout user) ++ usage_timeout) ++ calendar_timeout now
  unfolding accept_packet
  timeouts-accept_packet secret now = simp (
    timeouts-add_calendar_timeout, timeouts-add_usage_timeout, timeouts-add_pf_sense,
    timeouts-add_mikrotik, timeouts-add_timeouts, timeouts-add_hotspot, timeouts-add_ppp,
    timeouts-add_service_type, timeouts-new_packet,
  )
