-- ===== src/Auth/Reply/Kept.antt =====
-- No step of the reply changes the packet's code.
use radius_go.Base.{ℕ, ◌≡◌, Bool, arith}
use radius_go.Base.Int.{ℤ}
use radius_go.Base.Text.{Str}
use radius_go.Domain.User.{RadiusUser}
use radius_go.Domain.Pppoe.{PppoeProfile}
use radius_go.Domain.Voucher.{VoucherPackage}
use radius_go.Packet.{Packet, RadiusLibrary, AttributeLaws}
use radius_go.Packet.Code
use radius_go.Packet.Vsa.{vsa_set_uint32, mikrotik_vsa_set_string}
use radius_go.Packet.Attributes.{
  framed_pool_set_string, framed_ip_netmask_add_text, framed_mtu_set, emit_dns,
}
use radius_go.Packet.Authenticator.{add_message_authenticator}
use radius_go.Auth.Reply.{
  Env, add_service_type, add_framed_ip, add_pool, add_ppp_profile, add_ppp, add_package,
  add_hotspot, add_timeouts, add_mikrotik, add_pf_sense, add_usage_timeout, add_calendar_timeout,
  accept_packet,
}

module _ (lib : RadiusLibrary) where
  code-vsa_set_uint32 : (p : Packet) (id t v : ℕ) → (vsa_set_uint32 lib p id t v).0.code ≡ p.code
  unfolding vsa_set_uint32
  code-vsa_set_uint32 p id t v = ground arith

  code-mikrotik_vsa_set_string :
      (p : Packet) (t : ℕ) (v : Str) (b : Bool)
      → (mikrotik_vsa_set_string lib p t v b).0.code ≡ p.code
  unfolding mikrotik_vsa_set_string
  code-mikrotik_vsa_set_string p t v b = ground arith

  code-emit_dns : (p : Packet) (a b : Str) → (emit_dns lib p a b).code ≡ p.code
  unfolding emit_dns
  code-emit_dns p a b = grind (arith, code-vsa_set_uint32)

  code-framed_pool_set_string :
      (p : Packet) (s : Str) → (framed_pool_set_string lib p s).code ≡ p.code
  unfolding framed_pool_set_string
  code-framed_pool_set_string p s = ground arith

  code-framed_ip_netmask_add_text :
      (p : Packet) (s : Str) → (framed_ip_netmask_add_text lib p s).code ≡ p.code
  unfolding framed_ip_netmask_add_text
  code-framed_ip_netmask_add_text p s = ground arith

  code-framed_mtu_set : (p : Packet) (z : ℤ) → (framed_mtu_set lib p z).code ≡ p.code
  unfolding framed_mtu_set
  code-framed_mtu_set p z = ground arith

  pub code-add_message_authenticator :
      (p : Packet) → (add_message_authenticator lib p).0.code ≡ p.code
  unfolding add_message_authenticator
  code-add_message_authenticator p = ground arith

ruleset code_laws = (
  code-vsa_set_uint32, code-mikrotik_vsa_set_string, code-emit_dns, code-framed_pool_set_string,
  code-framed_ip_netmask_add_text, code-framed_mtu_set,
)

module _ (env : Env) (user : RadiusUser) where
  code-add_service_type : (p : Packet) → (add_service_type env user p).code ≡ p.code
  unfolding add_service_type
  code-add_service_type p = ground arith

  code-add_framed_ip : (p : Packet) → (add_framed_ip env user p).code ≡ p.code
  unfolding add_framed_ip
  code-add_framed_ip p = ground arith

  code-add_pool : (pool : Str) (p : Packet) → (add_pool env pool p).code ≡ p.code
  unfolding add_pool
  code-add_pool pool p = grind (arith, code_laws)

  code-add_ppp_profile :
      (profile : PppoeProfile) (p : Packet) → (add_ppp_profile env user profile p).code ≡ p.code
  unfolding add_ppp_profile
  code-add_ppp_profile profile p = grind (arith, code_laws, code-add_pool, code-add_framed_ip)

  code-add_ppp : (p : Packet) → (add_ppp env user p).code ≡ p.code
  unfolding add_ppp
  code-add_ppp p = grind (arith, code-add_ppp_profile, code-add_framed_ip)

  code-add_package : (pkg : VoucherPackage) (p : Packet) → (add_package env pkg p).code ≡ p.code
  unfolding add_package
  code-add_package pkg p = grind (arith, code_laws, code-add_pool)

  code-add_hotspot : (p : Packet) → (add_hotspot env user p).code ≡ p.code
  unfolding add_hotspot
  code-add_hotspot p = grind (arith, code-add_package)

  code-add_timeouts : (p : Packet) → (add_timeouts env user p).code ≡ p.code
  unfolding add_timeouts
  code-add_timeouts p = ground arith

  code-add_mikrotik : (p : Packet) → (add_mikrotik env user p).code ≡ p.code
  unfolding add_mikrotik
  code-add_mikrotik p = grind (arith, code_laws)

  code-add_pf_sense : (p : Packet) → (add_pf_sense env user p).code ≡ p.code
  unfolding add_pf_sense
  code-add_pf_sense p = grind (arith, code_laws)

  code-add_usage_timeout : (p : Packet) → (add_usage_timeout env user p).code ≡ p.code
  unfolding add_usage_timeout
  code-add_usage_timeout p = ground arith

  code-add_calendar_timeout :
      (now : ℤ) (p : Packet) → (add_calendar_timeout env user now p).code ≡ p.code
  unfolding add_calendar_timeout
  code-add_calendar_timeout now p = ground arith

  -- The packet of an admitted user is an Access-Accept.
  pub code-accept_packet :
      (laws : AttributeLaws env.lib) (secret : Str) (now : ℤ)
      → (accept_packet env secret user now).code ≡ Code.access_accept
  unfolding accept_packet
  code-accept_packet laws secret now = simp (
    code-add_calendar_timeout, code-add_usage_timeout, code-add_pf_sense, code-add_mikrotik,
    code-add_timeouts, code-add_hotspot, code-add_ppp, code-add_service_type, laws.new_packet_lem,
  )
