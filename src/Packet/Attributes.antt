-- ===== src/Packet/Attributes.antt =====
-- internal/radius/pppoe_attributes.go: the standard attributes of PPP sessions and the DNS servers.
-- Every caller drops the errors of these functions.
use radius_go.Base.{ℕ, Option, none, some, if◌then◌else◌}
use radius_go.Base.Int.{ℤ, pos, leb_ℤ, u32}
use radius_go.Base.Text.{Str, is_empty}
use radius_go.Net.Ip.{parse_ip, to4}
use radius_go.Packet.{
  Packet, RadiusLibrary, Call, write, framed_protocol_add, framed_compression_add,
  framed_ip_netmask_add,
}
use radius_go.Packet.Vsa.{
  vsa_set_uint32, microsoft_vendor_id, uint32, pf_sense_dns1_set, pf_sense_dns2_set,
}

-- `rfc2865.FramedProtocol_Value_PPP` and `rfc2865.FramedCompression_Value_StacLZS`
abbrev pub framed_protocol_value_ppp : ℕ
framed_protocol_value_ppp = 1

abbrev pub framed_compression_value_stac_lzs : ℕ
framed_compression_value_stac_lzs = 3

-- The four bytes of an IPv4 address, as a number.
unfoldable pub ip_to_uint32 : Str → ℕ
ip_to_uint32 ip = elim (to4 ip) [ none ↦ 0 | some v4 ↦ uint32 v4 ]

-- `net.ParseIP(s)` and then `ip.To4()`, of a text that is not empty.
abbrev pub v4_of : Str → Option Str
v4_of s = if is_empty s then none else elim (parse_ip s) [ none ↦ none | some ip ↦ to4 ip ]

module _ (lib : RadiusLibrary) where
  abbrev pub framed_protocol_add_ppp : Packet → Packet
  framed_protocol_add_ppp = write lib (framed_protocol_add framed_protocol_value_ppp)

  unfoldable pub framed_pool_set_string : Packet → Str → Packet
  framed_pool_set_string p pool =
      if is_empty pool then p else write lib (Call.framed_pool_set_string pool) p

  unfoldable pub framed_ip_netmask_add_text : Packet → Str → Packet
  framed_ip_netmask_add_text p mask =
      if is_empty mask
      then p
      else elim (parse_ip mask) [ none ↦ p | some ip ↦ write lib (framed_ip_netmask_add ip) p ]

  unfoldable pub framed_mtu_set : Packet → ℤ → Packet
  framed_mtu_set p mtu =
      if leb_ℤ mtu (pos 0) then p else write lib (Call.framed_mtu_set (u32 mtu)) p

  abbrev pub framed_compression_add_stac : Packet → Packet
  framed_compression_add_stac = write lib (framed_compression_add framed_compression_value_stac_lzs)

  abbrev pub microsoft_dns1_set : Packet → ℕ → Packet
  microsoft_dns1_set p ip = (vsa_set_uint32 lib p microsoft_vendor_id 28 ip).0

  abbrev pub microsoft_dns2_set : Packet → ℕ → Packet
  microsoft_dns2_set p ip = (vsa_set_uint32 lib p microsoft_vendor_id 29 ip).0

  emit_primary : Packet → Str → Packet
  emit_primary p s = elim (v4_of s) [
    | none ↦ p
    | some v4 ↦ let v = ip_to_uint32 v4 in (pf_sense_dns1_set lib (microsoft_dns1_set p v) v).0
  ]

  emit_secondary : Packet → Str → Packet
  emit_secondary p s = elim (v4_of s) [
    | none ↦ p
    | some v4 ↦ let v = ip_to_uint32 v4 in (pf_sense_dns2_set lib (microsoft_dns2_set p v) v).0
  ]

  unfoldable pub emit_dns : Packet → Str → Str → Packet
  unfolding emit_primary emit_secondary
  emit_dns p primary secondary = emit_secondary (emit_primary p primary) secondary
