-- ===== src/Packet/Vsa.antt =====
-- internal/radius/vsa.go, mikrotik_vsa.go and pfsense_vsa.go: vendor-specific attributes. A setter
-- returns the packet and whether its error is nil.
pub mod Scan
pub mod RoundTrip
use radius_go.Base.{
  ℕ, zero, suc, ◌+◌, ◌-◌, ◌*◌, ◌/◌, ◌%◌, ◌^◌, Bool, true, false, ◌&&◌, ◌||◌, Option, none, some,
  List, [], ◌∷◌, ◌==◌, ltb, leb, if◌then◌else◌, or_else, length, take, drop,
}
use radius_go.Base.Text.{Str, is_empty}
use radius_go.Packet.{Avp, Packet, RadiusLibrary, add, set, write}

abbrev pub vendor_specific_type : ℕ
vendor_specific_type = 26

abbrev pub microsoft_vendor_id : ℕ
microsoft_vendor_id = 311

abbrev pub mikrotik_vendor_id : ℕ
mikrotik_vendor_id = 14988

abbrev pub pf_sense_vendor_id : ℕ
pf_sense_vendor_id = 13644

abbrev pub mikrotik_rate_limit_type : ℕ
mikrotik_rate_limit_type = 8

abbrev pub mikrotik_group_type : ℕ
mikrotik_group_type = 4

abbrev pub mikrotik_total_limit_type : ℕ
mikrotik_total_limit_type = 12

abbrev pub mikrotik_pool_type : ℕ
mikrotik_pool_type = 17

-- `binary.BigEndian.PutUint32` and `Uint32`.
unfoldable pub put_uint32 : ℕ → Str
put_uint32 v = v / 2 ^ 24 % 256 ∷ v / 2 ^ 16 % 256 ∷ v / 2 ^ 8 % 256 ∷ v % 256 ∷ []

unfoldable pub uint32 : Str → ℕ
uint32 (a ∷ b ∷ c ∷ d ∷ _) = a * 2 ^ 24 + b * 2 ^ 16 + c * 2 ^ 8 + d
uint32 _ = 0

-- One round of the getters' loop over the sub-attributes of a value; `found` says what to make of
-- a sub-attribute, from its type, its length and the bytes from its start.
pub scan_loop {ℓ} : {A : Type ℓ} → (ℕ → ℕ → Str → Option A) → ℕ → Str → Option A
scan_loop found zero vsa = none
scan_loop found (suc fuel) (vt ∷ vlen ∷ b ∷ rest) =
    let vsa : Str = vt ∷ vlen ∷ b ∷ rest in
    let next = scan_loop found fuel (drop vlen vsa) in
    if ltb vlen 3 || ltb (length vsa) vlen
    then none
    else elim (found vt vlen vsa) [ some a ↦ some a | none ↦ next ]
scan_loop found (suc fuel) _ = none

-- A round takes three bytes at least, so the value's length is enough fuel.
unfoldable pub scan {ℓ} : {A : Type ℓ} → (ℕ → ℕ → Str → Option A) → Str → Option A
scan found vsa = scan_loop found (length vsa) vsa

-- The tests of the getters: `string(vsa[2:vlen])`, `Uint32(vsa[2:6])`.
abbrev pub mikrotik_found : ℕ → ℕ → ℕ → Str → Option Str
mikrotik_found vendor_type vt vlen vsa =
    if vt == vendor_type then some (drop 2 (take vlen vsa)) else none

abbrev pub pf_sense_found : ℕ → ℕ → ℕ → Str → Option ℕ
pf_sense_found vendor_type vt vlen vsa =
    if vt == vendor_type && leb 6 vlen then some (uint32 (drop 2 (take 6 vsa))) else none

module _ (lib : RadiusLibrary) where
  -- Wire format: vendor type, length, four bytes.
  unfoldable pub vsa_set_uint32 : Packet → ℕ → ℕ → ℕ → Packet × Bool
  vsa_set_uint32 p vendor_id vendor_type value =
      if value == 0
      then (p, true)
      else elim (lib.new_vendor_specific vendor_id (vendor_type ∷ 6 ∷ put_uint32 value)) [
        | none ↦ (p, false)
        | some attr ↦ (write lib (add vendor_specific_type attr) p, true)
      ]

  unfoldable pub make_mikrotik_vsa : ℕ → Str → Option Str
  make_mikrotik_vsa vendor_type value =
      lib.new_vendor_specific mikrotik_vendor_id (vendor_type ∷ (2 + length value) % 256 ∷ value)

  unfoldable pub mikrotik_vsa_set_string : Packet → ℕ → Str → Bool → Packet × Bool
  mikrotik_vsa_set_string p vendor_type value replace =
      if is_empty value then (p, true) else elim (make_mikrotik_vsa vendor_type value) [
        | none ↦ (p, false)
        | some attr ↦ (
          if replace
              then write lib (set vendor_specific_type attr) p
              else write lib (add vendor_specific_type attr) p,
          true,
        )
      ]

  abbrev pub mikrotik_rate_limit_set_string : Packet → Str → Packet × Bool
  mikrotik_rate_limit_set_string p value =
      mikrotik_vsa_set_string p mikrotik_rate_limit_type value true

  abbrev pub mikrotik_group_set_string : Packet → Str → Packet × Bool
  mikrotik_group_set_string p value = mikrotik_vsa_set_string p mikrotik_group_type value true

  abbrev pub mikrotik_address_pool_set_string : Packet → Str → Packet × Bool
  mikrotik_address_pool_set_string p value = mikrotik_vsa_set_string p mikrotik_pool_type value true

  abbrev pub mikrotik_total_limit_set : Packet → ℕ → Packet × Bool
  mikrotik_total_limit_set p value =
      vsa_set_uint32 p mikrotik_vendor_id mikrotik_total_limit_type value

  abbrev pub pf_sense_bandwidth_max_up_set : Packet → ℕ → Packet × Bool
  pf_sense_bandwidth_max_up_set p value = vsa_set_uint32 p pf_sense_vendor_id 1 value

  abbrev pub pf_sense_bandwidth_max_down_set : Packet → ℕ → Packet × Bool
  pf_sense_bandwidth_max_down_set p value = vsa_set_uint32 p pf_sense_vendor_id 2 value

  abbrev pub pf_sense_max_total_octets_set : Packet → ℕ → Packet × Bool
  pf_sense_max_total_octets_set p value = vsa_set_uint32 p pf_sense_vendor_id 3 value

  abbrev pub pf_sense_dns1_set : Packet → ℕ → Packet × Bool
  pf_sense_dns1_set p ip = vsa_set_uint32 p pf_sense_vendor_id 4 ip

  abbrev pub pf_sense_dns2_set : Packet → ℕ → Packet × Bool
  pf_sense_dns2_set p ip = vsa_set_uint32 p pf_sense_vendor_id 5 ip

  -- The scan of one vendor-specific attribute; another vendor's is passed over.
  abbrev pub scan_vendor {ℓ} : {A : Type ℓ} → ℕ → (ℕ → ℕ → Str → Option A) → Str → Option A
  scan_vendor vendor_id found attr = elim (lib.vendor_specific attr) [
    | none ↦ none
    | some (id, vsa) ↦ if id == vendor_id then scan found vsa else none
  ]

  -- `for _, avp := range p.Attributes`, up to the first hit.
  unfoldable pub first_found {ℓ} : {A : Type ℓ} → ℕ → (ℕ → ℕ → Str → Option A) → List Avp → Option A
  first_found vendor_id found [] = none
  first_found vendor_id found (avp ∷ rest) =
      let next = first_found vendor_id found rest in
      if avp.kind == vendor_specific_type
      then elim (scan_vendor vendor_id found avp.attribute) [ some a ↦ some a | none ↦ next ]
      else next

  unfoldable pub mikrotik_vsa_get_string : Packet → ℕ → Str
  mikrotik_vsa_get_string p vendor_type =
      or_else (first_found mikrotik_vendor_id (mikrotik_found vendor_type) p.attributes) []

  unfoldable pub pf_sense_vsa_get_uint32 : Packet → ℕ → Option ℕ
  pf_sense_vsa_get_uint32 p vendor_type =
      first_found pf_sense_vendor_id (pf_sense_found vendor_type) p.attributes
