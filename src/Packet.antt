-- ===== src/Packet.antt =====
-- RADIUS packets as internal/radius sees them, and layeh.com/radius, which the repository only
-- calls: its operations are the fields of `RadiusLibrary`, its documented behaviour is
-- `AttributeLaws`.
pub mod Code
pub mod Vsa
pub mod Attributes
pub mod Authenticator
pub mod Reference
use radius_go.Base.{
  ℕ, ◌≤◌, ◌<◌, ◌^◌, ◌≡◌, ◌≢◌, Bool, Option, some, List, [], ◌∷◌, ◌++◌, ◌==◌, if◌then◌else◌, length,
  arith, ==_iff, refl,
}
use radius_go.Base.Text.{Str}

-- `*radius.AVP`
pub record Avp : Type 0 where
  pub kind : ℕ
  pub attribute : Str

-- `*radius.Packet`, as far as the code reads it.
pub record Packet : Type 0 where
  pub code : ℕ
  pub secret : Str
  pub attributes : List Avp

-- The calls of the library that write attributes. A `net.IP` is its bytes.
pub data Call : Type 0 where
  service_type_add framed_protocol_add framed_compression_add : ℕ → Call
  session_timeout_add idle_timeout_add framed_mtu_set : ℕ → Call
  framed_ip_address_add framed_ip_netmask_add : Str → Call
  framed_pool_set_string user_name_add_string : Str → Call
  add set : ℕ → Str → Call

-- The attribute that a call writes (RFC 2865, RFC 2869).
abbrev pub call_kind : Call → ℕ
call_kind (service_type_add v) = 6
call_kind (framed_protocol_add v) = 7
call_kind (framed_compression_add v) = 13
call_kind (session_timeout_add v) = 27
call_kind (idle_timeout_add v) = 28
call_kind (framed_mtu_set v) = 12
call_kind (framed_ip_address_add ip) = 8
call_kind (framed_ip_netmask_add ip) = 9
call_kind (framed_pool_set_string s) = 88
call_kind (user_name_add_string s) = 1
call_kind (add k a) = k
call_kind (set k a) = k

-- `none` is an error. `new_packet` is `radius.New(code, secret)`, and `r.Response(code)` of a request
-- with that secret; `new_integer` is the value of a 32-bit attribute; `hmac_md5` is `hmac.New(md5.New, key)`.
pub record RadiusLibrary : Type 0 where
  pub apply : Call → List Avp → List Avp
  pub new_packet : ℕ → Str → Packet
  pub new_integer : ℕ → Str
  pub new_vendor_specific : ℕ → Str → Option Str
  pub vendor_specific : Str → Option (ℕ × Str)
  pub marshal_binary : Packet → Option Str
  pub hmac_md5 : Str → Str → Str

-- The attributes of one kind, in order.
unfoldable pub values : ℕ → List Avp → List Str
values k [] = []
values k (a ∷ as') = let rest = values k as' in if a.kind == k then a.attribute ∷ rest else rest

-- What the library documents of `New`, `Add`, `Set`, `NewVendorSpecific` and `VendorSpecific`.
pub record AttributeLaws (lib : RadiusLibrary) : Type 0 where
  pub new_packet_lem :
      (c : ℕ) (secret : Str)
      → lib.new_packet c secret ≡ record { code = c; secret = secret; attributes = [] }
  pub values-add :
      (k : ℕ) (a : Str) (as' : List Avp)
      → values k (lib.apply (add k a) as') ≡ values k as' ++ (a ∷ [])
  pub values-session_timeout_add :
      (v : ℕ) (as' : List Avp)
      → values 27 (lib.apply (session_timeout_add v) as')
        ≡ values 27 as' ++ (lib.new_integer v ∷ [])
  pub values-set : (k : ℕ) (a : Str) (as' : List Avp) → values k (lib.apply (set k a) as') ≡ a ∷ []
  pub values_other :
      (k : ℕ) (c : Call) (as' : List Avp)
      → call_kind c ≢ k
      → values k (lib.apply c as') ≡ values k as'
  pub vendor_specific-new :
      (id : ℕ) (v a : Str)
      → id < 2 ^ 32
      → lib.new_vendor_specific id v ≡ some a
      → lib.vendor_specific a ≡ some (id, v)
  pub new_vendor_specific_fits :
      (id : ℕ) (v : Str)
      → 0 < length v
      → length v ≤ 249
      → (a : Str) × (lib.new_vendor_specific id v ≡ some a)

-- A call of the library on a packet.
abbrev pub write : RadiusLibrary → Call → Packet → Packet
write lib c p = record p { attributes = lib.apply c p.attributes }
