-- ===== src/PppoeProfiles.antt =====
-- internal/radius/pppoe_profile_service.go, and the handlers of internal/radius/pppoe_handlers.go
-- between the decoded request and the service. What the repository answers is an argument.
use radius_go.Base.{ℕ, true, Option, none, some, ◌++◌, if◌then◌else◌, or_else}
use radius_go.Base.Int.{pos}
use radius_go.Base.Text.{Str, codes, is_empty}
use radius_go.Domain.Pppoe.{PppoeProfile, CreatePppoeProfileRequest, UpdatePppoeProfileRequest}
use radius_go.Validate.{
  max_name_len, max_description_len, non_empty, limit_string, validate_pppoe_profile,
  validate_update_pppoe_profile,
}

-- What the query of one row gives: the row, `pgx.ErrNoRows`, or another error.
pub data Row {ℓ} (A : Type ℓ) : Type ℓ where
  row : A → Row A
  no_rows : Row A
  failed : Str → Row A

pub data Result {ℓ} (A : Type ℓ) : Type ℓ where
  ok : A → Result A
  err : Str → Result A

abbrev pub new_profile : Str → CreatePppoeProfileRequest → PppoeProfile
new_profile id req = record {
  id = id;
  name = req.name;
  description = req.description;
  framed_ip_pool = req.framed_ip_pool;
  framed_ip_netmask = req.framed_ip_netmask;
  primary_dns = req.primary_dns;
  secondary_dns = req.secondary_dns;
  ppp_compression = req.ppp_compression;
  mtu = req.mtu;
  mru = req.mru;
  keepalive_interval = req.keepalive_interval;
  rate_limit = req.rate_limit;
  bandwidth_max_up = req.bandwidth_max_up;
  bandwidth_max_down = req.bandwidth_max_down;
  session_timeout = req.session_timeout;
  idle_timeout = req.idle_timeout;
  max_total_octets = req.max_total_octets;
  enabled = true;
  created_at = pos 0;
  updated_at = pos 0;
}

-- What is written, under the error that the repository gives for it.
abbrev pub stored : Str → (PppoeProfile → Option Str) → PppoeProfile → Result PppoeProfile
stored message exec profile = elim (exec profile) [ none ↦ ok profile | some e ↦ err message ]

unfoldable pub create_profile :
    Str → (PppoeProfile → Option Str) → CreatePppoeProfileRequest → Result PppoeProfile
create_profile id exec req = stored (codes "create pppoe profile") exec (new_profile id req)

-- The fields of the request that are given replace those of the profile.
abbrev pub updated_profile : UpdatePppoeProfileRequest → PppoeProfile → PppoeProfile
updated_profile req p = record p {
  name = or_else req.name p.name;
  description = or_else req.description p.description;
  framed_ip_pool = or_else req.framed_ip_pool p.framed_ip_pool;
  framed_ip_netmask = or_else req.framed_ip_netmask p.framed_ip_netmask;
  primary_dns = or_else req.primary_dns p.primary_dns;
  secondary_dns = or_else req.secondary_dns p.secondary_dns;
  ppp_compression = or_else req.ppp_compression p.ppp_compression;
  mtu = or_else req.mtu p.mtu;
  mru = or_else req.mru p.mru;
  keepalive_interval = or_else req.keepalive_interval p.keepalive_interval;
  rate_limit = or_else req.rate_limit p.rate_limit;
  bandwidth_max_up = or_else req.bandwidth_max_up p.bandwidth_max_up;
  bandwidth_max_down = or_else req.bandwidth_max_down p.bandwidth_max_down;
  session_timeout = or_else req.session_timeout p.session_timeout;
  idle_timeout = or_else req.idle_timeout p.idle_timeout;
  max_total_octets = or_else req.max_total_octets p.max_total_octets;
  enabled = or_else req.enabled p.enabled;
}

unfoldable pub update_profile :
    Row PppoeProfile → (PppoeProfile → Option Str) → UpdatePppoeProfileRequest → Result PppoeProfile
update_profile no_rows exec req = err (codes "pppoe profile not found")
update_profile (failed e) exec req = err e
update_profile (row p) exec req = stored (codes "update pppoe profile") exec (updated_profile req p)

unfoldable pub validate_assignment : Str → Row PppoeProfile → Option Str
validate_assignment profile_id found = if is_empty profile_id then none else elim found [
  | no_rows ↦ some (codes "pppoe_profile_id not found")
  | failed e ↦ some (codes "lookup pppoe profile: " ++ e)
  | row p ↦ if p.enabled then none else some (codes "pppoe profile is disabled")
]

-- HandleCreatePPPoEProfile: the checks, the cuts, and the service.
unfoldable pub handle_create_pppoe_profile :
    Str → (PppoeProfile → Option Str) → CreatePppoeProfileRequest → Result PppoeProfile
handle_create_pppoe_profile id exec req =
    if non_empty req.name
    then elim (validate_pppoe_profile req) [
      | some message ↦ err message
      | none ↦ create_profile id exec (record req {
        name = limit_string req.name max_name_len;
        description = limit_string req.description max_description_len;
      })
    ]
    else err (codes "name is required")

abbrev pub limited : ℕ → Option Str → Option Str
limited max none = none
limited max (some s) = some (limit_string s max)

abbrev pub cut_request : UpdatePppoeProfileRequest → UpdatePppoeProfileRequest
cut_request req = record req {
  name = limited max_name_len req.name;
  description = limited max_description_len req.description;
}

-- HandleUpdatePPPoEProfile, whose identifier is a UUID: the cuts, the checks, and the service.
unfoldable pub handle_update_pppoe_profile :
    Row PppoeProfile → (PppoeProfile → Option Str) → UpdatePppoeProfileRequest → Result PppoeProfile
handle_update_pppoe_profile found exec req =
    elim (validate_update_pppoe_profile (cut_request req)) [
      | some message ↦ err message
      | none ↦ update_profile found exec (cut_request req)
    ]
