-- ===== src/Examples/Settings.antt =====
-- The theorems on the settings of users and profiles, applied.
use radius_go.Base.{◌≡◌, refl, false, none, some, [], ◌++◌, ◌==◌, if◌then◌else◌, arith}
use radius_go.Base.Int.{pos}
use radius_go.Base.Text.{codes, str_eq}
use radius_go.Domain.Pppoe.{PppoeProfile, CreatePppoeProfileRequest, UpdatePppoeProfileRequest}
use radius_go.Domain.User.{RadiusUser}
use radius_go.Packet.Reference.{reference, reference_laws}
use radius_go.Packet.Vsa.{mikrotik_vsa_get_string, mikrotik_rate_limit_type, mikrotik_group_type}
use radius_go.Auth.Effective.{effective_session_timeout}
use radius_go.Auth.Reply.{accept_packet}
use radius_go.Auth.Reply.Vendor.{mikrotik_group_erases}
use radius_go.Auth.Reply.Timeouts.{
  timeouts, one_timeout, usage_timeout, calendar_timeout, timeouts-accept_packet,
}
use radius_go.Net.Ip.{parse_ip, to4}
use radius_go.Validate.Blank.{is_blank}
use radius_go.Validate.{
  limit_string, non_empty, valid_pppoe_profile_name, valid_ipv4, validate_pppoe_profile,
  validate_update_pppoe_profile,
}
use radius_go.PppoeProfiles.{
  row, ok, new_profile, updated_profile, handle_create_pppoe_profile, handle_update_pppoe_profile,
  create_profile, update_profile,
}
use radius_go.Validate.Profile.{IsProfile, handle_create-IsProfile, handle_update-IsProfile}
use radius_go.Examples.{env, alice}

abbrev home_request : CreatePppoeProfileRequest
home_request = record {
  name = codes "home";
  description = [];
  framed_ip_pool = [];
  framed_ip_netmask = [];
  primary_dns = codes "9.9.9.9";
  secondary_dns = [];
  ppp_compression = false;
  mtu = pos 1492;
  mru = pos 1492;
  keepalive_interval = pos 0;
  rate_limit = [];
  bandwidth_max_up = pos 4294967296;
  bandwidth_max_down = pos 2000;
  session_timeout = pos 0;
  idle_timeout = pos 0;
  max_total_octets = pos 0;
}

abbrev home : PppoeProfile
home = new_profile (codes "p1") home_request

abbrev home_user : RadiusUser
home_user = record alice { pppoe_profile = some home; mikrotik_group = [] }

mikrotik_group_erases_example :
    mikrotik_vsa_get_string reference
      (accept_packet env (codes "testing") alice (pos 9))
      mikrotik_rate_limit_type
    ≡ (if mikrotik_group_type == mikrotik_rate_limit_type then codes "gold" else [])
mikrotik_group_erases_example =
    mikrotik_group_erases env reference_laws alice (codes "testing") (pos 9)
      mikrotik_rate_limit_type (omega arith) (omega arith) (omega arith)

timeouts-accept_packet_example :
    timeouts (accept_packet env (codes "testing") alice (pos 9))
    ≡ (one_timeout env reference_laws alice (effective_session_timeout alice)
        ++ usage_timeout env reference_laws alice)
      ++ calendar_timeout env reference_laws alice (pos 9)
timeouts-accept_packet_example =
    timeouts-accept_packet env reference_laws alice (codes "testing") (pos 9)

home_created : handle_create_pppoe_profile (codes "p1") (λ p. none) home_request ≡ ok home
unfolding handle_create_pppoe_profile create_profile validate_pppoe_profile valid_pppoe_profile_name
    non_empty is_blank valid_ipv4 parse_ip to4 str_eq limit_string
home_created = refl

home_valid : IsProfile home
home_valid = (handle_create-IsProfile (codes "p1") (λ p. none) home_request home home_created).0

abbrev rename : UpdatePppoeProfileRequest
rename = record {
  name = some (codes "house");
  description = none;
  framed_ip_pool = none;
  framed_ip_netmask = none;
  primary_dns = none;
  secondary_dns = none;
  ppp_compression = none;
  mtu = some (pos 1400);
  mru = none;
  keepalive_interval = none;
  rate_limit = none;
  bandwidth_max_up = none;
  bandwidth_max_down = none;
  session_timeout = none;
  idle_timeout = none;
  max_total_octets = none;
  enabled = none;
}

home_renamed :
    handle_update_pppoe_profile (row home) (λ p. none) rename ≡ ok (updated_profile rename home)
unfolding handle_update_pppoe_profile update_profile validate_update_pppoe_profile
    valid_pppoe_profile_name non_empty is_blank limit_string
home_renamed = refl

handle_update-IsProfile_example : IsProfile (updated_profile rename home)
handle_update-IsProfile_example =
    handle_update-IsProfile home (λ p. none) rename (updated_profile rename home) home_valid
      home_renamed
