-- ===== src/Validate.antt =====
-- internal/radius/validate.go. A string is its bytes. The result of a check is its error, `none` for
-- none. validUUID calls the parser of another package and is an argument of the handlers.
pub mod Blank
pub mod Profile
use radius_go.Base.{
  ℕ, ◌≡◌, refl, Bool, true, false, ◌&&◌, ◌||◌, not, Option, none, some, List, [], ◌∷◌, ◌==◌, leb,
  ltb, if◌then◌else◌, is_some, length, take,
}
use radius_go.Base.Int.{ℤ, pos, ltb_ℤ}
use radius_go.Base.Text.{Str, codes, is_empty, str_eq}
use radius_go.Domain.User.{service_type_framed, service_type_login}
use radius_go.Domain.Voucher.{time_limit_calendar, time_limit_usage}
use radius_go.Domain.Pppoe.{CreatePppoeProfileRequest, UpdatePppoeProfileRequest}
use radius_go.Net.HostPort.{split_host_port}
use radius_go.Net.Ip.{parse_ip, to4}
use radius_go.Validate.Blank.{is_blank}

abbrev pub max_name_len : ℕ
max_name_len = 255

abbrev pub max_description_len : ℕ
max_description_len = 512

abbrev pub max_username_len : ℕ
max_username_len = 128

abbrev pub max_password_len : ℕ
max_password_len = 128

abbrev pub max_secret_len : ℕ
max_secret_len = 512

abbrev pub max_ip_len : ℕ
max_ip_len = 45

abbrev pub max_rate_limit_len : ℕ
max_rate_limit_len = 64

abbrev pub max_group_len : ℕ
max_group_len = 128

abbrev pub max_email_len : ℕ
max_email_len = 255

-- `host, _, err := net.SplitHostPort(s); return err == nil && net.ParseIP(host) != nil`
host_is_ip : Option (Str × Str) → Bool
host_is_ip none = false
host_is_ip (some (host, port)) = is_some (parse_ip host)

unfoldable pub valid_ip : Str → Bool
unfolding host_is_ip
valid_ip s =
    if is_empty s
    then false
    else if is_some (parse_ip s)
    then true
    else host_is_ip (split_host_port s)

-- `mail.ParseAddress` is an argument: the address of a text that it can parse.
unfoldable pub valid_email : (Str → Option Str) → Str → Bool
valid_email parse_address s = if is_empty s then true else elim (parse_address s) [
  | none ↦ false
  | some address ↦ str_eq address s && leb (length s) max_email_len
]

unfoldable pub valid_service_type : Str → Bool
valid_service_type s = is_empty s || str_eq s service_type_framed || str_eq s service_type_login

unfoldable pub valid_time_limit_type : Str → Bool
valid_time_limit_type s = is_empty s || str_eq s time_limit_calendar || str_eq s time_limit_usage

unfoldable pub non_empty : Str → Bool
non_empty s = not (is_blank s)

unfoldable pub valid_pppoe_profile_name : Str → Bool
unfolding non_empty
valid_pppoe_profile_name s = non_empty s && leb (length s) max_name_len

unfoldable pub valid_ipv4 : Str → Bool
valid_ipv4 s =
    if is_empty s then true else elim (parse_ip s) [ none ↦ false | some ip ↦ is_some (to4 ip) ]

unfoldable pub limit_string : Str → ℕ → Str
limit_string s max = if ltb max (length s) then take max s else s

abbrev pub negative : ℤ → Bool
negative z = ltb_ℤ z (pos 0)

abbrev pub out_of_range : ℤ → Bool
out_of_range z = negative z || ltb_ℤ (pos 1500) z

-- `if bad { return errors.New(message) }`, and what follows.
abbrev pub guard : Bool → Str → Option Str → Option Str
guard bad message rest = if bad then some message else rest

unfoldable pub validate_pppoe_profile : CreatePppoeProfileRequest → Option Str
validate_pppoe_profile req =
    guard (not (valid_pppoe_profile_name req.name)) (codes "invalid name") (
      guard (not (valid_ipv4 req.primary_dns)) (codes "invalid primary_dns") (
        guard (not (valid_ipv4 req.secondary_dns)) (codes "invalid secondary_dns") (
          guard (not (valid_ipv4 req.framed_ip_netmask)) (codes "invalid framed_ip_netmask") (
            guard (out_of_range req.mtu) (codes "invalid mtu") (
              guard (out_of_range req.mru) (codes "invalid mru") (
                guard (negative req.session_timeout) (codes "invalid session_timeout") (
                  guard (negative req.idle_timeout) (codes "invalid idle_timeout") (
                    guard (negative req.keepalive_interval) (codes "invalid keepalive_interval") (
                      guard (negative req.bandwidth_max_up || negative req.bandwidth_max_down)
                        (codes "invalid bandwidth")
                        (guard (negative req.max_total_octets) (codes "invalid max_total_octets")
                          none))))))))))

-- A test of a field that is given.
abbrev pub fails {ℓ} : {A : Type ℓ} → (A → Bool) → Option A → Bool
fails bad none = false
fails bad (some a) = bad a

unfoldable pub validate_update_pppoe_profile : UpdatePppoeProfileRequest → Option Str
validate_update_pppoe_profile req =
    guard (fails (λ s. not (valid_pppoe_profile_name s)) req.name) (codes "invalid name") (
      guard (fails (λ s. not (valid_ipv4 s)) req.primary_dns) (codes "invalid primary_dns") (
        guard (fails (λ s. not (valid_ipv4 s)) req.secondary_dns) (codes "invalid secondary_dns") (
          guard (fails (λ s. not (valid_ipv4 s)) req.framed_ip_netmask)
            (codes "invalid framed_ip_netmask")
            (guard (fails out_of_range req.mtu) (codes "invalid mtu") (
              guard (fails out_of_range req.mru) (codes "invalid mru") (
                guard (fails negative req.session_timeout) (codes "invalid session_timeout") (
                  guard (fails negative req.idle_timeout) (codes "invalid idle_timeout") (
                    guard (fails negative req.keepalive_interval)
                      (codes "invalid keepalive_interval")
                      (guard (fails negative req.bandwidth_max_up)
                        (codes "invalid bandwidth_max_up")
                        (guard (fails negative req.bandwidth_max_down)
                          (codes "invalid bandwidth_max_down")
                          (guard (fails negative req.max_total_octets)
                            (codes "invalid max_total_octets") none)))))))))))

abbrev pub given_id : Option Str → Bool
given_id none = false
given_id (some id) = not (is_empty id)

unfoldable pub validate_mutual_exclusion : Option Str → Option Str → Option Str
validate_mutual_exclusion voucher_package_id pppoe_profile_id =
    guard (given_id voucher_package_id && given_id pppoe_profile_id)
      (codes "voucher_package_id and pppoe_profile_id are mutually exclusive") none
