-- ===== src/Auth/Effective.antt =====
-- The settings of a reply: a user's own value, else the one of the PPPoE profile (auth.go).
use radius_go.Base.{ℕ, ◌/◌, ◌-◌, ◌^◌, ◌&&◌, none, some, [], ◌++◌, ◌==◌, ltb, if◌then◌else◌, not}
use radius_go.Base.Int.{ℤ, pos, pos_part, ltb_ℤ, leb_ℤ, u32}
use radius_go.Base.Text.{Str, codes, is_empty}
use radius_go.Domain.Pppoe.{PppoeProfile}
use radius_go.Domain.User.{RadiusUser}
use radius_go.Strconv.{format_int}

unfoldable pub format_kbps : ℤ → Str
format_kbps kbps =
    if leb_ℤ kbps (pos 0)
    then codes "0K"
    else if leb_ℤ (pos 1000000) kbps
    then format_int (pos (pos_part kbps / 1000)) ++ codes "M"
    else format_int kbps ++ codes "K"

unfoldable pub format_bandwidth_kbps : ℤ → ℤ → Str
format_bandwidth_kbps up down =
    if leb_ℤ up (pos 0) && leb_ℤ down (pos 0)
    then []
    else format_kbps up ++ codes "/" ++ format_kbps down

unfoldable pub format_rate_limit : RadiusUser → Str
format_rate_limit u =
    if leb_ℤ u.speed_upload_kbps (pos 0) && leb_ℤ u.speed_download_kbps (pos 0)
    then []
    else format_kbps u.speed_upload_kbps ++ codes "/" ++ format_kbps u.speed_download_kbps

profile_rate_limit : PppoeProfile → Str
profile_rate_limit profile =
    if not (is_empty profile.rate_limit)
    then profile.rate_limit
    else let rl = format_bandwidth_kbps profile.bandwidth_max_up profile.bandwidth_max_down in
      if not (is_empty rl) then rl else []

unfoldable pub effective_rate_limit : RadiusUser → Str
unfolding profile_rate_limit
effective_rate_limit user =
    if not (is_empty user.rate_limit)
    then user.rate_limit
    else let rl = format_rate_limit user in
      if not (is_empty rl)
      then rl
      else elim user.pppoe_profile [ none ↦ [] | some profile ↦ profile_rate_limit profile ]

unfoldable pub effective_bandwidth : RadiusUser → ℕ × ℕ
effective_bandwidth user = elim user.pppoe_profile [
  | none ↦ (user.bandwidth_max_up, user.bandwidth_max_down)
  | some profile ↦ (
    if (user.bandwidth_max_up == 0) && ltb_ℤ (pos 0) profile.bandwidth_max_up
        then u32 profile.bandwidth_max_up
        else user.bandwidth_max_up,
    if (user.bandwidth_max_down == 0) && ltb_ℤ (pos 0) profile.bandwidth_max_down
        then u32 profile.bandwidth_max_down
        else user.bandwidth_max_down,
  )
]

abbrev pub max_uint32 : ℕ
max_uint32 = 2 ^ 32 - 1

unfoldable pub effective_max_total_octets : RadiusUser → ℕ
effective_max_total_octets user =
    if ltb 0 user.max_total_octets then user.max_total_octets else elim user.pppoe_profile [
      | none ↦ 0
      | some profile ↦
          if ltb_ℤ (pos 0) profile.max_total_octets
          then if ltb_ℤ (pos max_uint32) profile.max_total_octets
            then max_uint32
            else u32 profile.max_total_octets
          else 0
    ]

unfoldable pub effective_session_timeout : RadiusUser → ℤ
effective_session_timeout user =
    if ltb_ℤ (pos 0) user.session_timeout then user.session_timeout else elim user.pppoe_profile [
      | none ↦ pos 0
      | some profile ↦
          if ltb_ℤ (pos 0) profile.session_timeout then profile.session_timeout else pos 0
    ]

unfoldable pub effective_idle_timeout : RadiusUser → ℤ
effective_idle_timeout user =
    if ltb_ℤ (pos 0) user.idle_timeout then user.idle_timeout else elim user.pppoe_profile [
      | none ↦ pos 0
      | some profile ↦ if ltb_ℤ (pos 0) profile.idle_timeout then profile.idle_timeout else pos 0
    ]
