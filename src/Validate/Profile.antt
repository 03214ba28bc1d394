-- ===== src/Validate/Profile.antt =====
-- What a PPPoE profile satisfies that passed the checks.
use radius_go.Base.{
  ℕ, ◌≤◌, ◌≡◌, refl, sym, Bool, true, false, not, Option, none, some, or_else, length, arith,
  Option-cases, Bool-cases, inl, inr, subst,
}
use radius_go.Base.Int.{ℤ, pos, ◌≤ℤ◌}
use radius_go.Base.Text.{Str}
use radius_go.Domain.Pppoe.{PppoeProfile, CreatePppoeProfileRequest, UpdatePppoeProfileRequest}
use radius_go.Validate.{
  max_name_len, max_description_len, non_empty, valid_pppoe_profile_name, valid_ipv4, limit_string,
  negative, out_of_range, guard, fails, validate_pppoe_profile, validate_update_pppoe_profile,
}
use radius_go.PppoeProfiles.{
  row, ok, new_profile, create_profile, updated_profile, update_profile,
  handle_create_pppoe_profile, handle_update_pppoe_profile, cut_request,
}

-- The profiles that the service wants to hold.
pub record IsProfile (p : PppoeProfile) : Type 0 where
  pub name : valid_pppoe_profile_name p.name ≡ true
  pub primary_dns : valid_ipv4 p.primary_dns ≡ true
  pub secondary_dns : valid_ipv4 p.secondary_dns ≡ true
  pub framed_ip_netmask : valid_ipv4 p.framed_ip_netmask ≡ true
  pub mtu : (pos 0 ≤ℤ p.mtu) × (p.mtu ≤ℤ pos 1500)
  pub mru : (pos 0 ≤ℤ p.mru) × (p.mru ≤ℤ pos 1500)
  pub session_timeout : pos 0 ≤ℤ p.session_timeout
  pub idle_timeout : pos 0 ≤ℤ p.idle_timeout
  pub keepalive_interval : pos 0 ≤ℤ p.keepalive_interval
  pub bandwidth_max_up : pos 0 ≤ℤ p.bandwidth_max_up
  pub bandwidth_max_down : pos 0 ≤ℤ p.bandwidth_max_down
  pub max_total_octets : pos 0 ≤ℤ p.max_total_octets

-- A check that passes: its test is false and the rest passes.
guard_passes :
    (bad : Bool) (message : Str) (rest : Option Str)
    → guard bad message rest ≡ none
    → (bad ≡ false) × (rest ≡ none)
guard_passes true message rest h = absurd (cc (h))
guard_passes false message rest h = (refl, h)

validate_pppoe_profile-IsProfile :
    (id : Str) (req : CreatePppoeProfileRequest)
    → validate_pppoe_profile req ≡ none
    → IsProfile (new_profile id req)
unfolding validate_pppoe_profile
validate_pppoe_profile-IsProfile id req h = ground arith

validate_update_pppoe_profile-IsProfile :
    (req : UpdatePppoeProfileRequest) (p : PppoeProfile)
    → IsProfile p
    → validate_update_pppoe_profile req ≡ none
    → IsProfile (updated_profile req p)
unfolding validate_update_pppoe_profile
validate_update_pppoe_profile-IsProfile req p valid h =
    let (n, h1) = guard_passes _ _ _ h in
    let (d1, h2) = guard_passes _ _ _ h1 in
    let (d2, h3) = guard_passes _ _ _ h2 in
    let (mask, h4) = guard_passes _ _ _ h3 in
    let (mtu_ok, h5) = guard_passes _ _ _ h4 in
    let (mru_ok, h6) = guard_passes _ _ _ h5 in
    let (session_ok, h7) = guard_passes _ _ _ h6 in
    let (idle_ok, h8) = guard_passes _ _ _ h7 in
    let (keep_ok, h9) = guard_passes _ _ _ h8 in
    let (up_ok, h10) = guard_passes _ _ _ h9 in
    let (down_ok, h11) = guard_passes _ _ _ h10 in
    let (octets_ok, done) = guard_passes _ _ _ h11 in
    record {
      name = given_passes valid_pppoe_profile_name req.name p.name n valid.name;
      primary_dns = given_passes valid_ipv4 req.primary_dns p.primary_dns d1 valid.primary_dns;
      secondary_dns =
          given_passes valid_ipv4 req.secondary_dns p.secondary_dns d2 valid.secondary_dns;
      framed_ip_netmask =
          given_passes valid_ipv4 req.framed_ip_netmask p.framed_ip_netmask mask
            valid.framed_ip_netmask;
      mtu = in_range req.mtu p.mtu mtu_ok valid.mtu;
      mru = in_range req.mru p.mru mru_ok valid.mru;
      session_timeout =
          not_negative req.session_timeout p.session_timeout session_ok valid.session_timeout;
      idle_timeout = not_negative req.idle_timeout p.idle_timeout idle_ok valid.idle_timeout;
      keepalive_interval =
          not_negative req.keepalive_interval p.keepalive_interval keep_ok valid.keepalive_interval;
      bandwidth_max_up =
          not_negative req.bandwidth_max_up p.bandwidth_max_up up_ok valid.bandwidth_max_up;
      bandwidth_max_down =
          not_negative req.bandwidth_max_down p.bandwidth_max_down down_ok valid.bandwidth_max_down;
      max_total_octets =
          not_negative req.max_total_octets p.max_total_octets octets_ok valid.max_total_octets;
    }
  where
    given_passes :
        (test : Str → Bool) (new : Option Str) (old : Str)
        → fails (λ s. not (test s)) new ≡ false
        → test old ≡ true
        → test (or_else new old) ≡ true
    given_passes test none old n t = t
    given_passes test (some s) old n t = ground (arith, n)

    in_range :
        (new : Option ℤ) (old : ℤ)
        → fails out_of_range new ≡ false
        → (pos 0 ≤ℤ old) × (old ≤ℤ pos 1500)
        → (pos 0 ≤ℤ or_else new old) × (or_else new old ≤ℤ pos 1500)
    in_range none old n t = t
    in_range (some z) old n t = ground (arith, n)

    not_negative :
        (new : Option ℤ) (old : ℤ)
        → fails negative new ≡ false
        → pos 0 ≤ℤ old
        → pos 0 ≤ℤ or_else new old
    not_negative none old n t = t
    not_negative (some z) old n t = ground (arith, n)

limit_string_short : (s : Str) (max : ℕ) → length s ≤ max → limit_string s max ≡ s
unfolding limit_string
limit_string_short s max h = ground arith

short_name : (s : Str) → valid_pppoe_profile_name s ≡ true → length s ≤ max_name_len
unfolding valid_pppoe_profile_name
short_name s h = ground arith

described-IsProfile :
    (id d : Str) (req : CreatePppoeProfileRequest)
    → IsProfile (new_profile id req)
    → IsProfile (new_profile id (record req { description = d }))
described-IsProfile id d req h = record {
  name = h.name;
  primary_dns = h.primary_dns;
  secondary_dns = h.secondary_dns;
  framed_ip_netmask = h.framed_ip_netmask;
  mtu = h.mtu;
  mru = h.mru;
  session_timeout = h.session_timeout;
  idle_timeout = h.idle_timeout;
  keepalive_interval = h.keepalive_interval;
  bandwidth_max_up = h.bandwidth_max_up;
  bandwidth_max_down = h.bandwidth_max_down;
  max_total_octets = h.max_total_octets;
}

pub handle_create-IsProfile :
    (id : Str) (exec : PppoeProfile → Option Str) (req : CreatePppoeProfileRequest)
    (p : PppoeProfile)
    → handle_create_pppoe_profile id exec req ≡ ok p
    → IsProfile p
      × (p
          ≡ new_profile id
              (record req { description = limit_string req.description max_description_len }))
unfolding handle_create_pppoe_profile create_profile
handle_create-IsProfile id exec req p e = elim (Bool-cases (non_empty req.name)) [
  | inr blank ↦ absurd (cc (e, blank))
  | inl there ↦ elim (Option-cases (validate_pppoe_profile req)) [
    | inr (message, k) ↦ absurd (cc (e, there, k))
    | inl k ↦
        let valid = validate_pppoe_profile-IsProfile id req k in
        let d = limit_string req.description max_description_len in
        let cut : limit_string req.name max_name_len ≡ req.name =
          limit_string_short req.name max_name_len (short_name req.name valid.name) in
        elim (Option-cases (
          exec (
            new_profile id
              (record req { name = limit_string req.name max_name_len; description = d })))) [
                | inr (message, w) ↦ absurd (cc (e, there, k, w))
                | inl w ↦
                    let it : p ≡ new_profile id (record req { description = d }) =
                      cc (e, there, k, w, cut) in
                    (subst IsProfile (sym it) (described-IsProfile id d req valid), it)
              ]
  ]
]

-- HandleUpdatePPPoEProfile keeps a profile valid: what it returns for a stored valid profile passes
-- all checks of a profile, whichever fields the request gives.
pub handle_update-IsProfile :
    (p0 : PppoeProfile) (exec : PppoeProfile → Option Str) (req : UpdatePppoeProfileRequest)
    (p : PppoeProfile)
    → IsProfile p0
    → handle_update_pppoe_profile (row p0) exec req ≡ ok p
    → IsProfile p
unfolding handle_update_pppoe_profile update_profile
handle_update-IsProfile p0 exec req p valid e =
    elim (Option-cases (validate_update_pppoe_profile (cut_request req))) [
      | inr (message, k) ↦ absurd (cc (e, k))
      | inl k ↦ elim (Option-cases (exec (updated_profile (cut_request req) p0))) [
        | inr (message, w) ↦ absurd (cc (e, k, w))
        | inl w ↦
            let it : updated_profile (cut_request req) p0 ≡ p = cc (e, k, w) in
            subst IsProfile it
              (validate_update_pppoe_profile-IsProfile (cut_request req) p0 valid k)
      ]
    ]
