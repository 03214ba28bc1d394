-- ===== src/Api/Json.antt =====
-- The bodies of requests between internal/radiusctl/types.go and internal/domain/domain.go, as
-- encoding/json writes and reads them: the members of an object, by the tags of the fields.
pub mod RoundTrip
use radius_go.Base.{
  ℕ, ◌^◌, Bool, true, false, ◌&&◌, Option, none, some, List, [], ◌∷◌, if◌then◌else◌, ltb, leb,
  ◌>>=◌,
}
use radius_go.Base.Int.{ℤ, pos, negsuc, pos_part, neg_part}
use radius_go.Base.Text.{Str, codes, is_empty}
use radius_go.Base.Dict.{Dict, lookup}
use radius_go.Domain.User.{UpdateUserRequest}
use radius_go.Domain.Session.{CoaChangeRequest}

-- The values of the fields that requests have.
pub data Json : Type 0 where
  text : Str → Json
  number : ℤ → Json
  truth : Bool → Json

-- Fields in their order, with the value that is written or none (`omitempty`).
unfoldable pub written_fields : Dict (Option Json) → Dict Json
written_fields [] = []
written_fields ((k, none) ∷ m) = written_fields m
written_fields ((k, some v) ∷ m) = (k, v) ∷ written_fields m

-- What json.Marshal writes of a field; bytes that are no UTF-8 are replaced, by `utf8`.
module _ (utf8 : Str → Str) where
  unfoldable pub omit_empty : Str → Option Json
  omit_empty s = if is_empty s then none else some (text (utf8 s))

  unfoldable pub omit_nil_text : Option Str → Option Json
  omit_nil_text none = none
  omit_nil_text (some s) = some (text (utf8 s))

unfoldable pub omit_nil_int : Option ℤ → Option Json
omit_nil_int none = none
omit_nil_int (some z) = some (number z)

unfoldable pub omit_nil_uint32 : Option ℕ → Option Json
omit_nil_uint32 none = none
omit_nil_uint32 (some n) = some (number (pos n))

unfoldable pub omit_nil_bool : Option Bool → Option Json
omit_nil_bool none = none
omit_nil_bool (some b) = some (truth b)

-- What json.Unmarshal reads into a field of each type, by the member of its name; `none` for an error.
unfoldable pub read_string : Option Json → Option Str
read_string none = some []
read_string (some (text s)) = some s
read_string (some _) = none

unfoldable pub read_string_pointer : Option Json → Option (Option Str)
read_string_pointer none = some none
read_string_pointer (some (text s)) = some (some s)
read_string_pointer (some _) = none

unfoldable pub read_int_pointer : Option Json → Option (Option ℤ)
read_int_pointer none = some none
read_int_pointer (some (number z)) =
    if ltb (pos_part z) (2 ^ 63) && leb (neg_part z) (2 ^ 63) then some (some z) else none
read_int_pointer (some _) = none

unfoldable pub read_uint32_pointer : Option Json → Option (Option ℕ)
read_uint32_pointer none = some none
read_uint32_pointer (some (number (pos n))) = if ltb n (2 ^ 32) then some (some n) else none
read_uint32_pointer (some _) = none

unfoldable pub read_bool_pointer : Option Json → Option (Option Bool)
read_bool_pointer none = some none
read_bool_pointer (some (truth b)) = some (some b)
read_bool_pointer (some _) = none

-- UpdateSubscriberRequest of the client; its fields are those of UpdateUserRequest.
abbrev pub update_subscriber_fields : (Str → Str) → UpdateUserRequest → Dict (Option Json)
update_subscriber_fields utf8 r =
    (codes "username", omit_empty utf8 r.username)
    ∷ (codes "password", omit_empty utf8 r.password)
    ∷ (codes "full_name", omit_empty utf8 r.full_name)
    ∷ (codes "email", omit_empty utf8 r.email)
    ∷ (codes "enabled", omit_nil_bool r.enabled)
    ∷ (codes "simultaneous_use", omit_nil_int r.simultaneous_use)
    ∷ (codes "session_timeout", omit_nil_int r.session_timeout)
    ∷ (codes "idle_timeout", omit_nil_int r.idle_timeout)
    ∷ (codes "framed_ip", omit_empty utf8 r.framed_ip)
    ∷ (codes "mikrotik_group", omit_empty utf8 r.mikrotik_group)
    ∷ (codes "rate_limit", omit_empty utf8 r.rate_limit)
    ∷ (codes "bandwidth_max_up", omit_nil_uint32 r.bandwidth_max_up)
    ∷ (codes "bandwidth_max_down", omit_nil_uint32 r.bandwidth_max_down)
    ∷ (codes "max_total_octets", omit_nil_uint32 r.max_total_octets)
    ∷ (codes "service_type", omit_empty utf8 r.service_type)
    ∷ (codes "pppoe_profile_id", omit_nil_text utf8 r.pppoe_profile_id)
    ∷ []

-- UpdateUserRequest of the server.
unfoldable pub read_update_user : Dict Json → Option UpdateUserRequest
read_update_user o = do
  username ← read_string (lookup (codes "username") o)
  password ← read_string (lookup (codes "password") o)
  full_name ← read_string (lookup (codes "full_name") o)
  email ← read_string (lookup (codes "email") o)
  enabled ← read_bool_pointer (lookup (codes "enabled") o)
  simultaneous_use ← read_int_pointer (lookup (codes "simultaneous_use") o)
  session_timeout ← read_int_pointer (lookup (codes "session_timeout") o)
  idle_timeout ← read_int_pointer (lookup (codes "idle_timeout") o)
  framed_ip ← read_string (lookup (codes "framed_ip") o)
  mikrotik_group ← read_string (lookup (codes "mikrotik_group") o)
  rate_limit ← read_string (lookup (codes "rate_limit") o)
  bandwidth_max_up ← read_uint32_pointer (lookup (codes "bandwidth_max_up") o)
  bandwidth_max_down ← read_uint32_pointer (lookup (codes "bandwidth_max_down") o)
  max_total_octets ← read_uint32_pointer (lookup (codes "max_total_octets") o)
  service_type ← read_string (lookup (codes "service_type") o)
  pppoe_profile_id ← read_string_pointer (lookup (codes "pppoe_profile_id") o)
  some (record {
    username = username;
    password = password;
    full_name = full_name;
    email = email;
    enabled = enabled;
    simultaneous_use = simultaneous_use;
    session_timeout = session_timeout;
    idle_timeout = idle_timeout;
    framed_ip = framed_ip;
    mikrotik_group = mikrotik_group;
    rate_limit = rate_limit;
    bandwidth_max_up = bandwidth_max_up;
    bandwidth_max_down = bandwidth_max_down;
    max_total_octets = max_total_octets;
    service_type = service_type;
    pppoe_profile_id = pppoe_profile_id;
  })
