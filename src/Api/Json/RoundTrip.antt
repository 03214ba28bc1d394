-- ===== src/Api/Json/RoundTrip.antt =====
-- What the server reads of a request that the client wrote.
use mathlib.Core.Option
use radius_go.Base.{ℕ, ◌^◌, ◌<◌, ◌≡◌, refl, ap, ◌∙◌, Bool, Option, none, some, [], ◌∷◌, arith}
use radius_go.Base.Int.{ℤ, IsInt64}
use radius_go.Base.Text.{Str, codes, str_eq, str_eq_iff}
use radius_go.Base.Dict.{Dict, lookup, IsMap}
use radius_go.Domain.User.{UpdateUserRequest}
use radius_go.Api.Json.{
  Json, written_fields, omit_empty, omit_nil_text, omit_nil_int, omit_nil_uint32, omit_nil_bool,
  read_string, read_string_pointer, read_int_pointer, read_uint32_pointer, read_bool_pointer,
  update_subscriber_fields, read_update_user,
}

absent-written_fields :
    (k : Str) (m : Dict (Option Json)) → lookup k m ≡ none → lookup k (written_fields m) ≡ none
unfolding lookup written_fields
absent-written_fields k [] e = refl
absent-written_fields k ((j, none) ∷ m) e = ground (arith, e, absent-written_fields k m)
absent-written_fields k ((j, some v) ∷ m) e = ground (arith, e, absent-written_fields k m)

-- The member of a field's name is the value that was written for it.
lookup-written_fields :
    (k : Str) (m : Dict (Option Json)) (o : Option Json)
    → IsMap m
    → lookup k m ≡ some o
    → lookup k (written_fields m) ≡ o
unfolding lookup written_fields
lookup-written_fields k [] o h e = absurd (cc (e))
lookup-written_fields k ((j, none) ∷ m) o h e =
    ground
      (arith, e, h.0, str_eq_iff j k, absent-written_fields j m, lookup-written_fields k m o h.1)
lookup-written_fields k ((j, some v) ∷ m) o h e = ground (arith, e, lookup-written_fields k m o h.1)

read_string-omit_empty :
    (utf8 : Str → Str) (s : Str) → utf8 s ≡ s → read_string (omit_empty utf8 s) ≡ some s
unfolding read_string omit_empty
read_string-omit_empty utf8 [] e = refl
read_string-omit_empty utf8 (c ∷ s) e = ap some e

read_string_pointer-omit_nil_text :
    (utf8 : Str → Str) (o : Option Str)
    → Option.map utf8 o ≡ o
    → read_string_pointer (omit_nil_text utf8 o) ≡ some o
unfolding read_string_pointer omit_nil_text
read_string_pointer-omit_nil_text utf8 none e = refl
read_string_pointer-omit_nil_text utf8 (some s) e = ap some e

abbrev pub HasInt : Option ℤ → Type 0
HasInt none = Unit {0}
HasInt (some z) = IsInt64 z

abbrev pub HasUint32 : Option ℕ → Type 0
HasUint32 none = Unit {0}
HasUint32 (some n) = n < 2 ^ 32

read_int_pointer-omit_nil_int :
    (o : Option ℤ) → HasInt o → read_int_pointer (omit_nil_int o) ≡ some o
unfolding read_int_pointer omit_nil_int
read_int_pointer-omit_nil_int none h = refl
read_int_pointer-omit_nil_int (some z) h = ground (arith, h.0, h.1)

read_uint32_pointer-omit_nil_uint32 :
    (o : Option ℕ) → HasUint32 o → read_uint32_pointer (omit_nil_uint32 o) ≡ some o
unfolding read_uint32_pointer omit_nil_uint32
read_uint32_pointer-omit_nil_uint32 none h = refl
read_uint32_pointer-omit_nil_uint32 (some n) h = ground (arith, h)

read_bool_pointer-omit_nil_bool : (o : Option Bool) → read_bool_pointer (omit_nil_bool o) ≡ some o
unfolding read_bool_pointer omit_nil_bool
read_bool_pointer-omit_nil_bool none = refl
read_bool_pointer-omit_nil_bool (some b) = refl

-- The texts of the request are UTF-8, and its numbers fit their types.
pub record IsSendable (utf8 : Str → Str) (r : UpdateUserRequest) : Type 0 where
  pub username : utf8 r.username ≡ r.username
  pub password : utf8 r.password ≡ r.password
  pub full_name : utf8 r.full_name ≡ r.full_name
  pub email : utf8 r.email ≡ r.email
  pub simultaneous_use : HasInt r.simultaneous_use
  pub session_timeout : HasInt r.session_timeout
  pub idle_timeout : HasInt r.idle_timeout
  pub framed_ip : utf8 r.framed_ip ≡ r.framed_ip
  pub mikrotik_group : utf8 r.mikrotik_group ≡ r.mikrotik_group
  pub rate_limit : utf8 r.rate_limit ≡ r.rate_limit
  pub bandwidth_max_up : HasUint32 r.bandwidth_max_up
  pub bandwidth_max_down : HasUint32 r.bandwidth_max_down
  pub max_total_octets : HasUint32 r.max_total_octets
  pub service_type : utf8 r.service_type ≡ r.service_type
  pub pppoe_profile_id : Option.map utf8 r.pppoe_profile_id ≡ r.pppoe_profile_id

module _ (utf8 : Str → Str) (r : UpdateUserRequest) (h : IsSendable utf8 r) where
  abbrev fields : Dict (Option Json)
  fields = update_subscriber_fields utf8 r

  names_once : IsMap fields
  unfolding lookup str_eq
  names_once = (
    refl,
    (
      refl,
      (
        refl,
        (
          refl,
          (
            refl,
            (
              refl,
              (refl, (refl, (refl, (refl, (refl, (refl, (refl, (refl, (refl, (refl, tt)))))))))),
            ),
          ),
        ),
      ),
    ),
  )

  at :
      {B : Type 0} (read : Option Json → Option B) (b : B) (k : Str) (o : Option Json)
      → lookup k fields ≡ some o
      → read o ≡ some b
      → read (lookup k (written_fields fields)) ≡ some b
  at read b k o e is = ap read (lookup-written_fields k fields o names_once e) ∙ is

  text_at :
      (k s : Str)
      → utf8 s ≡ s
      → lookup k fields ≡ some (omit_empty utf8 s)
      → read_string (lookup k (written_fields fields)) ≡ some s
  text_at k s good e = at read_string s k (omit_empty utf8 s) e (read_string-omit_empty utf8 s good)

  int_at :
      (k : Str) (o : Option ℤ)
      → HasInt o
      → lookup k fields ≡ some (omit_nil_int o)
      → read_int_pointer (lookup k (written_fields fields)) ≡ some o
  int_at k o good e =
      at read_int_pointer o k (omit_nil_int o) e (read_int_pointer-omit_nil_int o good)

  uint32_at :
      (k : Str) (o : Option ℕ)
      → HasUint32 o
      → lookup k fields ≡ some (omit_nil_uint32 o)
      → read_uint32_pointer (lookup k (written_fields fields)) ≡ some o
  uint32_at k o good e =
      at read_uint32_pointer o k (omit_nil_uint32 o) e (read_uint32_pointer-omit_nil_uint32 o good)

  -- The server reads of a PUT of a subscriber what the client was asked to send: also which fields
  -- are to stay as they are, and that a profile is to be taken away.
  pub read_update_user-update_subscriber_fields :
      read_update_user (written_fields (update_subscriber_fields utf8 r)) ≡ some r
  unfolding read_update_user lookup str_eq
  read_update_user-update_subscriber_fields =
      rw
        (
          text_at (codes "username") r.username h.username refl,
          text_at (codes "password") r.password h.password refl,
          text_at (codes "full_name") r.full_name h.full_name refl,
          text_at (codes "email") r.email h.email refl,
          at read_bool_pointer r.enabled (codes "enabled") (omit_nil_bool r.enabled) refl
              (read_bool_pointer-omit_nil_bool r.enabled),
          int_at (codes "simultaneous_use") r.simultaneous_use h.simultaneous_use refl,
          int_at (codes "session_timeout") r.session_timeout h.session_timeout refl,
          int_at (codes "idle_timeout") r.idle_timeout h.idle_timeout refl,
          text_at (codes "framed_ip") r.framed_ip h.framed_ip refl,
          text_at (codes "mikrotik_group") r.mikrotik_group h.mikrotik_group refl,
          text_at (codes "rate_limit") r.rate_limit h.rate_limit refl,
          uint32_at (codes "bandwidth_max_up") r.bandwidth_max_up h.bandwidth_max_up refl,
          uint32_at (codes "bandwidth_max_down") r.bandwidth_max_down h.bandwidth_max_down refl,
          uint32_at (codes "max_total_octets") r.max_total_octets h.max_total_octets refl,
          text_at (codes "service_type") r.service_type h.service_type refl,
          at read_string_pointer r.pppoe_profile_id (codes "pppoe_profile_id")
              (omit_nil_text utf8 r.pppoe_profile_id) refl
              (read_string_pointer-omit_nil_text utf8 r.pppoe_profile_id h.pppoe_profile_id),
        )
        refl
