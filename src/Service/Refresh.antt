-- ===== src/Service/Refresh.antt =====
-- refreshFromDB of internal/radius/service.go: the tables of the service are read again from the
-- database. What the four queries return is an argument, `none` for an error.
use radius_go.Base.{false, not, Option, none, some, List, [], ◌∷◌, if◌then◌else◌, is_some, ◌>>=◌}
use radius_go.Base.Int.{ℤ, ltb_ℤ}
use radius_go.Base.Text.{Str, is_empty}
use radius_go.Base.Dict.{Dict, lookup, insert}
use radius_go.Domain.User.{RadiusUser, Nas}
use radius_go.Domain.Pppoe.{PppoeProfile}
use radius_go.Domain.Voucher.{VoucherPackage}
use radius_go.Service.{Service}

pub record Queries : Type 0 where
  pub list_users : Option (List RadiusUser)
  pub list_nas : Option (List Nas)
  pub list_profiles : Option (List PppoeProfile)
  pub list_packages : Option (List VoucherPackage)

-- `profileMap`
unfoldable pub profile_map : List PppoeProfile → Dict PppoeProfile → Dict PppoeProfile
profile_map [] m = m
profile_map (p ∷ ps) m = profile_map ps (if p.enabled then insert p.id p m else m)

-- `packageMap`
unfoldable pub package_map : List VoucherPackage → Dict VoucherPackage → Dict VoucherPackage
package_map [] m = m
package_map (p ∷ ps) m = package_map ps (insert p.id p m)

abbrev pub larger : ℤ → ℤ → ℤ
larger existing stored = if ltb_ℤ stored existing then existing else stored

-- A row of the database under the user who is in memory.
unfoldable pub preserve : Option RadiusUser → RadiusUser → RadiusUser
preserve none u = u
preserve (some existing) u = record u {
  data_bytes_used = larger existing.data_bytes_used u.data_bytes_used;
  usage_seconds_used = larger existing.usage_seconds_used u.usage_seconds_used;
  enabled = if not existing.enabled then false else u.enabled;
  first_login_at =
      if is_some existing.first_login_at then existing.first_login_at else u.first_login_at;
  expires_at = if is_some existing.expires_at then existing.expires_at else u.expires_at;
}

-- `m[*id]` where the pointer is set, the id not empty and the key there; else the old value.
unfoldable pub resolved {ℓ} : {V : Type ℓ} → Option Str → Dict V → Option V → Option V
resolved none m old = old
resolved (some id) m old =
    if is_empty id then old else elim (lookup id m) [ none ↦ old | some v ↦ some v ]

abbrev pub refreshed :
    Dict RadiusUser → Dict PppoeProfile → Dict VoucherPackage → RadiusUser → RadiusUser
refreshed before profiles packages u =
    let kept : RadiusUser = preserve (lookup u.username before) u in
    record kept {
      pppoe_profile = resolved kept.pppoe_profile_id profiles kept.pppoe_profile;
      voucher_package = resolved kept.voucher_package_id packages kept.voucher_package;
    }

-- The loop over the users, onto a table.
unfoldable pub load_users :
    Dict RadiusUser
    → Dict PppoeProfile
    → Dict VoucherPackage
    → List RadiusUser
    → Dict RadiusUser
    → Dict RadiusUser
load_users before profiles packages [] m = m
load_users before profiles packages (u ∷ us) m =
    load_users before profiles packages us
      (insert u.username (refreshed before profiles packages u) m)

unfoldable pub load_nases : List Nas → Dict Nas → Dict Nas
load_nases [] m = m
load_nases (n ∷ ns) m = load_nases ns (if n.enabled then insert n.ip_address n m else m)

-- `none` is an error of one of the queries: nothing changes then.
unfoldable pub refresh_from_db : Queries → Service → Option Service
refresh_from_db db s = do
  users ← db.list_users
  nases ← db.list_nas
  profiles ← db.list_profiles
  packages ← db.list_packages
  some (record s {
    subscribers =
        load_users s.subscribers (profile_map profiles []) (package_map packages []) users [];
    nases = load_nases nases [];
  })

-- The loop drops the error.
unfoldable pub refresh : Queries → Service → Service
refresh db s = elim (refresh_from_db db s) [ none ↦ s | some s' ↦ s' ]
