-- ===== src/Repository/Profiles.antt =====
-- internal/radius/repository.go: the statements on pppoe_profiles, which radius_users refers to.
use radius_go.Base.{Bool, true, ◌&&◌, not, none, some, List, [], ◌∷◌, ◌++◌, if◌then◌else◌, ◌>>=◌}
use radius_go.Base.Int.{ℤ}
use radius_go.Base.Text.{Str, str_eq}
use radius_go.Domain.Pppoe.{PppoeProfile}
use radius_go.Domain.User.{RadiusUser}
use radius_go.PppoeProfiles.{Row, row, no_rows, failed}
use radius_go.Repository.{Postgres, Database, Statement, is_int4, is_int8}
use radius_go.Repository.Table.{first_where, update_where, delete_where, order_by, exists}

abbrev pub replaced : ℤ → PppoeProfile → PppoeProfile → PppoeProfile
replaced now p old = record p { id = old.id; created_at = old.created_at; updated_at = now }

-- `ON DELETE SET NULL`
abbrev pub unassigned : Str → RadiusUser → RadiusUser
unassigned key u = elim u.pppoe_profile_id [
  | none ↦ u
  | some id ↦ if str_eq id key then record u { pppoe_profile_id = none } else u
]

abbrev pub profile_name_taken : Str → Str → Database → Bool
profile_name_taken key name db =
    exists (λ q. str_eq q.id key) db.profiles
    && exists (λ q. str_eq q.name name && not (str_eq q.id key)) db.profiles

module _ (pg : Postgres) where
  -- The types of the columns hold the values of the row.
  unfoldable pub profile_fits : PppoeProfile → Bool
  profile_fits p =
      pg.holds_text p.name
      && pg.holds_text p.description
      && pg.holds_text p.framed_ip_pool
      && pg.holds_text p.framed_ip_netmask
      && pg.holds_text p.primary_dns
      && pg.holds_text p.secondary_dns
      && is_int4 p.mtu
      && is_int4 p.mru
      && is_int4 p.keepalive_interval
      && pg.holds_text p.rate_limit
      && is_int4 p.bandwidth_max_up
      && is_int4 p.bandwidth_max_down
      && is_int4 p.session_timeout
      && is_int4 p.idle_timeout
      && is_int8 p.max_total_octets

  unfoldable pub create_pppoe_profile : ℤ → PppoeProfile → Statement
  create_pppoe_profile now p db = do
    key ← pg.uuid p.id
    if profile_fits p
          && not (exists (λ q. str_eq q.id key) db.profiles)
          && not (exists (λ q. str_eq q.name p.name) db.profiles)
        then some (record db {
          profiles = db.profiles ++ record p { id = key; created_at = now; updated_at = now } ∷ [];
        })
        else none

  unfoldable pub update_pppoe_profile : ℤ → PppoeProfile → Statement
  update_pppoe_profile now p db = do
    key ← pg.uuid p.id
    if profile_fits p && not (profile_name_taken key p.name db)
        then some (record db {
          profiles = update_where (λ q. str_eq q.id key) (replaced now p) db.profiles;
        })
        else none

  unfoldable pub delete_pppoe_profile : Str → Statement
  delete_pppoe_profile id db = do
    key ← pg.uuid id
    some (record db {
      profiles = delete_where (λ p. str_eq p.id key) db.profiles;
      users = update_where (λ u. true) (unassigned key) db.users;
    })

  unfoldable pub get_pppoe_profile : Str → Database → Row PppoeProfile
  get_pppoe_profile id db = elim (pg.uuid id) [
    | none ↦ failed []
    | some key ↦ elim (first_where (λ p. str_eq p.id key) db.profiles) [
      | none ↦ no_rows
      | some p ↦ row p
    ]
  ]

  unfoldable pub list_pppoe_profiles : Database → List PppoeProfile
  list_pppoe_profiles db = order_by (λ a b. pg.collate a.name b.name) db.profiles
