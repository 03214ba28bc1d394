-- ===== src/Repository/Users.antt =====
-- internal/radius/repository.go: the statements on radius_users.
use radius_go.Base.{
  Bool, true, false, ◌&&◌, ◌||◌, not, Option, none, some, List, [], ◌∷◌, ◌++◌, if◌then◌else◌, ◌>>=◌,
}
use radius_go.Base.Int.{ℤ, pos, ◌+ℤ◌, ◌*ℤ◌}
use radius_go.Base.Text.{Str, str_eq}
use radius_go.Domain.Pppoe.{PppoeProfile}
use radius_go.Domain.User.{RadiusUser}
use radius_go.Domain.Voucher.{TimeLimitType, time_limit_calendar}
use radius_go.PppoeProfiles.{Row, row, no_rows, failed}
use radius_go.Repository.{Postgres, Database, Statement, is_int4, is_int8, stored_uuid}
use radius_go.Repository.Table.{select, first_where, update_where, delete_where, order_by, exists}

-- The foreign key on pppoe_profiles.
abbrev pub profile_there : Option Str → List PppoeProfile → Bool
profile_there none profiles = true
profile_there (some key) profiles = exists (λ p. str_eq p.id key) profiles

-- The row that CreateUser makes.
abbrev pub inserted : ℤ → RadiusUser → Str → Option Str → Option Str → RadiusUser
inserted now user key profile pkg = record user {
  id = key;
  pppoe_profile_id = profile;
  pppoe_profile = none;
  voucher_package_id = pkg;
  voucher_package = none;
  created_at = now;
  updated_at = now;
}

-- The columns that UpdateUser sets; the first login and the expiry are not among them.
abbrev pub written : ℤ → RadiusUser → Option Str → Option Str → RadiusUser → RadiusUser
written now user profile pkg old = record user {
  id = old.id;
  pppoe_profile_id = profile;
  pppoe_profile = none;
  voucher_package_id = pkg;
  voucher_package = none;
  first_login_at = old.first_login_at;
  expires_at = old.expires_at;
  created_at = old.created_at;
  updated_at = now;
}

-- Another row has the name already.
abbrev pub name_taken : Str → Str → Database → Bool
name_taken key name db =
    exists (λ u. str_eq u.id key) db.users
    && exists (λ u. str_eq u.username name && not (str_eq u.id key)) db.users

-- The interval is a whole number of seconds; times are nanoseconds.
abbrev pub first_login : ℤ → TimeLimitType → ℤ → RadiusUser → RadiusUser
first_login now time_limit_type time_limit_seconds u =
    if not (str_eq time_limit_type time_limit_calendar)
    then record u { first_login_at = some now; updated_at = now }
    else record u {
      first_login_at = some now;
      expires_at = some (now +ℤ (time_limit_seconds *ℤ pos 1000000000));
      updated_at = now;
    }

abbrev pub used : ℤ → ℤ → ℤ → RadiusUser → RadiusUser
used now secs octets u = record u {
  usage_seconds_used = u.usage_seconds_used +ℤ secs;
  data_bytes_used = u.data_bytes_used +ℤ octets;
  updated_at = now;
}

abbrev pub out_of_range : RadiusUser → Bool
out_of_range u = not (is_int4 u.usage_seconds_used && is_int8 u.data_bytes_used)

module _ (pg : Postgres) where
  -- The types of the columns hold the values of the row.
  unfoldable pub user_fits : RadiusUser → Bool
  user_fits u =
      pg.holds_text u.username
      && pg.holds_text u.password_hash
      && pg.holds_text u.full_name
      && pg.holds_text u.email
      && is_int4 u.simultaneous_use
      && is_int4 u.session_timeout
      && is_int4 u.idle_timeout
      && pg.holds_text u.framed_ip
      && pg.holds_text u.mikrotik_group
      && pg.holds_text u.rate_limit
      && is_int4 (pos u.bandwidth_max_up)
      && is_int4 (pos u.bandwidth_max_down)
      && is_int4 (pos u.max_total_octets)
      && is_int4 u.usage_seconds_used
      && is_int8 u.data_bytes_used
      && is_int4 u.speed_upload_kbps
      && is_int4 u.speed_download_kbps
      && pg.holds_text u.voucher_time_limit_type
      && is_int4 u.voucher_time_limit_seconds
      && is_int8 u.voucher_data_cap_bytes
      && pg.holds_text u.service_type

  -- The constraints let the row in.
  abbrev pub insertable : RadiusUser → Str → Option Str → Database → Bool
  insertable user key profile db =
      user_fits user
      && not (exists (λ u. str_eq u.id key) db.users)
      && not (exists (λ u. str_eq u.username user.username) db.users)
      && profile_there profile db.profiles

  unfoldable pub create_user : ℤ → RadiusUser → Statement
  create_user now user db = do
    key ← pg.uuid user.id
    profile ← stored_uuid pg user.pppoe_profile_id
    pkg ← stored_uuid pg user.voucher_package_id
    if insertable user key profile db
        then some (record db { users = db.users ++ inserted now user key profile pkg ∷ [] })
        else none

  -- The constraints let the row be changed; without a row of the identifier they have no say.
  abbrev pub changeable : RadiusUser → Str → Option Str → Database → Bool
  changeable user key profile db =
      user_fits user
      && not (name_taken key user.username db)
      && (profile_there profile db.profiles || not (exists (λ u. str_eq u.id key) db.users))

  unfoldable pub update_user : ℤ → RadiusUser → Statement
  update_user now user db = do
    key ← pg.uuid user.id
    profile ← stored_uuid pg user.pppoe_profile_id
    pkg ← stored_uuid pg user.voucher_package_id
    if changeable user key profile db
        then some (record db {
          users = update_where (λ u. str_eq u.id key) (written now user profile pkg) db.users;
        })
        else none

  unfoldable pub get_user_by_id : Str → Database → Row RadiusUser
  get_user_by_id id db = elim (pg.uuid id) [
    | none ↦ failed []
    | some key ↦ elim (first_where (λ u. str_eq u.id key) db.users) [
      | none ↦ no_rows
      | some u ↦ row u
    ]
  ]

  unfoldable pub get_user_by_username : Str → Database → Row RadiusUser
  get_user_by_username name db = elim (first_where (λ u. str_eq u.username name) db.users) [
    | none ↦ no_rows
    | some u ↦ row u
  ]

  unfoldable pub delete_user : Str → Statement
  delete_user id db = do
    key ← pg.uuid id
    some (record db { users = delete_where (λ u. str_eq u.id key) db.users })

  unfoldable pub list_users : Database → List RadiusUser
  list_users db = order_by (λ a b. pg.collate a.username b.username) db.users

  unfoldable pub list_voucher_users : Database → List RadiusUser
  list_voucher_users db =
      order_by (λ a b. pg.collate a.username b.username) (select (λ u. u.is_voucher) db.users)

  -- `UPDATE radius_users SET … WHERE id=$1`
  abbrev pub set_user : Str → (RadiusUser → RadiusUser) → Statement
  set_user id f db = do
    key ← pg.uuid id
    some (record db { users = update_where (λ u. str_eq u.id key) f db.users })

  unfoldable pub record_first_login : ℤ → Str → TimeLimitType → ℤ → Statement
  record_first_login now id time_limit_type time_limit_seconds =
      set_user id (first_login now time_limit_type time_limit_seconds)

  -- A sum that its column does not hold is an error, and no row changes.
  unfoldable pub add_usage_delta : ℤ → Str → ℤ → ℤ → Statement
  add_usage_delta now id secs octets db = do
    key ← pg.uuid id
    if is_int4 secs
          && not (exists (λ u. str_eq u.id key && out_of_range (used now secs octets u)) db.users)
        then set_user id (used now secs octets) db
        else none

  unfoldable pub disable_user : ℤ → Str → Statement
  disable_user now id = set_user id (λ u. record u { enabled = false; updated_at = now })
