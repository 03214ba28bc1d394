-- ===== src/Handlers/Subscribers.antt =====
-- internal/radius/subscriber_handlers.go: HandleCreateSubscriber, HandleUpdateSubscriber and
-- HandleDeleteSubscriber.
pub mod Accepted
pub mod Stale
pub mod Passwords
use radius_go.Base.{
  ℕ, Bool, true, false, ◌&&◌, ◌||◌, not, Option, none, some, ◌++◌, if◌then◌else◌, or_else, length,
  leb,
}
use radius_go.Base.Int.{pos}
use radius_go.Base.Text.{Str, codes, is_empty, str_eq}
use radius_go.Domain.User.{
  RadiusUser, CreateUserRequest, UpdateUserRequest, service_type_framed, service_type_login,
  subscriber_from_user,
}
use radius_go.PppoeProfiles.{Row, row, no_rows, failed, validate_assignment}
use radius_go.Repository.{Database}
use radius_go.Repository.Users.{create_user, get_user_by_id, update_user, delete_user}
use radius_go.Repository.Profiles.{get_pppoe_profile}
use radius_go.Validate.{
  non_empty, limit_string, max_name_len, max_username_len, max_password_len, max_ip_len,
  max_group_len, max_rate_limit_len, valid_email, valid_service_type, validate_mutual_exclusion,
}
use radius_go.Handlers.{
  Libraries, Link, Handled, subscriber, deleted, ok, created, fail, respond, require, bind, perform,
  fetch, finish, not_found, db_error, bad_request,
}
use radius_go.Handlers.Nases.{given_or}

-- What GetPPPoEProfile gives: it wraps the error of the query, `pgx.ErrNoRows` too.
abbrev pub wrapped {ℓ} : {A : Type ℓ} → Row A → Row A
wrapped (row a) = row a
wrapped no_rows = failed (codes "repo: scan pppoe profile: no rows in result set")
wrapped (failed e) = failed (codes "repo: scan pppoe profile: " ++ e)

abbrev pub new_subscriber : Str → Str → Option Str → CreateUserRequest → RadiusUser
new_subscriber id hash profile req = record {
  id = id;
  username = req.username;
  password_hash = hash;
  full_name = limit_string req.full_name max_name_len;
  email = req.email;
  enabled = true;
  simultaneous_use = req.simultaneous_use;
  session_timeout = req.session_timeout;
  idle_timeout = req.idle_timeout;
  framed_ip = limit_string req.framed_ip max_ip_len;
  mikrotik_group = limit_string req.mikrotik_group max_group_len;
  rate_limit = limit_string req.rate_limit max_rate_limit_len;
  bandwidth_max_up = req.bandwidth_max_up;
  bandwidth_max_down = req.bandwidth_max_down;
  max_total_octets = req.max_total_octets;
  service_type =
      if str_eq req.service_type service_type_login
      then service_type_login
      else service_type_framed;
  pppoe_profile_id = profile;
  pppoe_profile = none;
  voucher_package_id = none;
  voucher_package = none;
  is_voucher = false;
  first_login_at = none;
  expires_at = none;
  usage_seconds_used = pos 0;
  data_bytes_used = pos 0;
  speed_upload_kbps = pos 0;
  speed_download_kbps = pos 0;
  voucher_time_limit_type = codes "";
  voucher_time_limit_seconds = pos 0;
  voucher_data_cap_bytes = pos 0;
  created_at = pos 0;
  updated_at = pos 0;
}

-- The fields of the request that are given; the password is hashed already.
abbrev pub changed_user : UpdateUserRequest → Str → RadiusUser → RadiusUser
changed_user req hash u = record u {
  username = given_or req.username u.username;
  password_hash = hash;
  full_name = given_or (limit_string req.full_name max_name_len) u.full_name;
  email = given_or req.email u.email;
  enabled = or_else req.enabled u.enabled;
  simultaneous_use = or_else req.simultaneous_use u.simultaneous_use;
  session_timeout = or_else req.session_timeout u.session_timeout;
  idle_timeout = or_else req.idle_timeout u.idle_timeout;
  framed_ip = given_or (limit_string req.framed_ip max_ip_len) u.framed_ip;
  mikrotik_group = given_or (limit_string req.mikrotik_group max_group_len) u.mikrotik_group;
  rate_limit = given_or (limit_string req.rate_limit max_rate_limit_len) u.rate_limit;
  bandwidth_max_up = or_else req.bandwidth_max_up u.bandwidth_max_up;
  bandwidth_max_down = or_else req.bandwidth_max_down u.bandwidth_max_down;
  max_total_octets = or_else req.max_total_octets u.max_total_octets;
  service_type =
      if str_eq req.service_type service_type_login || str_eq req.service_type service_type_framed
      then req.service_type
      else u.service_type;
}

module _ (lib : Libraries) (link : Link) where
  -- ValidateAssignment, with the statement of the given number.
  abbrev pub assignment : ℕ → Str → Database → Option Str
  assignment k id db =
      validate_assignment id (wrapped (fetch link k (get_pppoe_profile lib.pg id) db))

  -- The end of the creation: the password is hashed and the row is written.
  unfoldable pub store_subscriber : Str → CreateUserRequest → Option Str → Database → Handled
  store_subscriber id req profile db = elim (lib.hash req.password) [
    | none ↦ respond db (fail 500 (codes "hash_error") (codes "password hashing failed"))
    | some hash ↦
        finish
          (perform link 1 (λ now. create_user lib.pg now (new_subscriber id hash profile req)) db)
          (codes "create user failed")
          (created (subscriber (subscriber_from_user (new_subscriber id hash profile req))))
  ]

  -- The profile of the request, if it names one.
  unfoldable pub choose_profile : Str → CreateUserRequest → Database → Handled
  unfolding store_subscriber
  choose_profile id req db =
      if is_empty req.pppoe_profile_id
      then store_subscriber id req none db
      else require db (lib.valid_uuid req.pppoe_profile_id) (codes "invalid pppoe_profile_id") (
          let db' = link.before 0 db in
          elim (assignment 0 req.pppoe_profile_id db) [
            | some message ↦ bad_request db' message
            | none ↦ store_subscriber id req (some req.pppoe_profile_id) db'
          ])

  unfoldable pub handle_create_subscriber : Str → Option CreateUserRequest → Database → Handled
  unfolding choose_profile
  handle_create_subscriber id body db = bind db body (λ req.
      require db (non_empty req.username && not (is_empty req.password))
        (codes "username and password are required")
        (require db (leb (length req.username) max_username_len) (codes "username too long") (
          require db (leb (length req.password) max_password_len) (codes "password too long") (
            require db (valid_email lib.parse_address req.email) (codes "invalid email") (
              require db (valid_service_type req.service_type) (codes "invalid service_type")
                (choose_profile id req db))))))

  unfoldable pub write_subscriber : RadiusUser → Database → Handled
  write_subscriber user db =
      finish (perform link 2 (λ now. update_user lib.pg now user) db) (codes "update user failed")
        (ok (subscriber (subscriber_from_user user)))

  -- The profile of the request: none given, an empty one, or one to be checked.
  unfoldable pub change_profile : Option Str → RadiusUser → Database → Handled
  unfolding write_subscriber
  change_profile none user db = write_subscriber user db
  change_profile (some id) user db =
      if is_empty id
      then write_subscriber (record user { pppoe_profile_id = none }) db
      else require db (lib.valid_uuid id) (codes "invalid pppoe_profile_id")
          (elim (validate_mutual_exclusion user.voucher_package_id (some id)) [
            | some message ↦ bad_request db message
            | none ↦
                let db' = link.before 1 db in
                elim (assignment 1 id db) [
                  | some message ↦ bad_request db' message
                  | none ↦ write_subscriber (record user { pppoe_profile_id = some id }) db'
                ]
          ])

  unfoldable pub change_subscriber : UpdateUserRequest → RadiusUser → Database → Handled
  unfolding change_profile
  change_subscriber req existing db =
      elim (if is_empty req.password then some existing.password_hash else lib.hash req.password) [
        | none ↦ respond db (fail 500 (codes "hash_error") (codes "password hashing failed"))
        | some hash ↦ change_profile req.pppoe_profile_id (changed_user req hash existing) db
      ]

  unfoldable pub handle_update_subscriber : Str → Option UpdateUserRequest → Database → Handled
  unfolding change_subscriber
  handle_update_subscriber id body db = require db (lib.valid_uuid id) (codes "invalid id") (
      bind db body (λ req.
        require db
          (is_empty req.username
            || (non_empty req.username && leb (length req.username) max_username_len))
          (codes "invalid username")
          (require db (leb (length req.password) max_password_len) (codes "password too long") (
            require db (valid_email lib.parse_address req.email) (codes "invalid email") (
              require db (valid_service_type req.service_type) (codes "invalid service_type") (
                let db' = link.before 0 db in
                elim (fetch link 0 (get_user_by_id lib.pg id) db) [
                  | no_rows ↦ not_found db' (codes "user not found")
                  | failed e ↦ db_error db' (codes "get user failed")
                  | row existing ↦ change_subscriber req existing db'
                ]))))))

  unfoldable pub handle_delete_subscriber : Str → Database → Handled
  handle_delete_subscriber id db = require db (lib.valid_uuid id) (codes "invalid id") (
      finish (perform link 0 (λ now. delete_user lib.pg id) db) (codes "delete user failed")
        (ok (deleted id)))
