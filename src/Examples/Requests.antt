-- ===== src/Examples/Requests.antt =====
-- The theorems on the management interface, applied.
use radius_go.Api.Json.{written_fields, update_subscriber_fields, read_update_user}
use radius_go.Api.Json.RoundTrip.{IsSendable, read_update_user-update_subscriber_fields}
use radius_go.Repository.{query}
use radius_go.Handlers.{fetched}
use radius_go.Repository.{is_int8}
use radius_go.Repository.{is_int4}
use radius_go.Repository.Users.{user_fits}
use radius_go.Validate.Blank.{is_blank}
use radius_go.Base.{ap, ◌≡◌, refl, true, false, none, some, List, [], ◌∷◌, Option, arith, ◌++◌}
use radius_go.Base.Int.{pos}
use radius_go.Base.Text.{Str, codes, str_eq}
use radius_go.Base.Dict.{lookup}
use radius_go.Domain.User.{RadiusUser, CreateUserRequest, UpdateUserRequest}
use radius_go.Packet.Reference.{reference, reference_laws}
use radius_go.Packet.Authenticator.{add_message_authenticator}
use radius_go.Auth.Reply.{accept_packet}
use radius_go.Auth.Decision.{AuthRequest, password_matches, handle_auth}
use radius_go.Auth.Admission.{is_accept, encodes}
use radius_go.PppoeProfiles.{row}
use radius_go.Repository.{exec}
use radius_go.Repository.Table.{first_where, update_where}
use radius_go.Repository.Users.{create_user, get_user_by_id, list_users, update_user}
use radius_go.Service.Refresh.{refresh}
use radius_go.Validate.{non_empty, valid_email, valid_service_type, limit_string}
use radius_go.Handlers.{fetch}
use radius_go.Handlers.Refused.{is_failure}
use radius_go.Handlers.Subscribers.{handle_create_subscriber, handle_update_subscriber}
use radius_go.Handlers.Subscribers.Accepted.{answers, created_row, created_subscriber_logs_in}
use radius_go.Handlers.Subscribers.Stale.{handle_update_subscriber-usage}
use radius_go.Api.{Headers, Method, Route, Router, matches, split_path, handled, dispatch}
use radius_go.Api.Client.{client_headers, request_of}
use radius_go.Api.Reached.{FindsOnly, is_plain, client_reaches}
use radius_go.Examples.{env, service, clock, alone, data_voucher}
use radius_go.Examples.Stores.{libraries, link, database}

abbrev carol : CreateUserRequest
carol = record {
  username = codes "carol";
  password = codes "secret";
  full_name = codes "Carol";
  email = codes "carol@example.net";
  simultaneous_use = pos 0;
  session_timeout = pos 0;
  idle_timeout = pos 0;
  framed_ip = [];
  mikrotik_group = [];
  rate_limit = [];
  bandwidth_max_up = 0;
  bandwidth_max_down = 0;
  max_total_octets = 0;
  service_type = [];
  pppoe_profile_id = [];
}

carol_made :
    is_failure (handle_create_subscriber libraries link (codes "u2") (some carol) database).response
    ≡ false
unfolding handle_create_subscriber create_user exec first_where str_eq non_empty is_blank
    valid_email valid_service_type user_fits is_int4 is_int8
carol_made = refl

abbrev carol_login : AuthRequest
carol_login = record {
  secret = codes "testing";
  username = codes "carol";
  passwords = some (codes "secret" ∷ []);
}

abbrev carol_row : RadiusUser
carol_row = created_row libraries link (codes "u2") (codes "u2") (codes "secret") carol database

carol_new : lookup carol.username service.subscribers ≡ none
unfolding lookup str_eq
carol_new = refl

carol_password : password_matches env (codes "secret") carol.password ≡ true
unfolding password_matches str_eq
carol_password = refl

carol_encodes : encodes env reference_laws alone clock carol_login carol_row ≡ true
unfolding accept_packet add_message_authenticator reference
carol_encodes = refl

created_subscriber_logs_in_example :
    is_accept (
      handle_auth env alone clock carol_login (
        refresh
          (answers
            (list_users libraries.pg
              (handle_create_subscriber libraries link (codes "u2") (some carol) database).database)
            []
            []
            [])
          service))
    ≡ true
created_subscriber_logs_in_example =
    created_subscriber_logs_in libraries link (codes "u2") (codes "u2") (codes "secret") carol
      database [] [] [] service env reference_laws alone clock carol_login refl refl refl refl
      carol_made carol_new refl refl carol_password carol_encodes

-- 80 bytes.
abbrev ten_bytes : Str → Str
ten_bytes s = codes "0123456789" ++ s

abbrev long_password : Str
long_password =
    ten_bytes (ten_bytes (ten_bytes (ten_bytes (ten_bytes (ten_bytes (ten_bytes (ten_bytes [])))))))

abbrev long_request : CreateUserRequest
long_request = record carol { password = long_password }

-- A change of the name shown.
abbrev rename : UpdateUserRequest
rename = record {
  username = [];
  password = [];
  full_name = codes "Guest";
  email = [];
  enabled = none;
  simultaneous_use = none;
  session_timeout = none;
  idle_timeout = none;
  framed_ip = [];
  mikrotik_group = [];
  rate_limit = [];
  bandwidth_max_up = none;
  bandwidth_max_down = none;
  max_total_octets = none;
  service_type = [];
  pppoe_profile_id = none;
}

abbrev renamed : RadiusUser
renamed = record data_voucher { full_name = codes "Guest"; updated_at = pos 50 }

data_read : fetch link 0 (get_user_by_id libraries.pg (codes "u1")) database ≡ row data_voucher
unfolding get_user_by_id first_where str_eq fetched query
data_read = refl

rename_done :
    is_failure
      (handle_update_subscriber libraries link (codes "u1") (some rename) database).response
    ≡ false
unfolding handle_update_subscriber get_user_by_id update_user exec first_where str_eq valid_email
    valid_service_type fetched query user_fits is_int4 is_int8
rename_done = refl

renamed_read :
    get_user_by_id libraries.pg data_voucher.id
      (handle_update_subscriber libraries link (codes "u1") (some rename) database).database
    ≡ row renamed
unfolding handle_update_subscriber get_user_by_id update_user exec first_where update_where str_eq
    valid_email valid_service_type fetched query user_fits is_int4 is_int8 limit_string
renamed_read = refl

handle_update_subscriber-usage_example :
    (renamed.data_bytes_used ≡ data_voucher.data_bytes_used)
    × (renamed.usage_seconds_used ≡ data_voucher.usage_seconds_used)
handle_update_subscriber-usage_example =
    handle_update_subscriber-usage libraries link (codes "u1") rename database data_voucher renamed
      data_read rename_done renamed_read

-- The first route of a path.
abbrev first_route : List (Route × Str) → Option (Route × Str)
first_route [] = none
first_route (r ∷ more) = some r

abbrev router : Router
router table m path = first_route (matches table m (split_path path))

router-FindsOnly : FindsOnly router
router-FindsOnly table m path r id only = ap first_route only

id_plain : is_plain (codes "6f1c-02") ≡ true
unfolding is_plain
id_plain = refl

balance_sent :
    request_of Route.voucher_balance (codes "6f1c-02")
    ≡ some (Method.get, codes "/api/v1/vouchers/6f1c-02/balance")
unfolding request_of
balance_sent = refl

client_reaches_example :
    dispatch router
      (codes "internal")
      (client_headers (codes "internal"))
      Method.get
      (codes "/api/v1/vouchers/6f1c-02/balance")
    ≡ handled Route.voucher_balance (codes "6f1c-02")
client_reaches_example =
    client_reaches router (codes "internal") Route.voucher_balance (codes "6f1c-02") Method.get
      (codes "/api/v1/vouchers/6f1c-02/balance") router-FindsOnly id_plain refl balance_sent

abbrev guess : Headers
guess = record { authorization = codes "Bearer guess"; x_internal_secret = codes "internal" }

-- A profile is taken away, and the speed is changed.
abbrev reassigned : UpdateUserRequest
reassigned = record rename { bandwidth_max_up = some 2000; pppoe_profile_id = some [] }

reassigned-IsSendable : IsSendable (λ s. s) reassigned
reassigned-IsSendable = record {
  username = refl;
  password = refl;
  full_name = refl;
  email = refl;
  simultaneous_use = tt;
  session_timeout = tt;
  idle_timeout = tt;
  framed_ip = refl;
  mikrotik_group = refl;
  rate_limit = refl;
  bandwidth_max_up = omega arith;
  bandwidth_max_down = tt;
  max_total_octets = tt;
  service_type = refl;
  pppoe_profile_id = refl;
}

read_update_user-update_subscriber_fields_example :
    read_update_user (written_fields (update_subscriber_fields (λ s. s) reassigned))
    ≡ some reassigned
read_update_user-update_subscriber_fields_example =
    read_update_user-update_subscriber_fields (λ s. s) reassigned reassigned-IsSendable
