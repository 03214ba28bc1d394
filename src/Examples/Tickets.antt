-- ===== src/Examples/Tickets.antt =====
-- The theorems on generated vouchers and balances, applied.
use radius_go.Base.{ℕ, ◌≡◌, ◌||◌, refl, true, none, some, [], ◌∷◌, arith}
use radius_go.Base.Int.{pos, sub64}
use radius_go.Base.Text.{codes, str_eq}
use radius_go.Base.Dict.{lookup}
use radius_go.Domain.User.{RadiusUser, subscriber_from_user}
use radius_go.Domain.Voucher.{
  VoucherPackage, GenerateVoucherRequest, VoucherBalance, time_limit_usage,
}
use radius_go.Packet.Reference.{reference, reference_laws}
use radius_go.Packet.Authenticator.{add_message_authenticator}
use radius_go.Service.{Service}
use radius_go.Auth.Reply.{accept_packet}
use radius_go.Auth.Decision.{AuthRequest, password_matches, voucher_refused, after, handle_auth}
use radius_go.Auth.Admission.{is_accept}
use radius_go.Vouchers.{Draw, new_voucher, GeneratedVoucher, get_balance, with_package}
use radius_go.Vouchers.Fresh.{IsFresh, generated_is_accepted}
use radius_go.Vouchers.Balance.{SameLimits, Counted, shows_end, voucher_refused-get_balance}
use radius_go.Examples.{env, service, clock, alone}

abbrev hour : VoucherPackage
hour = record {
  id = codes "pkg";
  name = codes "One hour";
  description = [];
  price = 0;
  speed_upload_kbps = pos 0;
  speed_download_kbps = pos 0;
  data_cap_bytes = pos 1000;
  time_limit_type = time_limit_usage;
  time_limit_seconds = pos 3600;
  max_concurrent_users = pos 0;
  address_pool = [];
  primary_dns = [];
  secondary_dns = [];
  enabled = true;
  created_at = pos 0;
  updated_at = pos 0;
}

abbrev two_codes : GenerateVoucherRequest
two_codes = record {
  package_id = codes "pkg";
  count = pos 2;
  code_format = codes "custom";
  code_length = pos 0;
  custom_code = codes "cafe";
  password_mode = codes "same_as_user";
  custom_password = [];
}

-- A hash that is the password itself.
abbrev draws : ℕ → Draw
draws index = record {
  code_numbers = λ n. 0;
  password_numbers = λ n. 0;
  new_id = codes "v1";
  hash = λ password. some password;
  create_user = λ user. true;
}

abbrev cafe_user : RadiusUser
cafe_user = new_voucher hour (codes "v1") (codes "cafe-1") (codes "cafe-1")

abbrev cafe : GeneratedVoucher
cafe = record {
  user = cafe_user;
  subscriber = subscriber_from_user cafe_user;
  password = codes "cafe-1";
}

cafe-IsFresh : IsFresh hour draws cafe
cafe-IsFresh = record {
  index = 0;
  code = codes "cafe-1";
  digest = codes "cafe-1";
  user_made = refl;
  hashed = refl;
  shown = refl;
}

abbrev cafe_service : Service
cafe_service = record service { subscribers = (codes "cafe-1", cafe_user) ∷ [] }

abbrev cafe_request : AuthRequest
cafe_request = record {
  secret = codes "testing";
  username = codes "cafe-1";
  passwords = some (codes "cafe-1" ∷ []);
}

cafe_known : lookup cafe_request.username cafe_service.subscribers ≡ some cafe_user
unfolding lookup str_eq
cafe_known = refl

cafe_password : password_matches env cafe_user.password_hash cafe.password ≡ true
unfolding password_matches str_eq new_voucher
cafe_password = refl

cafe_encodes :
    (add_message_authenticator env.lib
      (accept_packet env cafe_request.secret cafe_user clock.reply)).1
    ≡ true
unfolding accept_packet add_message_authenticator reference
cafe_encodes = refl

generated_is_accepted_example :
    is_accept (handle_auth env alone clock cafe_request cafe_service) ≡ true
generated_is_accepted_example =
    generated_is_accepted env reference_laws alone clock cafe_request cafe_service hour draws cafe
      cafe-IsFresh cafe_known refl cafe_password refl cafe_encodes

cafe_limits : SameLimits cafe_user hour
unfolding new_voucher
cafe_limits = record { time_type = refl; seconds = refl; cap = refl }

cafe-Counted : Counted cafe_user
unfolding new_voucher
cafe-Counted = record {
  seconds = (omega arith, (omega arith, omega arith));
  bytes = (omega arith, (omega arith, omega arith));
  time_limit = (omega arith, (omega arith, omega arith));
  data_cap = (omega arith, (omega arith, omega arith));
}

abbrev cafe_balance : VoucherBalance
cafe_balance = record {
  username = codes "cafe-1";
  package_name = codes "One hour";
  enabled = true;
  first_login_at = none;
  expires_at = none;
  time_limit_type = time_limit_usage;
  time_limit_seconds = pos 3600;
  usage_seconds_used = pos 0;
  usage_seconds_remaining = pos 3600;
  data_cap_bytes = pos 1000;
  data_bytes_used = pos 0;
  data_bytes_remaining = pos 1000;
}

cafe_balanced : get_balance (some cafe_user) (some hour) ≡ some cafe_balance
unfolding get_balance with_package new_voucher sub64
cafe_balanced = refl

voucher_refused-get_balance_example :
    voucher_refused cafe_user (pos 7)
    ≡ (after cafe_user.expires_at (pos 7) || shows_end cafe_balance)
unfolding new_voucher
voucher_refused-get_balance_example =
    voucher_refused-get_balance cafe_user hour cafe_balance (pos 7) cafe_limits cafe-Counted refl
      cafe_balanced
