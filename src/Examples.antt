-- ===== src/Examples.antt =====
-- Data on which the theorems are applied: one user, two vouchers, one server and one session.
mod Logins
mod Usages
mod Tables
mod Changes
mod Packets
mod Settings
mod Tickets
mod Stores
mod Requests
use radius_go.Base.{ℕ, ◌≡◌, refl, Bool, true, false, Option, none, some, List, [], ◌∷◌}
use radius_go.Base.Int.{ℤ, pos}
use radius_go.Base.Text.{Str, codes, str_eq}
use radius_go.Base.Dict.{lookup}
use radius_go.Config.{Config}
use radius_go.Domain.Voucher.{time_limit_calendar, time_limit_usage}
use radius_go.Domain.User.{RadiusUser, Nas, service_type_framed}
use radius_go.Domain.Session.{RadiusSession, session_state_active}
use radius_go.Packet.Reference.{reference}
use radius_go.Service.{Service}
use radius_go.Auth.Reply.{Env}
use radius_go.Auth.Decision.{AuthRequest, AuthClock, Interleaving}
use radius_go.Accounting.{AcctRequest, AcctClock, AcctInterleaving}

abbrev pub env : Env
env = record { lib = reference; compare_hash = str_eq; whole_seconds = λ z. z }

abbrev pub alice : RadiusUser
alice = record {
  id = codes "u1";
  username = codes "alice";
  password_hash = codes "secret";
  full_name = codes "Alice";
  email = [];
  enabled = true;
  simultaneous_use = pos 2;
  session_timeout = pos 3600;
  idle_timeout = pos 0;
  framed_ip = [];
  mikrotik_group = codes "gold";
  rate_limit = codes "1M/2M";
  bandwidth_max_up = 0;
  bandwidth_max_down = 0;
  max_total_octets = 0;
  service_type = service_type_framed;
  pppoe_profile_id = none;
  pppoe_profile = none;
  voucher_package_id = none;
  voucher_package = none;
  is_voucher = false;
  first_login_at = none;
  expires_at = none;
  usage_seconds_used = pos 0;
  data_bytes_used = pos 0;
  speed_upload_kbps = pos 0;
  speed_download_kbps = pos 0;
  voucher_time_limit_type = [];
  voucher_time_limit_seconds = pos 0;
  voucher_data_cap_bytes = pos 0;
  created_at = pos 0;
  updated_at = pos 0;
}

-- A voucher with one hour from its first login.
abbrev pub calendar_voucher : RadiusUser
calendar_voucher = record alice {
  username = codes "cal";
  simultaneous_use = pos 0;
  is_voucher = true;
  voucher_time_limit_type = time_limit_calendar;
  voucher_time_limit_seconds = pos 3600;
}

-- A voucher with 1000 octets, of which 900 are used.
abbrev pub data_voucher : RadiusUser
data_voucher = record alice {
  username = codes "data";
  simultaneous_use = pos 0;
  is_voucher = true;
  voucher_data_cap_bytes = pos 1000;
  data_bytes_used = pos 900;
}

-- The same, used up.
abbrev pub spent_voucher : RadiusUser
spent_voucher = record data_voucher { username = codes "spent"; data_bytes_used = pos 1000 }

abbrev pub router : Nas
router = record {
  id = codes "n1";
  name = codes "router";
  ip_address = codes "10.0.0.1";
  secret = codes "testing";
  description = [];
  enabled = true;
  created_at = pos 0;
  updated_at = pos 0;
}

-- A session of the data voucher at 100 octets.
abbrev pub data_session : RadiusSession
data_session = record {
  id = codes "k1";
  session_id = codes "s1";
  username = codes "data";
  nas_id = codes "n1";
  nas_ip = codes "10.0.0.1:1813";
  nas_identifier = codes "router";
  framed_ip = [];
  calling_station = [];
  called_station = [];
  service_type = service_type_framed;
  input_octets = pos 60;
  output_octets = pos 40;
  session_time = pos 10;
  session_status = session_state_active;
  mikrotik_group = [];
  rate_limit = [];
  bandwidth_max_up = 0;
  bandwidth_max_down = 0;
  max_total_octets = 0;
  start_time = pos 0;
  last_update = pos 5;
  stop_time = none;
  created_at = pos 0;
  updated_at = pos 0;
}

abbrev config : Config
config = record {
  db_dsn = codes "dsn";
  http_addr = codes ":8083";
  internal_secret = codes "internal";
  radius_auth_addr = codes ":1812";
  radius_acct_addr = codes ":1813";
  radius_coa_addr = codes ":3799";
  enable_coa = true;
  log_format = codes "console";
  stale_session_timeout = pos 0;
  db_refresh_interval = pos 60;
  session_cleanup_period = pos 300;
  service_name = [];
}

abbrev pub service : Service
service = record {
  config = config;
  started_at = pos 0;
  nases = (codes "10.0.0.1", router) ∷ [];
  subscribers =
      (codes "alice", alice)
      ∷ (codes "cal", calendar_voucher)
      ∷ (codes "data", data_voucher)
      ∷ (codes "spent", spent_voucher)
      ∷ [];
  sessions = (codes "k1", data_session) ∷ [];
  auth_requests = 0;
  auth_accepts = 0;
  auth_rejects = 0;
  acct_requests = 0;
}

abbrev pub request_of : RadiusUser → AuthRequest
request_of u = record {
  secret = codes "testing";
  username = u.username;
  passwords = some (u.password_hash ∷ []);
}

abbrev pub clock : AuthClock
clock = record { login = pos 100; check = pos 101; reply = pos 102 }

-- No other goroutine.
abbrev pub alone : Interleaving
alone = record { before_login = λ s. s; before_disable = λ s. s; before_count = λ s. s }

abbrev pub acct_alone : AcctInterleaving
acct_alone = record { before_store = λ s. s; before_lookup = λ s. s; before_disable = λ s. s }

-- An accounting request of the data voucher that reports 250 octets.
abbrev pub report : AcctRequest
report = record {
  secret = codes "testing";
  remote_addr = codes "10.0.0.1:1813";
  status_type = some 3;
  username = codes "data";
  session_id = codes "s1";
  nas_identifier = codes "router";
  calling_station = [];
  called_station = [];
  framed_ip = none;
  input_octets = some 150;
  output_octets = some 100;
  session_time = some 20;
  input_gigawords = none;
  output_gigawords = none;
}

abbrev pub acct_clock : AcctClock
acct_clock = record { update = pos 7; stop = pos 8 }

pub alice_known : lookup alice.username service.subscribers ≡ some alice
unfolding lookup str_eq
alice_known = refl

pub calendar_known : lookup calendar_voucher.username service.subscribers ≡ some calendar_voucher
unfolding lookup str_eq
calendar_known = refl

pub data_known : lookup data_voucher.username service.subscribers ≡ some data_voucher
unfolding lookup str_eq
data_known = refl

pub spent_known : lookup spent_voucher.username service.subscribers ≡ some spent_voucher
unfolding lookup str_eq
spent_known = refl
