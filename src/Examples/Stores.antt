-- ===== src/Examples/Stores.antt =====
-- The theorems on the database and on the system around it, applied.
use radius_go.Base.{first_of, ◌&&◌}
use radius_go.Base.Dict.{lookup, IsMap}
use radius_go.Base.Text.{Str}
use radius_go.Service.{Service}
use radius_go.Service.Table.{is_active}
use radius_go.Handlers.{ok, merged_in}
use radius_go.Handlers.Live.{handle_session_reconcile}
use radius_go.Handlers.Live.Reconciled.{handle_session_reconcile_lem}
use radius_go.Repository.Nases.{nas_fits}
use radius_go.Net.Ip.{parse_ip}
use radius_go.Validate.{valid_ip}
use radius_go.Validate.Blank.{is_blank}
use radius_go.Validate.{non_empty}
use radius_go.Base.{
  ℕ, ◌+◌, ◌≡◌, refl, true, false, not, none, some, [], ◌∷◌, arith, if◌then◌else◌, leb, length,
}
use radius_go.Base.Int.{pos, add64}
use radius_go.Base.Text.{codes, is_empty, str_eq}
use radius_go.Domain.User.{CreateNasRequest}
use radius_go.Domain.Voucher.{VoucherPackage, time_limit_usage}
use radius_go.Accounting.{total_octets, find_session, apply_acct_update}
use radius_go.Repository.{Postgres, Database, answered, exec}
use radius_go.Repository.Table.{first_where}
use radius_go.Repository.Users.{create_user}
use radius_go.Repository.Consistent.{IsConsistent}
use radius_go.System.{System, Reach, Fits, owed, account, here, next}
use radius_go.System.Conserved.{Conserved}
use radius_go.System.Usage.{bytes_in_memory, bytes_in_database, usage-Conserved}
use radius_go.Vouchers.{new_voucher}
use radius_go.Handlers.{Libraries, Link}
use radius_go.Repository.Nases.{create_nas}
use radius_go.Handlers.Nases.{handle_create_nas}
use radius_go.Handlers.Serve.{Call, serve}
use radius_go.Handlers.Sound.{IsSound}
use radius_go.Handlers.Sound.Every.{serve-IsSound}
use radius_go.Handlers.Refused.{is_failure, serve_refused}
use radius_go.Handlers.Subscribers.Passwords.{large_cap-create_user}
use radius_go.Examples.{data_voucher, data_session, service, router, report, acct_clock, data_known}

-- A server that reads every string but the empty one as a UUID in canonical form.
abbrev pub pg : Postgres
pg = record {
  holds_text = λ s. true;
  uuid = λ s. if is_empty s then none else some s;
  collate = λ a b. true;
  microseconds = λ z. z;
  numeric = λ n. some n;
}

-- The password is its own hash, up to 72 bytes.
abbrev pub libraries : Libraries
libraries = record {
  pg = pg;
  valid_uuid = λ s. not (is_empty s);
  parse_address = λ s. some s;
  hash = λ s. if leb (length s) 72 then some s else none;
}

-- No other client, and every statement is answered.
abbrev pub link : Link
link = record { before = λ k db. db; now = λ k. pos 50; delivery = λ k. answered }

abbrev pub database : Database
database = record {
  users = data_voucher ∷ [];
  profiles = [];
  nases = router ∷ [];
  sessions = data_session ∷ [];
  packages = [];
}

pub database-IsConsistent : IsConsistent database
unfolding first_where
database-IsConsistent = record {
  user_ids = (refl, tt);
  usernames = (refl, tt);
  profile_ids = tt;
  profile_names = tt;
  nas_ids = (refl, tt);
  session_ids = (refl, tt);
  package_ids = tt;
  assigned = (refl, tt);
}

pub database-IsSound : IsSound database
database-IsSound = record { consistent = database-IsConsistent; exclusive = (refl, tt) }

abbrev charged_database : Database
charged_database = record database {
  users =
      record data_voucher {
        data_bytes_used = pos 950;
        usage_seconds_used = pos 10;
        updated_at = pos 50;
      }
      ∷ [];
}

abbrev system : System
system = record { service = service; database = database; pending = []; snapshots = [] }

system-Conserved : Conserved pg (codes "data") (codes "u1") 0 system
unfolding first_where str_eq
system-Conserved = record {
  in_memory = 900;
  in_database = 900;
  known = (data_voucher, data_known, record { is_row = refl; voucher = refl; bytes = refl });
  row = record {
    rows = (record { same = refl; voucher = refl; bytes = λ it. refl }, tt);
    there = refl;
  };
  signed = tt;
  balance = refl;
  reads = tt;
}

found :
    find_session report.username report.session_id service.sessions
    ≡ some (codes "k1", data_session)
unfolding find_session str_eq
found = refl

report-Fits : Fits pg (codes "u1") report service data_voucher
unfolding add64 total_octets
report-Fits = record {
  session_id = codes "k1";
  sess = data_session;
  before = 100;
  total = 250;
  running = found;
  known = data_known;
  at_total = refl;
  in_total = refl;
  in_usage = omega arith;
}

-- The report of 250 octets was charged, and its goroutine waits.
abbrev charged_system : System
charged_system = record system {
  service = (apply_acct_update report acct_clock false service).0;
  pending = (apply_acct_update report acct_clock false service).2;
}

charged_reached : Reach pg (codes "data") (codes "u1") system 0 charged_system
charged_reached = next here (account report acct_clock false data_voucher refl report-Fits)

usage-Conserved_example :
    (m d : ℕ) × (bytes_in_memory (codes "data") charged_system.service ≡ some (pos m))
    × (bytes_in_database (codes "u1") charged_system.database ≡ some (pos d))
    × (d + owed pg (codes "u1") charged_system.pending + 0 ≡ m)
usage-Conserved_example =
    usage-Conserved pg (codes "data") (codes "u1") 0 system charged_system refl refl
      system-Conserved charged_reached

abbrev new_router : CreateNasRequest
new_router = record {
  name = codes "second";
  ip_address = codes "10.0.0.2";
  secret = codes "testing";
  description = [];
}

serve-IsSound_example :
    IsSound
      (serve libraries link (Call.create_nas (codes "n2") (some new_router)) database).database
serve-IsSound_example =
    serve-IsSound libraries link refl (λ k db sound. sound)
      (Call.create_nas (codes "n2") (some new_router)) database database-IsSound

-- The identifier is taken.
abbrev taken : Call
taken = Call.create_nas (codes "n1") (some new_router)

taken_fails : is_failure (serve libraries link taken database).response ≡ true
unfolding serve handle_create_nas create_nas exec first_where str_eq non_empty is_blank valid_ip
    parse_ip nas_fits
taken_fails = refl

serve_refused_example :
    ((serve libraries link taken database).database ≡ database)
    × ((serve libraries link taken database).refreshes ≡ false)
serve_refused_example =
    serve_refused libraries link (λ k db. refl) (λ k. refl) taken database refl taken_fails

-- A package of three gigabytes.
abbrev large_package : VoucherPackage
large_package = record {
  id = codes "pkg";
  name = codes "Three gigabytes";
  description = [];
  price = 0;
  speed_upload_kbps = pos 0;
  speed_download_kbps = pos 0;
  data_cap_bytes = pos 3000000000;
  time_limit_type = time_limit_usage;
  time_limit_seconds = pos 0;
  max_concurrent_users = pos 0;
  address_pool = [];
  primary_dns = [];
  secondary_dns = [];
  enabled = true;
  created_at = pos 0;
  updated_at = pos 0;
}

large_cap-create_user_example :
    create_user pg
      (pos 50)
      (new_voucher large_package (codes "v1") (codes "cafe") (codes "cafe"))
      database
    ≡ none
large_cap-create_user_example =
    large_cap-create_user pg (pos 50) large_package (codes "v1") (codes "cafe") (codes "cafe")
      3000000000 database refl (omega arith) (omega arith)

-- The server after a start.
abbrev started : Service
started = record service { sessions = [] }

abbrev k1 : Str
k1 = codes "k1"

handle_session_reconcile_lem_example :
    ((n : ℕ) × ((handle_session_reconcile pg link database started).response ≡ ok (merged_in n))
      × (length (handle_session_reconcile pg link database started).service.sessions
          ≡ length started.sessions + n))
    × (lookup k1 (handle_session_reconcile pg link database started).service.sessions
        ≡ first_of
            (lookup k1 started.sessions)
            (first_where (λ r. is_active r && str_eq r.id k1) database.sessions))
    × IsMap (handle_session_reconcile pg link database started).service.sessions
    × ((handle_session_reconcile pg link database
          (handle_session_reconcile pg link database started).service).response
        ≡ ok (merged_in 0))
handle_session_reconcile_lem_example =
    handle_session_reconcile_lem pg link database started k1 refl tt
