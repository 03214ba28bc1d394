-- ===== src/Handlers.antt =====
-- The HTTP handlers of internal/radius: what they answer, what they do to the database, and whether
-- they start refreshFromDBAsync. A handler sends its statements one after the other; `Link` says what
-- becomes of each. A body that is no JSON of the request's type is `none`.
pub mod Nases
pub mod Subscribers
pub mod Packages
pub mod Profiles
pub mod Serve
pub mod Live
pub mod Sound
pub mod Refused
use radius_go.Base.{ℕ, Bool, true, false, Option, none, some, List, if◌then◌else◌}
use radius_go.Base.Int.{ℤ}
use radius_go.Base.Text.{Str, codes}
use radius_go.Domain.Pppoe.{PppoeProfile}
use radius_go.Coa.{CoaChangeResult}
use radius_go.Domain.Session.{RadiusSession}
use radius_go.Domain.User.{Nas, Subscriber}
use radius_go.Service.Table.{Status}
use radius_go.Domain.Voucher.{VoucherPackage, VoucherBalance}
use radius_go.PppoeProfiles.{Row, row, no_rows, failed}
use radius_go.Repository.{Postgres, Database, Statement, Delivery, exec, query}
use radius_go.Vouchers.{GeneratedVoucher}

-- The other packages: `uuid.Parse` succeeds, `mail.ParseAddress`, and bcrypt.
pub record Libraries : Type 0 where
  pub pg : Postgres
  pub valid_uuid : Str → Bool
  pub parse_address : Str → Option Str
  pub hash : Str → Option Str

-- For each statement of a handler: what other clients commit before it, the clock of the server, and
-- its delivery.
pub record Link : Type 0 where
  pub before : ℕ → Database → Database
  pub now : ℕ → ℤ
  pub delivery : ℕ → Delivery

-- The `data` of an envelope.
pub data Payload : Type 0 where
  nas : Nas → Payload
  subscriber : Subscriber → Payload
  voucher_package : VoucherPackage → Payload
  pppoe_profile : PppoeProfile → Payload
  nases : List Nas → Payload
  subscribers : List Subscriber → Payload
  voucher_packages : List VoucherPackage → Payload
  pppoe_profiles : List PppoeProfile → Payload
  vouchers : List GeneratedVoucher → Payload
  balance : VoucherBalance → Payload
  radius_sessions : List RadiusSession → Payload
  radius_status : Status → Payload
  disconnected : (username : Str) (count : ℕ) → Payload
  profile_changed : CoaChangeResult → Payload
  cleaned_up : (stale kept : ℕ) (done_at : ℤ) → Payload
  merged_in : ℕ → Payload
  deleted : Str → Payload

-- runtime.OK, runtime.Created and runtime.Fail; the details of an error are left out.
pub data Response : Type 0 where
  ok : Payload → Response
  created : Payload → Response
  fail : (status : ℕ) (code message : Str) → Response

pub record Handled : Type 0 where
  pub response : Response
  pub database : Database
  pub refreshes : Bool

abbrev pub respond : Database → Response → Handled
respond db r = record { response = r; database = db; refreshes = false }

-- `s.refreshFromDBAsync()` before the answer.
abbrev pub respond_refreshed : Database → Response → Handled
respond_refreshed db r = record { response = r; database = db; refreshes = true }

abbrev pub bad_request : Database → Str → Handled
bad_request db message = respond db (fail 400 (codes "bad_request") message)

abbrev pub not_found : Database → Str → Handled
not_found db message = respond db (fail 404 (codes "not_found") message)

abbrev pub db_error : Database → Str → Handled
db_error db message = respond db (fail 500 (codes "db_error") message)

-- A guard of a handler: `if bad { return s.fail(…) }`.
abbrev pub require : Database → Bool → Str → Handled → Handled
require db good message rest = if good then rest else bad_request db message

-- `if err := c.Bind(&req); err != nil { … }`
abbrev pub bind : {A : Type 0} → Database → Option A → (A → Handled) → Handled
bind db none rest = bad_request db (codes "invalid JSON")
bind db (some req) rest = rest req

-- A statement of a handler by its number: the database after it, and whether there was no error.
abbrev pub perform : Link → ℕ → (ℤ → Statement) → Database → Database × Bool
perform link k f db = exec (link.delivery k) (f (link.now k)) (link.before k db)

-- A query of one row.
unfoldable pub fetched {ℓ} : {A : Type ℓ} → Option (Row A) → Row A
fetched none = failed (codes "unavailable")
fetched (some r) = r

abbrev pub fetch {ℓ} : {A : Type ℓ} → Link → ℕ → (Database → Row A) → Database → Row A
fetch link k f db = fetched (query (link.delivery k) (λ d. some (f d)) (link.before k db))

-- A write that ends a handler.
abbrev pub finish : Database × Bool → Str → Response → Handled
finish (db, true) message r = respond_refreshed db r
finish (db, false) message r = db_error db message
