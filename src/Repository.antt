-- ===== src/Repository.antt =====
-- internal/radius/repository.go: the database, and what a statement of the program does to it. The
-- tables and their constraints are those of migrations/*.sql.
pub mod Table
pub mod Users
pub mod Profiles
pub mod Nases
pub mod Sessions
pub mod Packages
pub mod Consistent
use radius_go.Base.{
  ℕ, ◌^◌, Bool, true, false, ◌&&◌, Option, none, some, List, if◌then◌else◌, or_else, ltb, leb,
}
use radius_go.Base.Int.{ℤ, pos_part, neg_part}
use radius_go.Base.Text.{Str, str_eq}
use radius_go.Domain.User.{RadiusUser, Nas}
use radius_go.Domain.Session.{RadiusSession}
use radius_go.Domain.Pppoe.{PppoeProfile}
use radius_go.Domain.Voucher.{VoucherPackage}

-- What the server decides: which texts a TEXT column holds, how it reads a UUID (in its canonical
-- form), its collation, and what TIMESTAMPTZ and NUMERIC(12,2) keep of a value.
pub record Postgres : Type 0 where
  pub holds_text : Str → Bool
  pub uuid : Str → Option Str
  pub collate : Str → Str → Bool
  pub microseconds : ℤ → ℤ
  pub numeric : ℕ → Option ℕ

pub record Database : Type 0 where
  pub users : List RadiusUser
  pub profiles : List PppoeProfile
  pub nases : List Nas
  pub sessions : List RadiusSession
  pub packages : List VoucherPackage

-- A statement: the database after it, `none` for an error of the server.
abbrev pub Statement : Type 0
Statement = Database → Option Database

-- What becomes of a statement: it is answered, it does not reach the server, or its answer does not
-- come back (the context ends).
pub data Delivery : Type 0 where
  answered not_sent unanswered : Delivery

-- `_, err := r.db.Exec(…)`, and whether `err == nil`.
unfoldable pub exec : Delivery → Statement → Database → Database × Bool
exec answered f db = elim (f db) [ none ↦ (db, false) | some db' ↦ (db', true) ]
exec not_sent f db = (db, false)
exec unanswered f db = (or_else (f db) db, false)

-- `rows, err := r.db.Query(…)`
unfoldable pub query {ℓ} : {A : Type ℓ} → Delivery → (Database → Option A) → Database → Option A
query answered f db = f db
query not_sent f db = none
query unanswered f db = none

-- INTEGER is 32 bits wide, BIGINT 64.
unfoldable pub is_int4 : ℤ → Bool
is_int4 z = ltb (pos_part z) (2 ^ 31) && leb (neg_part z) (2 ^ 31)

unfoldable pub is_int8 : ℤ → Bool
is_int8 z = ltb (pos_part z) (2 ^ 63) && leb (neg_part z) (2 ^ 63)

-- A pointer to a UUID: NULL, or a value that the server can read.
abbrev pub stored_uuid : Postgres → Option Str → Option (Option Str)
stored_uuid pg none = some none
stored_uuid pg (some id) = elim (pg.uuid id) [ none ↦ none | some key ↦ some (some key) ]
