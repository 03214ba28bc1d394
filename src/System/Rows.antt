-- ===== src/System/Rows.antt =====
-- The row of a voucher in radius_users, under the statements of internal/radius/repository.go that
-- are not about its usage.
use radius_go.Base.{ℕ, ◌≡◌, true, false, ◌&&◌, not, Option, some, List, [], ◌∷◌, arith, All}
use radius_go.Base.Int.{ℤ, pos}
use radius_go.Base.Text.{Str, str_eq, str_eq_iff}
use radius_go.Domain.Pppoe.{PppoeProfile}
use radius_go.Domain.Session.{RadiusSession}
use radius_go.Domain.User.{RadiusUser, Nas}
use radius_go.Domain.Voucher.{VoucherPackage}
use radius_go.Repository.{Postgres, Database}
use radius_go.Repository.Table.{first_where, exists}
use radius_go.Repository.Nases.{create_nas, update_nas, delete_nas}
use radius_go.Repository.Sessions.{upsert_session, update_session_status}
use radius_go.Repository.Packages.{create_package, update_package, delete_package}
use radius_go.Repository.Profiles.{create_pppoe_profile, update_pppoe_profile}

-- A row of the table: the voucher's, or one of another name and identifier.
pub record Tracked (name id : Str) (d : ℕ) (u : RadiusUser) : Type 0 where
  pub same : str_eq u.username name ≡ str_eq u.id id
  pub voucher : (str_eq u.id id && not u.is_voucher) ≡ false
  pub bytes : str_eq u.id id ≡ true → u.data_bytes_used ≡ pos d

-- The name of the row is taken.
pub name_is_taken :
    (name id x : Str) (d : ℕ) (users : List RadiusUser)
    → All (Tracked name id d) users
    → exists (λ u. str_eq u.id id) users ≡ true
    → exists (λ u. str_eq u.username x) users ≡ false
    → str_eq x name ≡ false
unfolding first_where
name_is_taken name id x d [] h there free = absurd (cc (there))
name_is_taken name id x d (u ∷ users) h there free = ground (
  arith,
  name_is_taken name id x d users h.1,
  h.0.same,
  str_eq_iff x name,
  str_eq_iff u.username name,
  str_eq_iff u.username x,
)

-- Also where the rows of another identifier do not count.
pub name_is_taken_by_other :
    (name id key x : Str) (d : ℕ) (users : List RadiusUser)
    → str_eq key id ≡ false
    → All (Tracked name id d) users
    → exists (λ u. str_eq u.id id) users ≡ true
    → exists (λ u. str_eq u.username x && not (str_eq u.id key)) users ≡ false
    → str_eq x name ≡ false
unfolding first_where
name_is_taken_by_other name id key x d [] other h there free = absurd (cc (there))
name_is_taken_by_other name id key x d (u ∷ users) other h there free = ground (
  arith,
  name_is_taken_by_other name id key x d users other h.1,
  h.0.same,
  str_eq_iff x name,
  str_eq_iff u.username name,
  str_eq_iff u.username x,
  str_eq_iff u.id key,
  str_eq_iff u.id id,
  str_eq_iff key id,
)

-- The statements on the other tables leave the users alone.
module _ (pg : Postgres) (now : ℤ) (db db' : Database) where
  pub create_nas-users : (n : Nas) → create_nas pg now n db ≡ some db' → db'.users ≡ db.users
  unfolding create_nas
  create_nas-users n e = ground arith

  pub update_nas-users : (n : Nas) → update_nas pg now n db ≡ some db' → db'.users ≡ db.users
  unfolding update_nas
  update_nas-users n e = ground arith

  pub delete_nas-users : (id : Str) → delete_nas pg id db ≡ some db' → db'.users ≡ db.users
  unfolding delete_nas
  delete_nas-users id e = ground arith

  pub upsert_session-users :
      (s : RadiusSession) → upsert_session pg now s db ≡ some db' → db'.users ≡ db.users
  unfolding upsert_session
  upsert_session-users s e = ground arith

  pub update_session_status-users :
      (id status : Str) (stop : Option ℤ)
      → update_session_status pg now id status stop db ≡ some db'
      → db'.users ≡ db.users
  unfolding update_session_status
  update_session_status-users id status stop e = ground arith

  pub create_package-users :
      (p : VoucherPackage) → create_package pg now p db ≡ some db' → db'.users ≡ db.users
  unfolding create_package
  create_package-users p e = ground arith

  pub update_package-users :
      (p : VoucherPackage) → update_package pg now p db ≡ some db' → db'.users ≡ db.users
  unfolding update_package
  update_package-users p e = ground arith

  pub delete_package-users : (id : Str) → delete_package pg id db ≡ some db' → db'.users ≡ db.users
  unfolding delete_package
  delete_package-users id e = ground arith

  pub create_pppoe_profile-users :
      (p : PppoeProfile) → create_pppoe_profile pg now p db ≡ some db' → db'.users ≡ db.users
  unfolding create_pppoe_profile
  create_pppoe_profile-users p e = ground arith

  pub update_pppoe_profile-users :
      (p : PppoeProfile) → update_pppoe_profile pg now p db ≡ some db' → db'.users ≡ db.users
  unfolding update_pppoe_profile
  update_pppoe_profile-users p e = ground arith
