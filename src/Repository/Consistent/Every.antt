-- ===== src/Repository/Consistent/Every.antt =====
-- Every statement of internal/radius/repository.go that succeeds keeps the constraints.
use radius_go.Base.{◌≡◌, refl, false, some, arith}
use radius_go.Base.Int.{ℤ}
use radius_go.Repository.{Postgres, Database}
use radius_go.Repository.Users.{first_login, record_first_login, disable_user}
use radius_go.Repository.Consistent.{
  IsConsistent, Command, statement, insert_user, change_user, drop_user, lock_user, log_in,
  add_usage, insert_profile, change_profile, drop_profile, insert_nas, change_nas, drop_nas,
  put_session, set_status, insert_package, change_package, drop_package,
}
use radius_go.Repository.Consistent.Tables.{
  create_pppoe_profile-IsConsistent, update_pppoe_profile-IsConsistent,
  delete_pppoe_profile-IsConsistent,
}
use radius_go.Repository.Consistent.Accounts.{
  create_user-IsConsistent, update_user-IsConsistent, set_user-IsConsistent,
  delete_user-IsConsistent, add_usage_delta-IsConsistent,
}
use radius_go.Repository.Consistent.Others.{
  create_nas-IsConsistent, update_nas-IsConsistent, delete_nas-IsConsistent,
  create_package-IsConsistent, update_package-IsConsistent, delete_package-IsConsistent,
  upsert_session-IsConsistent, update_session_status-IsConsistent,
}

pub statement-IsConsistent :
    (pg : Postgres) (now : ℤ) (c : Command) (db db' : Database)
    → IsConsistent db
    → statement pg now c db ≡ some db'
    → IsConsistent db'
unfolding statement record_first_login disable_user
statement-IsConsistent pg now (insert_user u) db db' h e =
    create_user-IsConsistent pg now u db db' h e
statement-IsConsistent pg now (change_user u) db db' h e =
    update_user-IsConsistent pg now u db db' h e
statement-IsConsistent pg now (drop_user id) db db' h e = delete_user-IsConsistent pg id db db' h e
statement-IsConsistent pg now (lock_user id) db db' h e =
    set_user-IsConsistent pg id (λ u. record u { enabled = false; updated_at = now }) db db'
      (λ u. refl) (λ u. refl) (λ u. refl) h e
statement-IsConsistent pg now (log_in id t n) db db' h e =
    set_user-IsConsistent pg id (first_login now t n) db db' (λ u. ground arith) (λ u. ground arith)
      (λ u. ground arith) h e
statement-IsConsistent pg now (add_usage id secs octets) db db' h e =
    add_usage_delta-IsConsistent pg now id secs octets db db' h e
statement-IsConsistent pg now (insert_profile p) db db' h e =
    create_pppoe_profile-IsConsistent pg now db db' h p e
statement-IsConsistent pg now (change_profile p) db db' h e =
    update_pppoe_profile-IsConsistent pg now db db' h p e
statement-IsConsistent pg now (drop_profile id) db db' h e =
    delete_pppoe_profile-IsConsistent pg now db db' h id e
statement-IsConsistent pg now (insert_nas n) db db' h e =
    create_nas-IsConsistent pg now db db' h n e
statement-IsConsistent pg now (change_nas n) db db' h e =
    update_nas-IsConsistent pg now db db' h n e
statement-IsConsistent pg now (drop_nas id) db db' h e =
    delete_nas-IsConsistent pg now db db' h id e
statement-IsConsistent pg now (put_session s) db db' h e =
    upsert_session-IsConsistent pg now db db' h s e
statement-IsConsistent pg now (set_status id status stop) db db' h e =
    update_session_status-IsConsistent pg now db db' h id status stop e
statement-IsConsistent pg now (insert_package p) db db' h e =
    create_package-IsConsistent pg now db db' h p e
statement-IsConsistent pg now (change_package p) db db' h e =
    update_package-IsConsistent pg now db db' h p e
statement-IsConsistent pg now (drop_package id) db db' h e =
    delete_package-IsConsistent pg now db db' h id e
