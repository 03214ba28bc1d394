-- ===== src/Repository/Consistent.antt =====
-- The constraints of migrations/*.sql under the statements of internal/radius/repository.go and of
-- the packages in internal/radius/voucher_service.go.
pub mod Accounts
pub mod Tables
pub mod Others
pub mod Every
use radius_go.Base.{
  ◌≡◌, refl, sym, ◌∙◌, ap, Bool, true, false, ◌&&◌, not, Option, none, some, List, [], ◌∷◌, ◌++◌,
  arith, All, Bool-cases, Option-cases, inl, inr,
}
use radius_go.Base.Int.{ℤ}
use radius_go.Base.Text.{Str, str_eq, str_eq_iff}
use radius_go.Domain.Pppoe.{PppoeProfile}
use radius_go.Domain.Session.{RadiusSession, SessionState}
use radius_go.Domain.User.{RadiusUser, Nas}
use radius_go.Domain.Voucher.{VoucherPackage, TimeLimitType}
use radius_go.Repository.{Postgres, Database, Statement}
use radius_go.Repository.Table.{first_where, update_where, delete_where, exists, IsDistinct}
use radius_go.Repository.Table.Distinct.{
  append-IsDistinct, delete-IsDistinct, update-IsDistinct, rename-IsDistinct, update_where-none,
  exists-append, exists-update_same,
}
use radius_go.Repository.Users.{
  profile_there, create_user, update_user, delete_user, set_user, first_login, record_first_login,
  used, add_usage_delta, disable_user, written,
}
use radius_go.Repository.Profiles.{
  create_pppoe_profile, update_pppoe_profile, delete_pppoe_profile, replaced, unassigned,
}
use radius_go.Repository.Nases.{create_nas, update_nas, delete_nas}
use radius_go.Repository.Sessions.{upsert_session, update_session_status, session_row}
use radius_go.Repository.Packages.{create_package, update_package, delete_package}

-- Every user has a profile that is there, or none.
abbrev pub Assigned : List PppoeProfile → List RadiusUser → Type 0
Assigned profiles users = All (λ u. profile_there u.pppoe_profile_id profiles ≡ true) users

pub record IsConsistent (db : Database) : Type 0 where
  pub user_ids : IsDistinct (λ u. u.id) db.users
  pub usernames : IsDistinct (λ u. u.username) db.users
  pub profile_ids : IsDistinct (λ p. p.id) db.profiles
  pub profile_names : IsDistinct (λ p. p.name) db.profiles
  pub nas_ids : IsDistinct (λ n. n.id) db.nases
  pub session_ids : IsDistinct (λ s. s.id) db.sessions
  pub package_ids : IsDistinct (λ p. p.id) db.packages
  pub assigned : Assigned db.profiles db.users

-- The statements that write.
pub data Command : Type 0 where
  insert_user change_user : RadiusUser → Command
  drop_user lock_user : Str → Command
  log_in : Str → TimeLimitType → ℤ → Command
  add_usage : Str → ℤ → ℤ → Command
  insert_profile change_profile : PppoeProfile → Command
  drop_profile : Str → Command
  insert_nas change_nas : Nas → Command
  drop_nas : Str → Command
  put_session : RadiusSession → Command
  set_status : Str → SessionState → Option ℤ → Command
  insert_package change_package : VoucherPackage → Command
  drop_package : Str → Command

unfoldable pub statement : Postgres → ℤ → Command → Statement
unfolding create_user update_user delete_user disable_user record_first_login add_usage_delta
    create_pppoe_profile update_pppoe_profile delete_pppoe_profile create_nas update_nas delete_nas
    upsert_session update_session_status create_package update_package delete_package
statement pg now (insert_user u) = create_user pg now u
statement pg now (change_user u) = update_user pg now u
statement pg now (drop_user id) = delete_user pg id
statement pg now (lock_user id) = disable_user pg now id
statement pg now (log_in id t n) = record_first_login pg now id t n
statement pg now (add_usage id secs octets) = add_usage_delta pg now id secs octets
statement pg now (insert_profile p) = create_pppoe_profile pg now p
statement pg now (change_profile p) = update_pppoe_profile pg now p
statement pg now (drop_profile id) = delete_pppoe_profile pg id
statement pg now (insert_nas n) = create_nas pg now n
statement pg now (change_nas n) = update_nas pg now n
statement pg now (drop_nas id) = delete_nas pg id
statement pg now (put_session s) = upsert_session pg now s
statement pg now (set_status id status stop) = update_session_status pg now id status stop
statement pg now (insert_package p) = create_package pg now p
statement pg now (change_package p) = update_package pg now p
statement pg now (drop_package id) = delete_package pg id

pub Assigned-append :
    (profiles : List PppoeProfile) (u : RadiusUser) (users : List RadiusUser)
    → Assigned profiles users
    → profile_there u.pppoe_profile_id profiles ≡ true
    → Assigned profiles (users ++ u ∷ [])
Assigned-append profiles u [] a h = (h, tt)
Assigned-append profiles u (v ∷ users) a h = (a.0, Assigned-append profiles u users a.1 h)

pub Assigned-delete :
    (profiles : List PppoeProfile) (q : RadiusUser → Bool) (users : List RadiusUser)
    → Assigned profiles users
    → Assigned profiles (delete_where q users)
unfolding delete_where
Assigned-delete profiles q [] a = a
Assigned-delete profiles q (v ∷ users) a = ground (arith, Assigned-delete profiles q users a.1)

-- An update after which the user has a profile that is there.
pub Assigned-update :
    (profiles : List PppoeProfile) (q : RadiusUser → Bool) (f : RadiusUser → RadiusUser)
    (users : List RadiusUser)
    → ((u : RadiusUser)
        → profile_there u.pppoe_profile_id profiles ≡ true
        → profile_there (f u).pppoe_profile_id profiles ≡ true)
    → Assigned profiles users
    → Assigned profiles (update_where q f users)
unfolding update_where
Assigned-update profiles q f [] keep a = a
Assigned-update profiles q f (v ∷ users) keep a =
    ground (arith, keep v a.0, Assigned-update profiles q f users keep a.1)

-- Other profiles, in which every profile that was there still is.
pub Assigned-mono :
    (profiles profiles' : List PppoeProfile) (users : List RadiusUser)
    → ((id : Option Str) → profile_there id profiles ≡ true → profile_there id profiles' ≡ true)
    → Assigned profiles users
    → Assigned profiles' users
Assigned-mono profiles profiles' [] more a = a
Assigned-mono profiles profiles' (v ∷ users) more a =
    (more v.pppoe_profile_id a.0, Assigned-mono profiles profiles' users more a.1)

pub profile_there-append :
    (p : PppoeProfile) (profiles : List PppoeProfile) (id : Option Str)
    → profile_there id profiles ≡ true
    → profile_there id (profiles ++ p ∷ []) ≡ true
profile_there-append p profiles none h = h
profile_there-append p profiles (some key) h =
    ground (arith, exists-append (λ q. str_eq q.id key) p profiles)

pub profile_there-update :
    (q : PppoeProfile → Bool) (f : PppoeProfile → PppoeProfile) (profiles : List PppoeProfile)
    → ((p : PppoeProfile) → (f p).id ≡ p.id)
    → (id : Option Str) → profile_there id profiles ≡ true
    → profile_there id (update_where q f profiles) ≡ true
profile_there-update q f profiles same none h = h
profile_there-update q f profiles same (some key) h =
    exists-update_same (λ p. str_eq p.id key) q f profiles
      (λ p. ap (λ (s : Str). str_eq s key) (same p))
    ∙ h

exists_after_delete :
    (id key : Str) (profiles : List PppoeProfile)
    → str_eq id key ≡ false
    → exists (λ p. str_eq p.id id) profiles ≡ true
    → exists (λ p. str_eq p.id id) (delete_where (λ p. str_eq p.id key) profiles) ≡ true
unfolding first_where delete_where
exists_after_delete id key [] other h = h
exists_after_delete id key (p ∷ profiles) other h =
    ground (arith, exists_after_delete id key profiles, str_eq_iff p.id id, str_eq_iff p.id key)

-- `ON DELETE SET NULL`
pub Assigned-drop :
    (key : Str) (profiles : List PppoeProfile) (users : List RadiusUser)
    → Assigned profiles users
    → Assigned
        (delete_where (λ p. str_eq p.id key) profiles)
        (update_where (λ u. true) (unassigned key) users)
unfolding update_where
Assigned-drop key profiles [] a = a
Assigned-drop key profiles (v ∷ users) a = elim (Option-cases v.pppoe_profile_id) [
  | inl free ↦ ground (arith, free, Assigned-drop key profiles users a.1)
  | inr (id, has) ↦ elim (Bool-cases (str_eq id key)) [
    | inl it ↦ ground (arith, has, it, Assigned-drop key profiles users a.1)
    | inr other ↦ ground (
      arith,
      has,
      other,
      exists_after_delete id key profiles other,
      Assigned-drop key profiles users a.1,
    )
  ]
]
