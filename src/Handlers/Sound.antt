-- ===== src/Handlers/Sound.antt =====
-- What the tables promise under the HTTP handlers: the constraints, and that no user has a voucher
-- package and a PPPoE profile.
pub mod Accounts
pub mod Every
use radius_go.Base.{
  ℕ, ◌≡◌, refl, sym, ◌∙◌, ap, subst, Bool, true, false, ◌&&◌, not, Option, none, some, List, [],
  ◌∷◌, ◌++◌, if◌then◌else◌, arith, All, Bool-cases, Option-cases, inl, inr,
}
use radius_go.Base.Int.{ℤ}
use radius_go.Base.Text.{Str, codes, is_empty, str_eq}
use radius_go.Domain.User.{RadiusUser}
use radius_go.Repository.{
  Postgres, Database, Delivery, answered, not_sent, unanswered, exec, stored_uuid,
}
use radius_go.Repository.Table.{first_where, update_where, delete_where}
use radius_go.Repository.Table.Every.{All-append, All-delete, All-update}
use radius_go.Repository.Users.{
  create_user, update_user, delete_user, set_user, first_login, record_first_login, add_usage_delta,
  disable_user, insertable, changeable, inserted, written, used,
}
use radius_go.Repository.Profiles.{delete_pppoe_profile, unassigned}
use radius_go.Repository.Consistent.{
  IsConsistent, Command, statement, insert_user, change_user, drop_user, lock_user, log_in,
  add_usage, insert_profile, change_profile, drop_profile, insert_nas, change_nas, drop_nas,
  put_session, set_status, insert_package, change_package, drop_package,
}
use radius_go.Repository.Consistent.Accounts.{if_some, user_keys}
use radius_go.Repository.Consistent.Every.{statement-IsConsistent}
use radius_go.System.Rows.{
  create_nas-users, update_nas-users, delete_nas-users, upsert_session-users,
  update_session_status-users, create_package-users, update_package-users, delete_package-users,
  create_pppoe_profile-users, update_pppoe_profile-users,
}
use radius_go.Validate.{given_id}

-- A user with a voucher package has no PPPoE profile.
abbrev pub IsExclusive : RadiusUser → Type 0
IsExclusive u = (given_id u.voucher_package_id && given_id u.pppoe_profile_id) ≡ false

pub record IsSound (db : Database) : Type 0 where
  pub consistent : IsConsistent db
  pub exclusive : All IsExclusive db.users

-- What a command writes is exclusive.
abbrev pub Proper : Command → Type 0
Proper (insert_user u) = IsExclusive u
Proper (change_user u) = IsExclusive u
Proper _ = Unit {0}

-- A pointer that the server stores names something if it did before: no UUID is the empty string.
stored_uuid-given :
    (pg : Postgres) (id key : Option Str)
    → pg.uuid [] ≡ none
    → stored_uuid pg id ≡ some key
    → given_id id ≡ false
    → given_id key ≡ false
stored_uuid-given pg none key law e free = ground (arith, e)
stored_uuid-given pg (some []) key law e free = absurd (ground (arith, law, e))
stored_uuid-given pg (some (c ∷ s)) key law e free = absurd (cc (free))

module _ (pg : Postgres) (law : pg.uuid [] ≡ none) (now : ℤ) (db db' : Database)
    (h : All IsExclusive db.users) where
  -- The user of a command, with the identifiers that the server stores.
  stored-IsExclusive :
      (u : RadiusUser) (profile pkg : Option Str)
      → IsExclusive u
      → stored_uuid pg u.pppoe_profile_id ≡ some profile
      → stored_uuid pg u.voucher_package_id ≡ some pkg
      → (given_id pkg && given_id profile) ≡ false
  stored-IsExclusive u profile pkg ex kp kk = elim (Bool-cases (given_id u.voucher_package_id)) [
    | inr free ↦ ground (arith, stored_uuid-given pg u.voucher_package_id pkg law kk free)
    | inl taken ↦
        ground (
          arith,
          stored_uuid-given pg u.pppoe_profile_id profile law kp (ground (arith, ex, taken)),
        )
  ]

  -- An update of any rows to exclusive ones.
  updated :
      (q : RadiusUser → Bool) (f : RadiusUser → RadiusUser)
      → ((u : RadiusUser) → IsExclusive u → IsExclusive (f u))
      → All IsExclusive (update_where q f db.users)
  updated q f keep =
      All-update IsExclusive IsExclusive q f db.users
        (λ u x. elim (Bool-cases (q u)) [ inl at ↦ rw (at) (keep u x) | inr off ↦ rw (off) x ]) h

  create_user-IsExclusive :
      (user : RadiusUser)
      → IsExclusive user
      → create_user pg now user db ≡ some db'
      → All IsExclusive db'.users
  unfolding create_user
  create_user-IsExclusive user ex e =
      let (key, profile, pkg, k, kp, kk, e') =
        user_keys pg user db'
          (λ key profile pkg.
            if insertable pg user key profile db
            then some (record db { users = db.users ++ inserted now user key profile pkg ∷ [] })
            else none)
          e in
      let free = stored-IsExclusive user profile pkg ex kp kk in
      let new = inserted now user key profile pkg in
      let (ok, same) =
        if_some (insertable pg user key profile db) (record db { users = db.users ++ new ∷ [] }) db'
          e' in
      subst (λ (q : Database). All IsExclusive q.users) same
        (All-append IsExclusive db.users (new ∷ []) h (free, tt))

  update_user-IsExclusive :
      (user : RadiusUser)
      → IsExclusive user
      → update_user pg now user db ≡ some db'
      → All IsExclusive db'.users
  unfolding update_user
  update_user-IsExclusive user ex e =
      let (key, profile, pkg, k, kp, kk, e') =
        user_keys pg user db'
          (λ key profile pkg.
            if changeable pg user key profile db
            then some (record db {
              users = update_where (λ u. str_eq u.id key) (written now user profile pkg) db.users;
            })
            else none)
          e in
      let free = stored-IsExclusive user profile pkg ex kp kk in
      let set : RadiusUser → RadiusUser = written now user profile pkg in
      let (ok, same) =
        if_some (changeable pg user key profile db)
          (record db { users = update_where (λ u. str_eq u.id key) set db.users }) db' e' in
      subst (λ (q : Database). All IsExclusive q.users) same
        (updated (λ u. str_eq u.id key) set (λ u x. free))

  set_user-IsExclusive :
      (j : Str) (f : RadiusUser → RadiusUser)
      → ((u : RadiusUser) → IsExclusive u → IsExclusive (f u))
      → set_user pg j f db ≡ some db'
      → All IsExclusive db'.users
  set_user-IsExclusive j f keep e = elim (Option-cases (pg.uuid j)) [
    | inl n ↦ absurd (ground (arith, n, e))
    | inr (key, k) ↦
        let same : update_where (λ u. str_eq u.id key) f db.users ≡ db'.users =
          ground (arith, k, e) in
        subst (All IsExclusive) same (updated (λ u. str_eq u.id key) f keep)
  ]

  delete_user-IsExclusive : (j : Str) → delete_user pg j db ≡ some db' → All IsExclusive db'.users
  unfolding delete_user
  delete_user-IsExclusive j e = elim (Option-cases (pg.uuid j)) [
    | inl n ↦ absurd (ground (arith, n, e))
    | inr (key, k) ↦
        let same : delete_where (λ u. str_eq u.id key) db.users ≡ db'.users =
          ground (arith, k, e) in
        subst (All IsExclusive) same (All-delete IsExclusive (λ u. str_eq u.id key) db.users h)
  ]

  add_usage_delta-IsExclusive :
      (j : Str) (secs octets : ℤ)
      → add_usage_delta pg now j secs octets db ≡ some db'
      → All IsExclusive db'.users
  unfolding add_usage_delta
  add_usage_delta-IsExclusive j secs octets e = elim (Option-cases (pg.uuid j)) [
    | inl n ↦ absurd (ground (arith, n, e))
    | inr (key, k) ↦ set_user-IsExclusive j (used now secs octets) (λ u x. x) (ground (arith, k, e))
  ]

  delete_pppoe_profile-IsExclusive :
      (j : Str) → delete_pppoe_profile pg j db ≡ some db' → All IsExclusive db'.users
  unfolding delete_pppoe_profile
  delete_pppoe_profile-IsExclusive j e = elim (Option-cases (pg.uuid j)) [
    | inl n ↦ absurd (ground (arith, n, e))
    | inr (key, k) ↦
        let same : update_where (λ u. true) (unassigned key) db.users ≡ db'.users =
          ground (arith, k, e) in
        subst (All IsExclusive) same
          (updated (λ u. true) (unassigned key) (λ u x. ground (arith, x)))
  ]

  same_users : db'.users ≡ db.users → All IsExclusive db'.users
  same_users e = subst (All IsExclusive) (sym e) h

  statement-IsExclusive :
      (c : Command) → Proper c → statement pg now c db ≡ some db' → All IsExclusive db'.users
  unfolding statement disable_user record_first_login
  statement-IsExclusive (insert_user u) p e = create_user-IsExclusive u p e
  statement-IsExclusive (change_user u) p e = update_user-IsExclusive u p e
  statement-IsExclusive (drop_user j) p e = delete_user-IsExclusive j e
  statement-IsExclusive (lock_user j) p e =
      set_user-IsExclusive j (λ u. record u { enabled = false; updated_at = now }) (λ u x. x) e
  statement-IsExclusive (log_in j t n) p e =
      set_user-IsExclusive j (first_login now t n) (λ u x. ground (arith, x)) e
  statement-IsExclusive (add_usage j secs octets) p e = add_usage_delta-IsExclusive j secs octets e
  statement-IsExclusive (insert_profile q) p e =
      same_users (create_pppoe_profile-users pg now db db' q e)
  statement-IsExclusive (change_profile q) p e =
      same_users (update_pppoe_profile-users pg now db db' q e)
  statement-IsExclusive (drop_profile j) p e = delete_pppoe_profile-IsExclusive j e
  statement-IsExclusive (insert_nas n) p e = same_users (create_nas-users pg now db db' n e)
  statement-IsExclusive (change_nas n) p e = same_users (update_nas-users pg now db db' n e)
  statement-IsExclusive (drop_nas j) p e = same_users (delete_nas-users pg now db db' j e)
  statement-IsExclusive (put_session s) p e = same_users (upsert_session-users pg now db db' s e)
  statement-IsExclusive (set_status j status stop) p e =
      same_users (update_session_status-users pg now db db' j status stop e)
  statement-IsExclusive (insert_package q) p e = same_users (create_package-users pg now db db' q e)
  statement-IsExclusive (change_package q) p e = same_users (update_package-users pg now db db' q e)
  statement-IsExclusive (drop_package j) p e = same_users (delete_package-users pg now db db' j e)

-- A statement that is sent keeps the promises, whatever becomes of it.
pub exec-IsSound :
    (pg : Postgres) (now : ℤ) (delivery : Delivery) (c : Command) (db : Database)
    → pg.uuid [] ≡ none
    → Proper c
    → IsSound db
    → IsSound (exec delivery (statement pg now c) db).0
unfolding exec
exec-IsSound pg now delivery c db law p s = elim (Option-cases (statement pg now c db)) [
  | inl bad ↦ ground (arith, bad, s)
  | inr (db', e) ↦
      let after : IsSound db' = record {
        consistent = statement-IsConsistent pg now c db db' s.consistent e;
        exclusive = statement-IsExclusive pg law now db db' s.exclusive c p e;
      } in
      ground (arith, e, s, after)
]
