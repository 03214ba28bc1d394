-- ===== src/System/Foreign.antt =====
-- Statements that leave the usage of a voucher's row alone: those that write a user.
pub mod Statements
use radius_go.Base.{
  ℕ, ◌≡◌, refl, sym, ◌∙◌, ap, subst, Bool, true, false, none, some, List, [], ◌∷◌, ◌++◌,
  if◌then◌else◌, arith, All, Bool-cases, Option-cases, inl, inr,
}
use radius_go.Base.Int.{ℤ}
use radius_go.Base.Text.{Str, str_eq, str_eq_iff}
use radius_go.Domain.User.{RadiusUser}
use radius_go.Repository.{Postgres, Database}
use radius_go.Repository.Table.{update_where, delete_where, exists, first_where}
use radius_go.Repository.Table.Distinct.{exists-append, exists-update_same, update_where-none}
use radius_go.Repository.Users.{
  create_user, update_user, delete_user, set_user, first_login, record_first_login, add_usage_delta,
  disable_user, insertable, changeable, name_taken, inserted, written, used,
}
use radius_go.Repository.Profiles.{delete_pppoe_profile, unassigned}
use radius_go.Repository.Consistent.{
  Command, statement, insert_user, change_user, drop_user, lock_user, log_in, add_usage,
  insert_profile, change_profile, drop_profile, insert_nas, change_nas, drop_nas, put_session,
  set_status, insert_package, change_package, drop_package,
}
use radius_go.Repository.Consistent.Accounts.{if_some, user_keys}
use radius_go.Service.{Task}
use radius_go.System.{names_row, is_foreign, adds_to, run_task}
use radius_go.Repository.Table.Every.{All-append, All-delete, All-update}
use radius_go.System.Rows.{
  Tracked, name_is_taken, name_is_taken_by_other, create_nas-users, update_nas-users,
  delete_nas-users, upsert_session-users, update_session_status-users, create_package-users,
  update_package-users, delete_package-users, create_pppoe_profile-users,
  update_pppoe_profile-users,
}

-- The table has the row of the voucher, with some octets, and no other row of its name.
pub record HasRow (name id : Str) (d : ℕ) (users : List RadiusUser) : Type 0 where
  pub rows : All (Tracked name id d) users
  pub there : exists (λ u. str_eq u.id id) users ≡ true

-- An update of any row that keeps the four columns.
pub update-HasRow :
    (name id : Str) (d : ℕ) (q : RadiusUser → Bool) (f : RadiusUser → RadiusUser)
    (users : List RadiusUser)
    → ((u : RadiusUser) → (f u).id ≡ u.id)
    → ((u : RadiusUser) → (f u).username ≡ u.username)
    → ((u : RadiusUser) → (f u).is_voucher ≡ u.is_voucher)
    → ((u : RadiusUser) → (f u).data_bytes_used ≡ u.data_bytes_used)
    → HasRow name id d users
    → HasRow name id d (update_where q f users)
update-HasRow name id d q f users ids names vouchers bytes h = record {
  rows =
      All-update (Tracked name id d) (Tracked name id d) q f users
        (λ u t. elim (Bool-cases (q u)) [
          | inl at ↦ rw (at) (record {
            same = ground (arith, t.same, ids u, names u);
            voucher = ground (arith, t.voucher, ids u, vouchers u);
            bytes = λ k. bytes u ∙ t.bytes (ground (arith, k, ids u));
          })
          | inr off ↦ rw (off) t
        ])
        h.rows;
  there =
      exists-update_same (λ u. str_eq u.id id) q f users
        (λ u. ap (λ (s : Str). str_eq s id) (ids u))
      ∙ h.there;
}

pub exists_after_delete :
    (id key : Str) (users : List RadiusUser)
    → str_eq key id ≡ false
    → exists (λ u. str_eq u.id id) users ≡ true
    → exists (λ u. str_eq u.id id) (delete_where (λ u. str_eq u.id key) users) ≡ true
unfolding first_where delete_where
exists_after_delete id key [] other h = h
exists_after_delete id key (u ∷ users) other h = ground (
  arith,
  exists_after_delete id key users other,
  str_eq_iff u.id id,
  str_eq_iff u.id key,
  str_eq_iff key id,
)

module _ (pg : Postgres) (now : ℤ) (name id : Str) (d : ℕ) (db db' : Database)
    (h : HasRow name id d db.users) where
  pub create_user-HasRow :
      (user : RadiusUser) → create_user pg now user db ≡ some db' → HasRow name id d db'.users
  unfolding create_user
  create_user-HasRow user e =
      let (key, profile, pkg, k, kp, kk, e') =
        user_keys pg user db'
          (λ key profile pkg.
            if insertable pg user key profile db
            then some (record db { users = db.users ++ inserted now user key profile pkg ∷ [] })
            else none)
          e in
      let new = inserted now user key profile pkg in
      let (ok, same) =
        if_some (insertable pg user key profile db) (record db { users = db.users ++ new ∷ [] }) db'
          e' in
      let off =
        name_is_taken name id user.username d db.users h.rows h.there (ground (arith, ok)) in
      let other : str_eq key id ≡ false = elim (Bool-cases (str_eq key id)) [
        | inl it ↦
            let is : key ≡ id = (str_eq_iff key id).0 it in absurd (ground (arith, ok, h.there, is))
        | inr no_it ↦ no_it
      ] in
      subst (λ (q : Database). HasRow name id d q.users) same
        (record {
          rows = All-append (Tracked name id d) db.users (new ∷ []) h.rows (
            record {
              same = off ∙ sym other;
              voucher = ground (arith, other);
              bytes = λ k. absurd (cc (k, other));
            },
            tt,
          );
          there = exists-append (λ u. str_eq u.id id) new db.users ∙ ground (arith, h.there);
        })

  -- Another row under a name that is free: the rows of the change are not the voucher's.
  changed :
      (user : RadiusUser) (key : Str) (set : RadiusUser → RadiusUser)
      → str_eq key id ≡ false
      → ((u : RadiusUser) → (set u).id ≡ u.id)
      → ((u : RadiusUser) → (set u).username ≡ user.username)
      → name_taken key user.username db ≡ false
      → HasRow name id d (update_where (λ u. str_eq u.id key) set db.users)
  changed user key set other ids names free =
      elim (Bool-cases (exists (λ (u : RadiusUser). str_eq u.id key) db.users)) [
        | inr gone ↦
            subst (HasRow name id d)
              (sym (update_where-none (λ u. str_eq u.id key) set db.users gone)) h
        | inl here ↦
            let off =
              name_is_taken_by_other name id key user.username d db.users other h.rows h.there
                (ground (arith, here, free)) in
            record {
              rows =
                  All-update (Tracked name id d) (Tracked name id d) (λ u. str_eq u.id key) set
                    db.users
                    (λ u t. elim (Bool-cases (str_eq u.id key)) [
                      | inr away ↦ rw (away) t
                      | inl at ↦
                          let is : u.id ≡ key = (str_eq_iff u.id key).0 at in
                          rw (at) (record {
                            same = ground (arith, names u, ids u, off, is, other);
                            voucher = ground (arith, ids u, is, other);
                            bytes = λ k. absurd (ground (arith, k, ids u, is, other));
                          })
                    ])
                    h.rows;
              there =
                  exists-update_same (λ u. str_eq u.id id) (λ u. str_eq u.id key) set db.users
                    (λ u. ap (λ (s : Str). str_eq s id) (ids u))
                  ∙ h.there;
            }
      ]

  pub update_user-HasRow :
      (user : RadiusUser)
      → names_row pg id user.id ≡ false
      → update_user pg now user db ≡ some db'
      → HasRow name id d db'.users
  unfolding update_user
  update_user-HasRow user foreign e =
      let (key, profile, pkg, k, kp, kk, e') =
        user_keys pg user db'
          (λ key profile pkg.
            if changeable pg user key profile db
            then some (record db {
              users = update_where (λ u. str_eq u.id key) (written now user profile pkg) db.users;
            })
            else none)
          e in
      let set : RadiusUser → RadiusUser = written now user profile pkg in
      let (ok, same) =
        if_some (changeable pg user key profile db)
          (record db { users = update_where (λ u. str_eq u.id key) set db.users }) db' e' in
      subst (λ (q : Database). HasRow name id d q.users) same
        (changed user key set (ground (arith, k, foreign)) (λ u. refl) (λ u. refl)
          (ground (arith, ok)))
