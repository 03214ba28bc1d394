-- ===== src/Repository/Consistent/Accounts.antt =====
-- The statements of internal/radius/repository.go on radius_users keep the constraints.
use radius_go.Base.{
  ◌≡◌, refl, sym, subst, Bool, true, false, Option, none, some, List, [], ◌∷◌, ◌++◌, arith,
  Bool-cases, Option-cases, inl, inr, ◌>>=◌, if◌then◌else◌,
}
use radius_go.Base.Int.{ℤ}
use radius_go.Base.Text.{Str, str_eq}
use radius_go.Domain.User.{RadiusUser}
use radius_go.Repository.{Postgres, Database, stored_uuid}
use radius_go.Repository.Table.{update_where, delete_where, exists, IsDistinct}
use radius_go.Repository.Table.Distinct.{
  append-IsDistinct, delete-IsDistinct, update-IsDistinct, rename-IsDistinct, update_where-none,
}
use radius_go.Repository.Users.{
  create_user, update_user, delete_user, set_user, add_usage_delta, written, insertable, changeable,
  used, inserted,
}
use radius_go.Repository.Consistent.{
  Assigned, IsConsistent, Assigned-append, Assigned-delete, Assigned-update,
}

-- `if ok then some a else none` that succeeds.
pub if_some {ℓ} :
    {A : Type ℓ} (ok : Bool) (a b : A)
    → (if ok then some a else none) ≡ some b
    → (ok ≡ true) × (a ≡ b)
if_some true a b h = (refl, cc (h))
if_some false a b h = absurd (cc (h))

with_users :
    (db : Database) (users : List RadiusUser)
    → IsConsistent db
    → IsDistinct (λ u. u.id) users
    → IsDistinct (λ u. u.username) users
    → Assigned db.profiles users
    → IsConsistent (record db { users = users })
with_users db users c ids names assigned = record {
  user_ids = ids;
  usernames = names;
  profile_ids = c.profile_ids;
  profile_names = c.profile_names;
  nas_ids = c.nas_ids;
  session_ids = c.session_ids;
  package_ids = c.package_ids;
  assigned = assigned;
}

module _ (pg : Postgres) where
  -- The identifiers of a user that the server can read.
  pub user_keys :
      (user : RadiusUser) (db' : Database) (f : Str → Option Str → Option Str → Option Database)
      → (do
        key ← pg.uuid user.id
        profile ← stored_uuid pg user.pppoe_profile_id
        pkg ← stored_uuid pg user.voucher_package_id
        f key profile pkg)
        ≡ some db'
      → (key : Str) × (profile : Option Str) × (pkg : Option Str) × (pg.uuid user.id ≡ some key)
        × (stored_uuid pg user.pppoe_profile_id ≡ some profile)
        × (stored_uuid pg user.voucher_package_id ≡ some pkg)
        × (f key profile pkg ≡ some db')
  user_keys user db' f e = elim (Option-cases (pg.uuid user.id)) [
    | inl n ↦ absurd (ground (arith, n, e))
    | inr (key, k) ↦ elim (Option-cases (stored_uuid pg user.pppoe_profile_id)) [
      | inl n ↦ absurd (ground (arith, k, n, e))
      | inr (profile, kp) ↦ elim (Option-cases (stored_uuid pg user.voucher_package_id)) [
        | inl n ↦ absurd (ground (arith, k, kp, n, e))
        | inr (pkg, kk) ↦ (key, profile, pkg, k, kp, kk, ground (arith, k, kp, kk, e))
      ]
    ]
  ]

  pub create_user-IsConsistent :
      (now : ℤ) (user : RadiusUser) (db db' : Database)
      → IsConsistent db
      → create_user pg now user db ≡ some db'
      → IsConsistent db'
  unfolding create_user
  create_user-IsConsistent now user db db' c e =
      let (key, profile, pkg, k, kp, kk, e') =
        user_keys user db'
          (λ key profile pkg.
            if insertable pg user key profile db
            then some (record db { users = db.users ++ inserted now user key profile pkg ∷ [] })
            else none)
          e in
      let new = inserted now user key profile pkg in
      let (ok, same) =
        if_some (insertable pg user key profile db) (record db { users = db.users ++ new ∷ [] }) db'
          e' in
      subst IsConsistent same (
        with_users db (db.users ++ new ∷ []) c
          (append-IsDistinct (λ u. u.id) new db.users c.user_ids (ground (arith, ok)))
          (append-IsDistinct (λ u. u.username) new db.users c.usernames (ground (arith, ok)))
          (Assigned-append db.profiles new db.users c.assigned (ground (arith, ok))))

  pub update_user-IsConsistent :
      (now : ℤ) (user : RadiusUser) (db db' : Database)
      → IsConsistent db
      → update_user pg now user db ≡ some db'
      → IsConsistent db'
  unfolding update_user
  update_user-IsConsistent now user db db' c e =
      let (key, profile, pkg, k, kp, kk, e') =
        user_keys user db'
          (λ key profile pkg.
            if changeable pg user key profile db
            then some (record db {
              users = update_where (λ u. str_eq u.id key) (written now user profile pkg) db.users;
            })
            else none)
          e in
      let set : RadiusUser → RadiusUser = written now user profile pkg in
      let (ok, same) =
        if_some (changeable pg user key profile db)
          (record db { users = update_where (λ u. str_eq u.id key) set db.users }) db' e' in
      subst IsConsistent same
        (elim (Bool-cases (exists (λ (u : RadiusUser). str_eq u.id key) db.users)) [
          | inl here ↦
              with_users db (update_where (λ u. str_eq u.id key) set db.users) c
                (update-IsDistinct (λ u. u.id) (λ u. str_eq u.id key) set db.users (λ u. refl)
                  c.user_ids)
                (rename-IsDistinct (λ u. u.id) (λ u. u.username) key user.username set db.users
                  (λ u. refl) c.user_ids c.usernames (ground (arith, ok, here)))
                (Assigned-update db.profiles (λ u. str_eq u.id key) set db.users
                  (λ u h. ground (arith, ok, here)) c.assigned)
          | inr gone ↦
              subst (λ (users : List RadiusUser). IsConsistent (record db { users = users }))
                (sym (update_where-none (λ u. str_eq u.id key) set db.users gone)) c
        ])

  pub set_user-IsConsistent :
      (id : Str) (f : RadiusUser → RadiusUser) (db db' : Database)
      → ((u : RadiusUser) → (f u).id ≡ u.id)
      → ((u : RadiusUser) → (f u).username ≡ u.username)
      → ((u : RadiusUser) → (f u).pppoe_profile_id ≡ u.pppoe_profile_id)
      → IsConsistent db
      → set_user pg id f db ≡ some db'
      → IsConsistent db'
  set_user-IsConsistent id f db db' ids names profiles c e = elim (Option-cases (pg.uuid id)) [
    | inl n ↦ absurd (ground (arith, n, e))
    | inr (key, k) ↦
        let same : record db { users = update_where (λ u. str_eq u.id key) f db.users } ≡ db' =
          ground (arith, k, e) in
        subst IsConsistent same (
          with_users db (update_where (λ u. str_eq u.id key) f db.users) c
            (update-IsDistinct (λ u. u.id) (λ u. str_eq u.id key) f db.users ids c.user_ids)
            (update-IsDistinct (λ u. u.username) (λ u. str_eq u.id key) f db.users names
              c.usernames)
            (Assigned-update db.profiles (λ u. str_eq u.id key) f db.users
              (λ u h. rw (profiles u) h) c.assigned))
  ]

  pub delete_user-IsConsistent :
      (id : Str) (db db' : Database)
      → IsConsistent db
      → delete_user pg id db ≡ some db'
      → IsConsistent db'
  unfolding delete_user
  delete_user-IsConsistent id db db' c e = elim (Option-cases (pg.uuid id)) [
    | inl n ↦ absurd (ground (arith, n, e))
    | inr (key, k) ↦
        let same : record db { users = delete_where (λ u. str_eq u.id key) db.users } ≡ db' =
          ground (arith, k, e) in
        subst IsConsistent same (
          with_users db (delete_where (λ u. str_eq u.id key) db.users) c
            (delete-IsDistinct (λ u. u.id) (λ u. str_eq u.id key) db.users c.user_ids)
            (delete-IsDistinct (λ u. u.username) (λ u. str_eq u.id key) db.users c.usernames)
            (Assigned-delete db.profiles (λ u. str_eq u.id key) db.users c.assigned))
  ]

  pub add_usage_delta-IsConsistent :
      (now : ℤ) (id : Str) (secs octets : ℤ) (db db' : Database)
      → IsConsistent db
      → add_usage_delta pg now id secs octets db ≡ some db'
      → IsConsistent db'
  unfolding add_usage_delta
  add_usage_delta-IsConsistent now id secs octets db db' c e = elim (Option-cases (pg.uuid id)) [
    | inl n ↦ absurd (ground (arith, n, e))
    | inr (key, k) ↦
        set_user-IsConsistent id (used now secs octets) db db' (λ u. refl) (λ u. refl) (λ u. refl) c
          (ground (arith, k, e))
  ]
