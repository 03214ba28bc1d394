-- ===== src/Repository/Consistent/Tables.antt =====
-- The statements of internal/radius/repository.go on pppoe_profiles keep the constraints.
use radius_go.Base.{
  ◌≡◌, refl, sym, subst, true, ◌&&◌, not, Option, some, List, [], ◌∷◌, ◌++◌, arith, Bool-cases,
  Option-cases, inl, inr,
}
use radius_go.Base.Int.{ℤ}
use radius_go.Base.Text.{Str, str_eq}
use radius_go.Domain.Pppoe.{PppoeProfile}
use radius_go.Repository.{Postgres, Database}
use radius_go.Repository.Table.{update_where, delete_where, exists, IsDistinct}
use radius_go.Repository.Table.Distinct.{
  append-IsDistinct, delete-IsDistinct, update-IsDistinct, rename-IsDistinct, update_where-none,
}
use radius_go.Repository.Users.{profile_there}
use radius_go.Repository.Profiles.{
  create_pppoe_profile, update_pppoe_profile, delete_pppoe_profile, replaced, unassigned,
  profile_fits, profile_name_taken,
}
use radius_go.Repository.Consistent.{
  IsConsistent, Assigned-mono, Assigned-drop, profile_there-append, profile_there-update,
}
use radius_go.Repository.Consistent.Accounts.{if_some}

with_profiles :
    (db : Database) (profiles : List PppoeProfile)
    → IsConsistent db
    → IsDistinct (λ p. p.id) profiles
    → IsDistinct (λ p. p.name) profiles
    → ((id : Option Str) → profile_there id db.profiles ≡ true → profile_there id profiles ≡ true)
    → IsConsistent (record db { profiles = profiles })
with_profiles db profiles c ids names more = record {
  user_ids = c.user_ids;
  usernames = c.usernames;
  profile_ids = ids;
  profile_names = names;
  nas_ids = c.nas_ids;
  session_ids = c.session_ids;
  package_ids = c.package_ids;
  assigned = Assigned-mono db.profiles profiles db.users more c.assigned;
}

module _ (pg : Postgres) (now : ℤ) (db db' : Database) (c : IsConsistent db) where
  pub create_pppoe_profile-IsConsistent :
      (p : PppoeProfile) → create_pppoe_profile pg now p db ≡ some db' → IsConsistent db'
  unfolding create_pppoe_profile
  create_pppoe_profile-IsConsistent p e = elim (Option-cases (pg.uuid p.id)) [
    | inl n ↦ absurd (ground (arith, n, e))
    | inr (key, k) ↦
        let new : PppoeProfile = record p { id = key; created_at = now; updated_at = now } in
        let (ok, same) =
          if_some
            (profile_fits pg p
              && not (exists (λ q. str_eq q.id key) db.profiles)
              && not (exists (λ q. str_eq q.name p.name) db.profiles))
            (record db { profiles = db.profiles ++ new ∷ [] }) db' (ground (arith, k, e)) in
        subst IsConsistent same (
          with_profiles db (db.profiles ++ new ∷ []) c
            (append-IsDistinct (λ q. q.id) new db.profiles c.profile_ids (ground (arith, ok)))
            (append-IsDistinct (λ q. q.name) new db.profiles c.profile_names (ground (arith, ok)))
            (profile_there-append new db.profiles))
  ]

  pub update_pppoe_profile-IsConsistent :
      (p : PppoeProfile) → update_pppoe_profile pg now p db ≡ some db' → IsConsistent db'
  unfolding update_pppoe_profile
  update_pppoe_profile-IsConsistent p e = elim (Option-cases (pg.uuid p.id)) [
    | inl n ↦ absurd (ground (arith, n, e))
    | inr (key, k) ↦
        let set : PppoeProfile → PppoeProfile = replaced now p in
        let (ok, same) =
          if_some (profile_fits pg p && not (profile_name_taken key p.name db))
            (record db { profiles = update_where (λ q. str_eq q.id key) set db.profiles }) db'
            (ground (arith, k, e)) in
        subst IsConsistent same
          (elim (Bool-cases (exists (λ (q : PppoeProfile). str_eq q.id key) db.profiles)) [
            | inl here ↦
                with_profiles db (update_where (λ q. str_eq q.id key) set db.profiles) c
                  (update-IsDistinct (λ q. q.id) (λ q. str_eq q.id key) set db.profiles (λ q. refl)
                    c.profile_ids)
                  (rename-IsDistinct (λ q. q.id) (λ q. q.name) key p.name set db.profiles
                    (λ q. refl) c.profile_ids c.profile_names (ground (arith, ok, here)))
                  (profile_there-update (λ q. str_eq q.id key) set db.profiles (λ q. refl))
            | inr gone ↦
                subst (λ (l : List PppoeProfile). IsConsistent (record db { profiles = l }))
                  (sym (update_where-none (λ q. str_eq q.id key) set db.profiles gone)) c
          ])
  ]

  pub delete_pppoe_profile-IsConsistent :
      (id : Str) → delete_pppoe_profile pg id db ≡ some db' → IsConsistent db'
  unfolding delete_pppoe_profile
  delete_pppoe_profile-IsConsistent id e = elim (Option-cases (pg.uuid id)) [
    | inl n ↦ absurd (ground (arith, n, e))
    | inr (key, k) ↦
        let after : Database = record db {
          profiles = delete_where (λ p. str_eq p.id key) db.profiles;
          users = update_where (λ u. true) (unassigned key) db.users;
        } in
        let same : after ≡ db' = ground (arith, k, e) in
        subst IsConsistent same (record {
          user_ids =
              update-IsDistinct (λ u. u.id) (λ u. true) (unassigned key) db.users
                (λ u. ground arith) c.user_ids;
          usernames =
              update-IsDistinct (λ u. u.username) (λ u. true) (unassigned key) db.users
                (λ u. ground arith) c.usernames;
          profile_ids =
              delete-IsDistinct (λ p. p.id) (λ p. str_eq p.id key) db.profiles c.profile_ids;
          profile_names =
              delete-IsDistinct (λ p. p.name) (λ p. str_eq p.id key) db.profiles c.profile_names;
          nas_ids = c.nas_ids;
          session_ids = c.session_ids;
          package_ids = c.package_ids;
          assigned = Assigned-drop key db.profiles db.users c.assigned;
        })
  ]
