-- ===== src/Handlers/Sound/Accounts.antt =====
-- The requests on NASes and subscribers keep what the tables promise.
use radius_go.Base.{
  ℕ, ◌≡◌, refl, subst, Bool, ◌&&◌, Option, none, some, List, [], ◌∷◌, if◌then◌else◌, arith, All,
  Bool-cases, Option-cases, ◌⊎◌, inl, inr,
}
use radius_go.Base.Text.{Str, is_empty, str_eq}
use radius_go.Domain.User.{
  RadiusUser, CreateUserRequest, UpdateUserRequest, CreateNasRequest, UpdateNasRequest,
}
use radius_go.PppoeProfiles.{Row, row, no_rows, failed}
use radius_go.Repository.{Postgres, Database, query}
use radius_go.Repository.Table.{first_where}
use radius_go.Repository.Users.{get_user_by_id}
use radius_go.Repository.Nases.{get_nas_by_id}
use radius_go.Repository.Consistent.{Command, statement}
use radius_go.Validate.{given_id, validate_mutual_exclusion}
use radius_go.Handlers.{Libraries, Link, perform, fetch, fetched}
use radius_go.Handlers.Nases.{
  new_nas, changed_nas, handle_create_nas, handle_update_nas, handle_delete_nas,
}
use radius_go.Handlers.Subscribers.{
  new_subscriber, changed_user, store_subscriber, choose_profile, handle_create_subscriber,
  write_subscriber, change_profile, change_subscriber, handle_update_subscriber,
  handle_delete_subscriber,
}
use radius_go.Handlers.Sound.{IsExclusive, IsSound, Proper, exec-IsSound}

pub Row-cases {ℓ} :
    {A : Type ℓ} (r : Row A)
    → (r ≡ no_rows) ⊎ (((e : Str) × (r ≡ failed e)) ⊎ ((a : A) × (r ≡ row a)))
Row-cases (row a) = inr (inr (a, refl))
Row-cases no_rows = inl refl
Row-cases (failed e) = inr (inl (e, refl))

first_where-All :
    {A : Type 0} (P : A → Type 0) (p : A → Bool) (rows : List A) (a : A)
    → All P rows
    → first_where p rows ≡ some a
    → P a
unfolding first_where
first_where-All P p [] a h e = absurd (cc (e))
first_where-All P p (b ∷ rows) a h e = elim (Bool-cases (p b)) [
  | inl it ↦ subst P (ground (arith, it, e)) h.0
  | inr other ↦ first_where-All P p rows a h.1 (ground (arith, other, e))
]

-- A row that a query gave was in the table.
fetch-row :
    {A : Type 0} (link : Link) (k : ℕ) (f : Database → Row A) (db : Database) (a : A)
    → fetch link k f db ≡ row a
    → f (link.before k db) ≡ row a
unfolding query fetched
fetch-row link k f db a e = ground (arith, e)

get_user_by_id-IsExclusive :
    (pg : Postgres) (id : Str) (db : Database) (u : RadiusUser)
    → All IsExclusive db.users
    → get_user_by_id pg id db ≡ row u
    → IsExclusive u
unfolding get_user_by_id
get_user_by_id-IsExclusive pg id db u h e = elim (Option-cases (pg.uuid id)) [
  | inl n ↦ absurd (ground (arith, n, e))
  | inr (key, k) ↦
      first_where-All IsExclusive (λ v. str_eq v.id key) db.users u h
        (elim (Option-cases (first_where (λ (v : RadiusUser). str_eq v.id key) db.users)) [
          | inl n ↦ absurd (ground (arith, k, n, e))
          | inr (v, found) ↦ ground (arith, k, found, e)
        ])
]

module _ (lib : Libraries) (link : Link) (law : lib.pg.uuid [] ≡ none)
    (others : (k : ℕ) (db : Database) → IsSound db → IsSound (link.before k db)) where
  pub perform-IsSound :
      (k : ℕ) (c : Command) (db : Database)
      → Proper c
      → IsSound db
      → IsSound (perform link k (λ now. statement lib.pg now c) db).0
  perform-IsSound k c db p s =
      exec-IsSound lib.pg (link.now k) (link.delivery k) c (link.before k db) law p (others k db s)

  pub handle_create_nas-IsSound :
      (id : Str) (body : Option CreateNasRequest) (db : Database)
      → IsSound db
      → IsSound (handle_create_nas lib link id body db).database
  unfolding handle_create_nas statement
  handle_create_nas-IsSound id none db s = s
  handle_create_nas-IsSound id (some req) db s =
      ground (arith, s, perform-IsSound 0 (Command.insert_nas (new_nas id req)) db tt s)

  pub handle_update_nas-IsSound :
      (id : Str) (body : Option UpdateNasRequest) (db : Database)
      → IsSound db
      → IsSound (handle_update_nas lib link id body db).database
  unfolding handle_update_nas statement
  handle_update_nas-IsSound id none db s = ground (arith, s)
  handle_update_nas-IsSound id (some req) db s =
      let s' = others 0 db s in
      elim (Row-cases (fetch link 0 (get_nas_by_id lib.pg id) db)) [
        | inl n ↦ ground (arith, s, s', n)
        | inr (inl (e, n)) ↦ ground (arith, s, s', n)
        | inr (inr (old, n)) ↦ ground (
          arith,
          s,
          n,
          perform-IsSound 1 (Command.change_nas (changed_nas req old)) (link.before 0 db) tt s',
        )
      ]

  pub handle_delete_nas-IsSound :
      (id : Str) (db : Database) → IsSound db → IsSound (handle_delete_nas lib link id db).database
  unfolding handle_delete_nas statement
  handle_delete_nas-IsSound id db s =
      ground (arith, s, perform-IsSound 0 (Command.drop_nas id) db tt s)

  store_subscriber-IsSound :
      (id : Str) (req : CreateUserRequest) (profile : Option Str) (db : Database)
      → IsSound db
      → IsSound (store_subscriber lib link id req profile db).database
  unfolding store_subscriber statement
  store_subscriber-IsSound id req profile db s = elim (Option-cases (lib.hash req.password)) [
    | inl n ↦ ground (arith, s, n)
    | inr (hash, n) ↦ ground (
      arith,
      n,
      perform-IsSound 1 (Command.insert_user (new_subscriber id hash profile req)) db refl s,
    )
  ]

  pub handle_create_subscriber-IsSound :
      (id : Str) (body : Option CreateUserRequest) (db : Database)
      → IsSound db
      → IsSound (handle_create_subscriber lib link id body db).database
  unfolding handle_create_subscriber choose_profile
  handle_create_subscriber-IsSound id none db s = s
  handle_create_subscriber-IsSound id (some req) db s =
      let s' = others 0 db s in
      ground (
        arith,
        s,
        s',
        store_subscriber-IsSound id req none db s,
        store_subscriber-IsSound id req (some req.pppoe_profile_id) (link.before 0 db) s',
      )

  write_subscriber-IsSound :
      (user : RadiusUser) (db : Database)
      → IsExclusive user
      → IsSound db
      → IsSound (write_subscriber lib link user db).database
  unfolding write_subscriber statement
  write_subscriber-IsSound user db ex s =
      ground (arith, perform-IsSound 2 (Command.change_user user) db ex s)

  change_profile-IsSound :
      (profile : Option Str) (user : RadiusUser) (db : Database)
      → IsExclusive user
      → IsSound db
      → IsSound (change_profile lib link profile user db).database
  unfolding change_profile validate_mutual_exclusion
  change_profile-IsSound none user db ex s = write_subscriber-IsSound user db ex s
  change_profile-IsSound (some id) user db ex s =
      let s' = others 1 db s in
      elim (Bool-cases (given_id user.voucher_package_id && given_id (some id))) [
        | inl both ↦ ground (
          arith,
          s,
          both,
          write_subscriber-IsSound (record user { pppoe_profile_id = none }) db (ground arith) s,
        )
        | inr free ↦ ground (
          arith,
          s,
          s',
          free,
          write_subscriber-IsSound (record user { pppoe_profile_id = none }) db (ground arith) s,
          write_subscriber-IsSound (record user { pppoe_profile_id = some id }) (link.before 1 db)
              free s',
        )
      ]

  change_subscriber-IsSound :
      (req : UpdateUserRequest) (user : RadiusUser) (db : Database)
      → IsExclusive user
      → IsSound db
      → IsSound (change_subscriber lib link req user db).database
  unfolding change_subscriber
  change_subscriber-IsSound req user db ex s =
      elim (Option-cases
        (if is_empty req.password then some user.password_hash else lib.hash req.password)) [
          | inl n ↦ ground (arith, s, n)
          | inr (hash, n) ↦ ground (
            arith,
            n,
            change_profile-IsSound req.pppoe_profile_id (changed_user req hash user) db ex s,
          )
        ]

  pub handle_update_subscriber-IsSound :
      (id : Str) (body : Option UpdateUserRequest) (db : Database)
      → IsSound db
      → IsSound (handle_update_subscriber lib link id body db).database
  unfolding handle_update_subscriber
  handle_update_subscriber-IsSound id none db s = ground (arith, s)
  handle_update_subscriber-IsSound id (some req) db s =
      let s' = others 0 db s in
      elim (Row-cases (fetch link 0 (get_user_by_id lib.pg id) db)) [
        | inl n ↦ ground (arith, s, s', n)
        | inr (inl (e, n)) ↦ ground (arith, s, s', n)
        | inr (inr (old, n)) ↦
            let ex =
              get_user_by_id-IsExclusive lib.pg id (link.before 0 db) old s'.exclusive
                (fetch-row link 0 (get_user_by_id lib.pg id) db old n) in
            ground (arith, s, n, change_subscriber-IsSound req old (link.before 0 db) ex s')
      ]

  pub handle_delete_subscriber-IsSound :
      (id : Str) (db : Database)
      → IsSound db
      → IsSound (handle_delete_subscriber lib link id db).database
  unfolding handle_delete_subscriber statement
  handle_delete_subscriber-IsSound id db s =
      ground (arith, s, perform-IsSound 0 (Command.drop_user id) db tt s)
