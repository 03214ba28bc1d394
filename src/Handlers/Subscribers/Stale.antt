-- ===== src/Handlers/Subscribers/Stale.antt =====
-- HandleUpdateSubscriber reads a row, changes fields of its copy and writes the copy back.
use radius_go.Base.{
  ◌≡◌, refl, ◌∙◌, ap, Bool, false, Option, none, some, List, [], ◌∷◌, if◌then◌else◌, arith,
  Bool-cases, Option-cases, inl, inr,
}
use radius_go.Base.Int.{ℤ}
use radius_go.Base.Text.{Str, is_empty, str_eq}
use radius_go.Domain.User.{RadiusUser, UpdateUserRequest}
use radius_go.PppoeProfiles.{row}
use radius_go.Repository.{Postgres, Database, exec}
use radius_go.Repository.Table.{first_where, update_where}
use radius_go.Repository.Users.{update_user, get_user_by_id, changeable, written}
use radius_go.Repository.Consistent.Accounts.{if_some, user_keys}
use radius_go.Handlers.{Libraries, Link, fetch}
use radius_go.Handlers.Refused.{is_failure}
use radius_go.Handlers.Subscribers.{
  changed_user, write_subscriber, change_profile, change_subscriber, handle_update_subscriber,
}

-- What an update of the rows of a key leaves under the key.
first_where-update :
    {A : Type 0} (q : A → Bool) (f : A → A) (rows : List A) (a : A)
    → ((b : A) → q (f b) ≡ q b)
    → first_where q (update_where q f rows) ≡ some a
    → (b : A) × (a ≡ f b)
unfolding first_where update_where
first_where-update q f [] a same e = absurd (cc (e))
first_where-update q f (b ∷ rows) a same e = elim (Bool-cases (q b)) [
  | inl it ↦ (b, ground (arith, it, same b, e))
  | inr other ↦ first_where-update q f rows a same (ground (arith, other, e))
]

-- The row of a user has the usage of the user who was written.
abbrev HasUsageOf : Postgres → RadiusUser → Database → Type 0
HasUsageOf pg user db =
    (u : RadiusUser)
    → get_user_by_id pg user.id db ≡ row u
    → (u.data_bytes_used ≡ user.data_bytes_used) × (u.usage_seconds_used ≡ user.usage_seconds_used)

update_user-HasUsageOf :
    (pg : Postgres) (now : ℤ) (user : RadiusUser) (db db' : Database)
    → update_user pg now user db ≡ some db'
    → HasUsageOf pg user db'
unfolding update_user get_user_by_id
update_user-HasUsageOf pg now user db db' e u found =
    let (key, profile, pkg, k, kp, kk, e') =
      user_keys pg user db'
        (λ key profile pkg.
          if changeable pg user key profile db
          then some (record db {
            users = update_where (λ v. str_eq v.id key) (written now user profile pkg) db.users;
          })
          else none)
        e in
    let set : RadiusUser → RadiusUser = written now user profile pkg in
    let (ok, same) =
      if_some (changeable pg user key profile db)
        (record db { users = update_where (λ v. str_eq v.id key) set db.users }) db' e' in
    let users : update_where (λ v. str_eq v.id key) set db.users ≡ db'.users =
      ap (λ (d : Database). d.users) same in
    let at : first_where (λ (v : RadiusUser). str_eq v.id key) db'.users ≡ some u =
      elim (Option-cases (first_where (λ (v : RadiusUser). str_eq v.id key) db'.users)) [
        | inl n ↦ absurd (ground (arith, k, n, found))
        | inr (v, n) ↦ ground (arith, k, n, found)
      ] in
    let (b, is) =
      first_where-update (λ v. str_eq v.id key) set db.users u (λ v. refl)
        (ap (first_where (λ (v : RadiusUser). str_eq v.id key)) users ∙ at) in
    ground (arith, is)

module _ (lib : Libraries) (link : Link) where
  write_subscriber-HasUsageOf :
      (user : RadiusUser) (db : Database)
      → is_failure (write_subscriber lib link user db).response ≡ false
      → HasUsageOf lib.pg user (write_subscriber lib link user db).database
  unfolding write_subscriber exec
  write_subscriber-HasUsageOf user db h =
      let f = update_user lib.pg (link.now 2) user in
      elim (Option-cases (f (link.before 2 db))) [
        | inl n ↦ absurd (ground (arith, n, h))
        | inr (db', n) ↦ λ u found.
            update_user-HasUsageOf lib.pg (link.now 2) user (link.before 2 db) db' n u
              (ground (arith, n, h, found))
      ]

  change_profile-usage :
      (profile : Option Str) (user : RadiusUser) (db : Database) (u : RadiusUser)
      → is_failure (change_profile lib link profile user db).response ≡ false
      → get_user_by_id lib.pg user.id (change_profile lib link profile user db).database ≡ row u
      → (u.data_bytes_used ≡ user.data_bytes_used)
        × (u.usage_seconds_used ≡ user.usage_seconds_used)
  unfolding change_profile
  change_profile-usage none user db u h found = write_subscriber-HasUsageOf user db h u found
  change_profile-usage (some id) user db u h found =
      let free : RadiusUser = record user { pppoe_profile_id = none } in
      let assigned : RadiusUser = record user { pppoe_profile_id = some id } in
      ground (
        arith,
        h,
        found,
        λ (k : is_failure (write_subscriber lib link free db).response ≡ false).
            write_subscriber-HasUsageOf free db k u,
        λ (k : is_failure (write_subscriber lib link assigned (link.before 1 db)).response ≡ false).
            write_subscriber-HasUsageOf assigned (link.before 1 db) k u,
      )

  change_subscriber-usage :
      (req : UpdateUserRequest) (user : RadiusUser) (db : Database) (u : RadiusUser)
      → is_failure (change_subscriber lib link req user db).response ≡ false
      → get_user_by_id lib.pg user.id (change_subscriber lib link req user db).database ≡ row u
      → (u.data_bytes_used ≡ user.data_bytes_used)
        × (u.usage_seconds_used ≡ user.usage_seconds_used)
  unfolding change_subscriber
  change_subscriber-usage req user db u h found =
      elim (Option-cases
        (if is_empty req.password then some user.password_hash else lib.hash req.password)) [
          | inl n ↦ absurd (ground (arith, n, h))
          | inr (hash, n) ↦
              change_profile-usage req.pppoe_profile_id (changed_user req hash user) db u
                (ground (arith, n, h)) (ground (arith, n, found))
        ]

  -- PUT /api/v1/radius/subscribers/{id} writes back the usage that it read: after an update that was
  -- answered by no error the row has the usage from before the update, whatever other clients, such
  -- as AddUsageDelta of an accounting request, committed between its statements.
  pub handle_update_subscriber-usage :
      (id : Str) (req : UpdateUserRequest) (db : Database) (existing u : RadiusUser)
      → fetch link 0 (get_user_by_id lib.pg id) db ≡ row existing
      → is_failure (handle_update_subscriber lib link id (some req) db).response ≡ false
      → get_user_by_id lib.pg existing.id
          (handle_update_subscriber lib link id (some req) db).database
        ≡ row u
      → (u.data_bytes_used ≡ existing.data_bytes_used)
        × (u.usage_seconds_used ≡ existing.usage_seconds_used)
  unfolding handle_update_subscriber
  handle_update_subscriber-usage id req db existing u read h found = ground (
    arith,
    read,
    h,
    found,
    λ (k : is_failure (change_subscriber lib link req existing (link.before 0 db)).response
          ≡ false).
        change_subscriber-usage req existing (link.before 0 db) u k,
  )
