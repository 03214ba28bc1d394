-- ===== src/Handlers/Refused.antt =====
-- What a request that is answered by an error leaves behind.
use radius_go.Base.{
  ℕ, ◌≡◌, Bool, true, false, Option, none, some, if◌then◌else◌, arith, Option-cases, inl, inr,
}
use radius_go.Base.Text.{Str, is_empty}
use radius_go.Domain.Pppoe.{UpdatePppoeProfileRequest}
use radius_go.Domain.User.{RadiusUser, CreateUserRequest, UpdateUserRequest, UpdateNasRequest}
use radius_go.Domain.Voucher.{UpdateVoucherPackageRequest}
use radius_go.Repository.{Database, answered, exec}
use radius_go.Repository.Nases.{get_nas_by_id}
use radius_go.Repository.Users.{get_user_by_id, get_user_by_username}
use radius_go.Repository.Packages.{get_package}
use radius_go.Repository.Profiles
use radius_go.Handlers.{Libraries, Link, Handled, Response, ok, created, fail, fetch}
use radius_go.Handlers.Nases.{handle_create_nas, handle_update_nas, handle_delete_nas}
use radius_go.Handlers.Subscribers.{
  changed_user, store_subscriber, choose_profile, handle_create_subscriber, write_subscriber,
  change_profile, change_subscriber, handle_update_subscriber, handle_delete_subscriber,
}
use radius_go.Handlers.Packages.{
  handle_create_voucher_package, handle_update_voucher_package, handle_delete_voucher_package,
  handle_list_voucher_packages, handle_list_vouchers, handle_voucher_balance,
}
use radius_go.Handlers.Profiles.{
  handle_list_pppoe_profiles, handle_create_pppoe_profile, handle_get_pppoe_profile,
  handle_update_pppoe_profile, handle_delete_pppoe_profile,
}
use radius_go.Handlers.Serve.{Call, serve}
use radius_go.Handlers.Sound.Accounts.{Row-cases}

abbrev pub is_failure : Response → Bool
is_failure (ok payload) = false
is_failure (created payload) = false
is_failure (fail status code message) = true

abbrev pub generates : Call → Bool
generates (Call.generate_vouchers numbers body) = true
generates _ = false

-- An error of a handler whose statements are answered changes nothing.
abbrev Unchanged : Handled → Database → Type 0
Unchanged h db = is_failure h.response ≡ true → (h.database ≡ db) × (h.refreshes ≡ false)

module _ (lib : Libraries) (link : Link) (quiet : (k : ℕ) (db : Database) → link.before k db ≡ db)
    (reached : (k : ℕ) → link.delivery k ≡ answered) where
  store_subscriber-Unchanged :
      (id : Str) (req : CreateUserRequest) (profile : Option Str) (db : Database)
      → Unchanged (store_subscriber lib link id req profile db) db
  unfolding store_subscriber exec
  store_subscriber-Unchanged id req profile db h = elim (Option-cases (lib.hash req.password)) [
    | inl n ↦ ground (arith, n)
    | inr (hash, n) ↦ ground (arith, n, quiet 1 db, reached 1, h)
  ]

  choose_profile-Unchanged :
      (id : Str) (req : CreateUserRequest) (db : Database)
      → Unchanged (choose_profile lib link id req db) db
  unfolding choose_profile
  choose_profile-Unchanged id req db h = ground (
    arith,
    h,
    quiet 0 db,
    store_subscriber-Unchanged id req none db,
    store_subscriber-Unchanged id req (some req.pppoe_profile_id) (link.before 0 db),
  )

  write_subscriber-Unchanged :
      (user : RadiusUser) (db : Database) → Unchanged (write_subscriber lib link user db) db
  unfolding write_subscriber exec
  write_subscriber-Unchanged user db h = ground (arith, quiet 2 db, reached 2, h)

  change_profile-Unchanged :
      (profile : Option Str) (user : RadiusUser) (db : Database)
      → Unchanged (change_profile lib link profile user db) db
  unfolding change_profile
  change_profile-Unchanged none user db h = write_subscriber-Unchanged user db h
  change_profile-Unchanged (some id) user db h = ground (
    arith,
    h,
    quiet 1 db,
    write_subscriber-Unchanged (record user { pppoe_profile_id = none }) db,
    write_subscriber-Unchanged (record user { pppoe_profile_id = some id }) (link.before 1 db),
  )

  change_subscriber-Unchanged :
      (req : UpdateUserRequest) (user : RadiusUser) (db : Database)
      → Unchanged (change_subscriber lib link req user db) db
  unfolding change_subscriber
  change_subscriber-Unchanged req user db h =
      elim (Option-cases
        (if is_empty req.password then some user.password_hash else lib.hash req.password)) [
          | inl n ↦ ground (arith, n)
          | inr (hash, n) ↦ ground (
            arith,
            h,
            n,
            change_profile-Unchanged req.pppoe_profile_id (changed_user req hash user) db,
          )
        ]

  handle_update_subscriber-Unchanged :
      (id : Str) (body : Option UpdateUserRequest) (db : Database)
      → Unchanged (handle_update_subscriber lib link id body db) db
  unfolding handle_update_subscriber
  handle_update_subscriber-Unchanged id none db h = ground (arith, h)
  handle_update_subscriber-Unchanged id (some req) db h =
      elim (Row-cases (fetch link 0 (get_user_by_id lib.pg id) db)) [
        | inl n ↦ ground (arith, h, n, quiet 0 db)
        | inr (inl (e, n)) ↦ ground (arith, h, n, quiet 0 db)
        | inr (inr (old, n)) ↦
            ground (arith, h, n, quiet 0 db, change_subscriber-Unchanged req old (link.before 0 db))
      ]

  handle_update_nas-Unchanged :
      (id : Str) (body : Option UpdateNasRequest) (db : Database)
      → Unchanged (handle_update_nas lib link id body db) db
  unfolding handle_update_nas exec
  handle_update_nas-Unchanged id none db h = ground (arith, h)
  handle_update_nas-Unchanged id (some req) db h =
      elim (Row-cases (fetch link 0 (get_nas_by_id lib.pg id) db)) [
        | inl n ↦ ground (arith, h, n, quiet 0 db)
        | inr (inl (e, n)) ↦ ground (arith, h, n, quiet 0 db)
        | inr (inr (old, n)) ↦
            ground (arith, h, n, quiet 0 db, quiet 1 (link.before 0 db), reached 1)
      ]

  handle_update_voucher_package-Unchanged :
      (id : Str) (body : Option UpdateVoucherPackageRequest) (db : Database)
      → Unchanged (handle_update_voucher_package lib link id body db) db
  unfolding handle_update_voucher_package exec
  handle_update_voucher_package-Unchanged id none db h = ground (arith, h)
  handle_update_voucher_package-Unchanged id (some req) db h =
      elim (Row-cases (fetch link 0 (get_package lib.pg id) db)) [
        | inl n ↦ ground (arith, h, n, quiet 0 db)
        | inr (inl (e, n)) ↦ ground (arith, h, n, quiet 0 db)
        | inr (inr (old, n)) ↦
            ground (arith, h, n, quiet 0 db, quiet 1 (link.before 0 db), reached 1)
      ]

  handle_update_pppoe_profile-Unchanged :
      (id : Str) (body : Option UpdatePppoeProfileRequest) (db : Database)
      → Unchanged (handle_update_pppoe_profile lib link id body db) db
  unfolding handle_update_pppoe_profile exec
  handle_update_pppoe_profile-Unchanged id none db h = ground (arith, h)
  handle_update_pppoe_profile-Unchanged id (some req) db h =
      elim (Row-cases (fetch link 0 (Profiles.get_pppoe_profile lib.pg id) db)) [
        | inl n ↦ ground (arith, h, n, quiet 0 db)
        | inr (inl (e, n)) ↦ ground (arith, h, n, quiet 0 db)
        | inr (inr (old, n)) ↦
            ground (arith, h, n, quiet 0 db, quiet 1 (link.before 0 db), reached 1)
      ]

  handle_get_pppoe_profile-Unchanged :
      (id : Str) (db : Database) → Unchanged (handle_get_pppoe_profile lib link id db) db
  unfolding handle_get_pppoe_profile
  handle_get_pppoe_profile-Unchanged id db h =
      elim (Row-cases (fetch link 0 (Profiles.get_pppoe_profile lib.pg id) db)) [
        | inl n ↦ ground (arith, h, n, quiet 0 db)
        | inr (inl (e, n)) ↦ ground (arith, h, n, quiet 0 db)
        | inr (inr (old, n)) ↦ ground (arith, h, n, quiet 0 db)
      ]

  handle_voucher_balance-Unchanged :
      (code : Str) (db : Database) → Unchanged (handle_voucher_balance lib link code db) db
  unfolding handle_voucher_balance
  handle_voucher_balance-Unchanged code db h =
      elim (Row-cases (fetch link 0 (get_user_by_username lib.pg code) db)) [
        | inl n ↦ ground (arith, h, n, quiet 0 db)
        | inr (inl (e, n)) ↦ ground (arith, h, n, quiet 0 db)
        | inr (inr (user, n)) ↦ ground (arith, h, n, quiet 0 db)
      ]

  -- A request that is answered by an error changed nothing in the database and started no refresh;
  -- where every statement reached the server and was answered, no other client wrote in between, and
  -- the request does not generate vouchers, which keeps those that it made before the error.
  pub serve_refused :
      (c : Call) (db : Database)
      → generates c ≡ false
      → is_failure (serve lib link c db).response ≡ true
      → ((serve lib link c db).database ≡ db) × ((serve lib link c db).refreshes ≡ false)
  unfolding serve exec handle_create_nas handle_delete_nas handle_create_subscriber
      handle_delete_subscriber handle_create_voucher_package handle_delete_voucher_package
      handle_list_voucher_packages handle_list_vouchers handle_list_pppoe_profiles
      handle_create_pppoe_profile handle_delete_pppoe_profile
  serve_refused (Call.create_nas id none) db g h = ground (arith, h)
  serve_refused (Call.create_nas id (some req)) db g h = ground (arith, h, quiet 0 db, reached 0)
  serve_refused (Call.update_nas id body) db g h = handle_update_nas-Unchanged id body db h
  serve_refused (Call.delete_nas id) db g h = ground (arith, h, quiet 0 db, reached 0)
  serve_refused (Call.create_subscriber id none) db g h = ground (arith, h)
  serve_refused (Call.create_subscriber id (some req)) db g h =
      ground (arith, h, choose_profile-Unchanged id req db)
  serve_refused (Call.update_subscriber id body) db g h =
      handle_update_subscriber-Unchanged id body db h
  serve_refused (Call.delete_subscriber id) db g h = ground (arith, h, quiet 0 db, reached 0)
  serve_refused Call.list_voucher_packages db g h = ground (arith, h, quiet 0 db)
  serve_refused (Call.create_voucher_package id none) db g h = ground (arith, h)
  serve_refused (Call.create_voucher_package id (some req)) db g h =
      ground (arith, h, quiet 0 db, reached 0)
  serve_refused (Call.update_voucher_package id body) db g h =
      handle_update_voucher_package-Unchanged id body db h
  serve_refused (Call.delete_voucher_package id) db g h = ground (arith, h, quiet 0 db, reached 0)
  serve_refused Call.list_pppoe_profiles db g h = ground (arith, h, quiet 0 db)
  serve_refused (Call.create_pppoe_profile id none) db g h = ground (arith, h)
  serve_refused (Call.create_pppoe_profile id (some req)) db g h =
      ground (arith, h, quiet 0 db, reached 0)
  serve_refused (Call.get_pppoe_profile id) db g h = handle_get_pppoe_profile-Unchanged id db h
  serve_refused (Call.update_pppoe_profile id body) db g h =
      handle_update_pppoe_profile-Unchanged id body db h
  serve_refused (Call.delete_pppoe_profile id) db g h = ground (arith, h, quiet 0 db, reached 0)
  serve_refused Call.list_vouchers db g h = ground (arith, h, quiet 0 db)
  serve_refused (Call.generate_vouchers numbers body) db g h = absurd (cc (g))
  serve_refused (Call.voucher_balance code) db g h = handle_voucher_balance-Unchanged code db h
