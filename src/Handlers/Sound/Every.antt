-- ===== src/Handlers/Sound/Every.antt =====
-- Every request keeps what the tables promise.
use radius_go.Base.{
  ℕ, zero, suc, ◌≡◌, Option, none, some, [], if◌then◌else◌, arith, Option-cases, inl, inr,
}
use radius_go.Base.Int.{ℤ, pos, pos_part, leb_ℤ}
use radius_go.Base.Text.{Str}
use radius_go.Domain.Pppoe.{CreatePppoeProfileRequest, UpdatePppoeProfileRequest}
use radius_go.Domain.Voucher.{
  VoucherPackage, CreateVoucherPackageRequest, UpdateVoucherPackageRequest, GenerateVoucherRequest,
}
use radius_go.PppoeProfiles.{new_profile, updated_profile, cut_request}
use radius_go.Repository.{Database}
use radius_go.Repository.Users.{create_user, get_user_by_username}
use radius_go.Repository.Packages.{get_package}
use radius_go.Repository.Profiles
use radius_go.Repository.Consistent.{Command, statement}
use radius_go.Vouchers.{Draw, new_package, updated_package, new_voucher, code_of, password_of}
use radius_go.Handlers.{Libraries, Link, fetch, perform}
use radius_go.Handlers.Packages.{
  Numbers, cut_create, cut_update, cut_generate, make_voucher, make_vouchers,
  handle_create_voucher_package, handle_update_voucher_package, handle_delete_voucher_package,
  handle_list_voucher_packages, handle_generate_vouchers, handle_list_vouchers,
  handle_voucher_balance,
}
use radius_go.Handlers.Profiles.{
  cut_profile, handle_list_pppoe_profiles, handle_create_pppoe_profile, handle_get_pppoe_profile,
  handle_update_pppoe_profile, handle_delete_pppoe_profile,
}
use radius_go.Handlers.Serve.{Call, serve}
use radius_go.Handlers.Sound.{IsExclusive, IsSound, Proper}
use radius_go.Handlers.Sound.Accounts.{
  Row-cases, perform-IsSound, handle_create_nas-IsSound, handle_update_nas-IsSound,
  handle_delete_nas-IsSound, handle_create_subscriber-IsSound, handle_update_subscriber-IsSound,
  handle_delete_subscriber-IsSound,
}

new_voucher-IsExclusive :
    (pkg : VoucherPackage) (id code hash : Str) → IsExclusive (new_voucher pkg id code hash)
unfolding new_voucher
new_voucher-IsExclusive pkg id code hash = ground arith

module _ (lib : Libraries) (link : Link) (law : lib.pg.uuid [] ≡ none)
    (others : (k : ℕ) (db : Database) → IsSound db → IsSound (link.before k db)) where
  sends :
      (k : ℕ) (c : Command) (db : Database)
      → Proper c
      → IsSound db
      → IsSound (perform link k (λ now. statement lib.pg now c) db).0
  sends = perform-IsSound lib link law others

  handle_create_voucher_package-IsSound :
      (id : Str) (body : Option CreateVoucherPackageRequest) (db : Database)
      → IsSound db
      → IsSound (handle_create_voucher_package lib link id body db).database
  unfolding handle_create_voucher_package statement
  handle_create_voucher_package-IsSound id none db s = s
  handle_create_voucher_package-IsSound id (some req) db s =
      ground (arith, s, sends 0 (Command.insert_package (new_package id (cut_create req))) db tt s)

  handle_update_voucher_package-IsSound :
      (id : Str) (body : Option UpdateVoucherPackageRequest) (db : Database)
      → IsSound db
      → IsSound (handle_update_voucher_package lib link id body db).database
  unfolding handle_update_voucher_package statement
  handle_update_voucher_package-IsSound id none db s = ground (arith, s)
  handle_update_voucher_package-IsSound id (some req) db s =
      let s' = others 0 db s in
      elim (Row-cases (fetch link 0 (get_package lib.pg id) db)) [
        | inl n ↦ ground (arith, s, s', n)
        | inr (inl (e, n)) ↦ ground (arith, s, s', n)
        | inr (inr (old, n)) ↦
            let pkg : VoucherPackage = record (updated_package (cut_update req) old) { id = id } in
            ground (arith, s, n, sends 1 (Command.change_package pkg) (link.before 0 db) tt s')
      ]

  handle_delete_voucher_package-IsSound :
      (id : Str) (db : Database)
      → IsSound db
      → IsSound (handle_delete_voucher_package lib link id db).database
  unfolding handle_delete_voucher_package statement
  handle_delete_voucher_package-IsSound id db s =
      ground (arith, s, sends 0 (Command.drop_package id) db tt s)

  make_voucher-IsSound :
      (pkg : VoucherPackage) (req : GenerateVoucherRequest) (n : ℤ) (index : ℕ) (numbers : Numbers)
      (db : Database)
      → IsSound db
      → IsSound (make_voucher lib link pkg req n index numbers db).0
  unfolding make_voucher statement
  make_voucher-IsSound pkg req n index numbers db s =
      let draw : Draw = record {
        code_numbers = numbers.code_numbers;
        password_numbers = numbers.password_numbers;
        new_id = numbers.new_id;
        hash = lib.hash;
        create_user = λ u. (perform link (suc index) (λ now. create_user lib.pg now u) db).1;
      } in
      let code = code_of req n index draw in
      elim (Option-cases (lib.hash (password_of req code draw))) [
        | inl e ↦ ground (arith, s, e)
        | inr (hash, e) ↦ ground (
          arith,
          e,
          sends (suc index) (Command.insert_user (new_voucher pkg numbers.new_id code hash)) db
              (new_voucher-IsExclusive pkg numbers.new_id code hash) s,
        )
      ]

  make_vouchers-IsSound :
      (pkg : VoucherPackage) (req : GenerateVoucherRequest) (n : ℤ) (numbers : ℕ → Numbers)
      (index count : ℕ) (db : Database)
      → IsSound db
      → IsSound (make_vouchers lib link pkg req n numbers index count db).0
  unfolding make_vouchers
  make_vouchers-IsSound pkg req n numbers index zero db s = s
  make_vouchers-IsSound pkg req n numbers index (suc count) db s =
      let one = make_voucher-IsSound pkg req n index (numbers index) db s in
      let rest =
        make_vouchers-IsSound pkg req n numbers (suc index) count
          (make_voucher lib link pkg req n index (numbers index) db).0 one in
      ground (arith, one, rest)

  handle_generate_vouchers-IsSound :
      (numbers : ℕ → Numbers) (body : Option GenerateVoucherRequest) (db : Database)
      → IsSound db
      → IsSound (handle_generate_vouchers lib link numbers body db).database
  unfolding handle_generate_vouchers
  handle_generate_vouchers-IsSound numbers none db s = s
  handle_generate_vouchers-IsSound numbers (some req) db s =
      let s' = others 0 db s in
      elim (Row-cases (fetch link 0 (get_package lib.pg req.package_id) db)) [
        | inl n ↦ ground (arith, s, s', n)
        | inr (inl (e, n)) ↦ ground (arith, s, s', n)
        | inr (inr (pkg, n)) ↦ ground (
          arith,
          s,
          s',
          n,
          make_vouchers-IsSound pkg (cut_generate req)
              (if leb_ℤ req.code_length (pos 0) then pos 12 else req.code_length) numbers 0
              (if leb_ℤ req.count (pos 0) then 1 else pos_part req.count) (link.before 0 db) s',
        )
      ]

  handle_voucher_balance-IsSound :
      (code : Str) (db : Database)
      → IsSound db
      → IsSound (handle_voucher_balance lib link code db).database
  unfolding handle_voucher_balance
  handle_voucher_balance-IsSound code db s =
      let s' = others 0 db s in
      let s2 = others 1 (link.before 0 db) s' in
      elim (Row-cases (fetch link 0 (get_user_by_username lib.pg code) db)) [
        | inl n ↦ ground (arith, s, s', n)
        | inr (inl (e, n)) ↦ ground (arith, s, s', n)
        | inr (inr (user, n)) ↦ ground (arith, s, s', s2, n)
      ]

  handle_create_pppoe_profile-IsSound :
      (id : Str) (body : Option CreatePppoeProfileRequest) (db : Database)
      → IsSound db
      → IsSound (handle_create_pppoe_profile lib link id body db).database
  unfolding handle_create_pppoe_profile statement
  handle_create_pppoe_profile-IsSound id none db s = s
  handle_create_pppoe_profile-IsSound id (some req) db s =
      ground (arith, s, sends 0 (Command.insert_profile (new_profile id (cut_profile req))) db tt s)

  handle_update_pppoe_profile-IsSound :
      (id : Str) (body : Option UpdatePppoeProfileRequest) (db : Database)
      → IsSound db
      → IsSound (handle_update_pppoe_profile lib link id body db).database
  unfolding handle_update_pppoe_profile statement
  handle_update_pppoe_profile-IsSound id none db s = ground (arith, s)
  handle_update_pppoe_profile-IsSound id (some req) db s =
      let s' = others 0 db s in
      elim (Row-cases (fetch link 0 (Profiles.get_pppoe_profile lib.pg id) db)) [
        | inl n ↦ ground (arith, s, s', n)
        | inr (inl (e, n)) ↦ ground (arith, s, s', n)
        | inr (inr (old, n)) ↦ ground (
          arith,
          s,
          n,
          sends 1 (Command.change_profile (updated_profile (cut_request req) old))
              (link.before 0 db) tt s',
        )
      ]

  handle_delete_pppoe_profile-IsSound :
      (id : Str) (db : Database)
      → IsSound db
      → IsSound (handle_delete_pppoe_profile lib link id db).database
  unfolding handle_delete_pppoe_profile statement
  handle_delete_pppoe_profile-IsSound id db s =
      ground (arith, s, sends 0 (Command.drop_profile id) db tt s)

  -- Every request, whatever its body, whatever becomes of its statements, and also where it fails,
  -- keeps what the tables promise: the constraints hold, and no user has both a voucher package and a
  -- PPPoE profile; as long as other clients of the database keep that between its statements, and the
  -- server takes no empty string for a UUID.
  pub serve-IsSound :
      (c : Call) (db : Database) → IsSound db → IsSound (serve lib link c db).database
  unfolding serve handle_list_voucher_packages handle_list_pppoe_profiles handle_list_vouchers
      handle_get_pppoe_profile
  serve-IsSound (Call.create_nas id body) db s =
      handle_create_nas-IsSound lib link law others id body db s
  serve-IsSound (Call.update_nas id body) db s =
      handle_update_nas-IsSound lib link law others id body db s
  serve-IsSound (Call.delete_nas id) db s = handle_delete_nas-IsSound lib link law others id db s
  serve-IsSound (Call.create_subscriber id body) db s =
      handle_create_subscriber-IsSound lib link law others id body db s
  serve-IsSound (Call.update_subscriber id body) db s =
      handle_update_subscriber-IsSound lib link law others id body db s
  serve-IsSound (Call.delete_subscriber id) db s =
      handle_delete_subscriber-IsSound lib link law others id db s
  serve-IsSound Call.list_voucher_packages db s = ground (arith, others 0 db s)
  serve-IsSound (Call.create_voucher_package id body) db s =
      handle_create_voucher_package-IsSound id body db s
  serve-IsSound (Call.update_voucher_package id body) db s =
      handle_update_voucher_package-IsSound id body db s
  serve-IsSound (Call.delete_voucher_package id) db s =
      handle_delete_voucher_package-IsSound id db s
  serve-IsSound Call.list_pppoe_profiles db s = ground (arith, others 0 db s)
  serve-IsSound (Call.create_pppoe_profile id body) db s =
      handle_create_pppoe_profile-IsSound id body db s
  serve-IsSound (Call.get_pppoe_profile id) db s = ground (arith, s, others 0 db s)
  serve-IsSound (Call.update_pppoe_profile id body) db s =
      handle_update_pppoe_profile-IsSound id body db s
  serve-IsSound (Call.delete_pppoe_profile id) db s = handle_delete_pppoe_profile-IsSound id db s
  serve-IsSound Call.list_vouchers db s = ground (arith, others 0 db s)
  serve-IsSound (Call.generate_vouchers numbers body) db s =
      handle_generate_vouchers-IsSound numbers body db s
  serve-IsSound (Call.voucher_balance code) db s = handle_voucher_balance-IsSound code db s
