-- ===== src/Handlers/Packages.antt =====
-- internal/radius/voucher_handlers.go, with the service of internal/radius/voucher_service.go over
-- the database. The packages are not refreshed after a change.
use radius_go.Base.{
  ℕ, zero, suc, Bool, true, false, ◌&&◌, ◌||◌, not, Option, none, some, List, [], ◌∷◌, map,
  if◌then◌else◌, length, leb, or_else,
}
use radius_go.Base.Int.{ℤ, pos, pos_part, leb_ℤ}
use radius_go.Base.Text.{Str, codes, str_eq}
use radius_go.Domain.User.{RadiusUser, subscriber_from_user}
use radius_go.Domain.Voucher.{
  VoucherPackage, CreateVoucherPackageRequest, UpdateVoucherPackageRequest, GenerateVoucherRequest,
}
use radius_go.PppoeProfiles.{row, no_rows, failed, limited}
use radius_go.Repository.{Database, query}
use radius_go.Repository.Users.{create_user, get_user_by_username, list_voucher_users}
use radius_go.Repository.Packages.{
  create_package, get_package, update_package, delete_package, list_packages,
}
use radius_go.Validate.{
  non_empty, limit_string, max_name_len, max_description_len, max_username_len, max_password_len,
  valid_time_limit_type, fails,
}
use radius_go.Vouchers.{
  new_package, updated_package, code_of, password_of, new_voucher, GeneratedVoucher, get_balance,
  Draw, generate_one_voucher, names_package,
}
use radius_go.Handlers.{
  Libraries, Link, Handled, voucher_package, voucher_packages, vouchers, balance, deleted,
  subscribers, ok, created, fail, respond, respond_refreshed, require, bind, perform, fetch,
  not_found, db_error,
}

abbrev pub cut_create : CreateVoucherPackageRequest → CreateVoucherPackageRequest
cut_create req = record req {
  name = limit_string req.name max_name_len;
  description = limit_string req.description max_description_len;
}

abbrev pub cut_update : UpdateVoucherPackageRequest → UpdateVoucherPackageRequest
cut_update req = record req {
  name = limited max_name_len req.name;
  description = limited max_description_len req.description;
}

-- A write that ends a handler without a refresh, under the answer to an error.
abbrev pub finish_quietly : Database × Bool → (Database → Handled) → (Database → Handled) → Handled
finish_quietly (db, true) good bad = good db
finish_quietly (db, false) good bad = bad db

-- The defaults of HandleGenerateVouchers.
abbrev pub cut_generate : GenerateVoucherRequest → GenerateVoucherRequest
cut_generate req = record req {
  code_format =
      if str_eq req.code_format (codes "random") || str_eq req.code_format (codes "custom")
      then req.code_format
      else codes "random";
  password_mode =
      if str_eq req.password_mode (codes "same_as_user")
        || str_eq req.password_mode (codes "random")
        || str_eq req.password_mode (codes "custom")
      then req.password_mode
      else codes "same_as_user";
  custom_code = limit_string req.custom_code max_username_len;
  custom_password = limit_string req.custom_password max_password_len;
}

abbrev pub generate_failed : Database → Handled
generate_failed db =
    respond db (fail 500 (codes "generate_failed") (codes "voucher generation failed"))

-- The random numbers and the identifier of one voucher.
pub record Numbers : Type 0 where
  pub code_numbers : ℕ → ℕ
  pub password_numbers : ℕ → ℕ
  pub new_id : Str

module _ (lib : Libraries) (link : Link) where
  unfoldable pub handle_create_voucher_package :
      Str → Option CreateVoucherPackageRequest → Database → Handled
  handle_create_voucher_package id body db = bind db body (λ req.
      require db (non_empty req.name) (codes "name is required") (
        require db (valid_time_limit_type req.time_limit_type) (codes "invalid time_limit_type") (
          let pkg = new_package id (cut_create req) in
          finish_quietly (perform link 0 (λ now. create_package lib.pg now pkg) db)
            (λ d. respond d (created (voucher_package pkg)))
            (λ d. db_error d (codes "create voucher package failed")))))

  -- Every error of the service is answered by 404.
  unfoldable pub handle_update_voucher_package :
      Str → Option UpdateVoucherPackageRequest → Database → Handled
  handle_update_voucher_package id body db = require db (lib.valid_uuid id) (codes "invalid id") (
      bind db body (λ req.
        require db (not (fails (λ t. not (valid_time_limit_type t)) req.time_limit_type))
          (codes "invalid time_limit_type")
          (let db' = link.before 0 db in
            elim (fetch link 0 (get_package lib.pg id) db) [
              | no_rows ↦ not_found db' (codes "voucher package not found")
              | failed e ↦ not_found db' (codes "voucher package not found")
              | row existing ↦
                  let pkg = updated_package (cut_update req) existing in
                  finish_quietly
                    (perform link 1 (λ now. update_package lib.pg now (record pkg { id = id })) db')
                    (λ d. respond d (ok (voucher_package pkg)))
                    (λ d. not_found d (codes "voucher package not found"))
            ])))

  unfoldable pub handle_delete_voucher_package : Str → Database → Handled
  handle_delete_voucher_package id db = require db (lib.valid_uuid id) (codes "invalid id") (
      finish_quietly (perform link 0 (λ now. delete_package lib.pg id) db)
        (λ d. respond d (ok (deleted id)))
        (λ d. db_error d (codes "delete voucher package failed")))

  unfoldable pub handle_list_voucher_packages : Database → Handled
  handle_list_voucher_packages db =
      let db' = link.before 0 db in
      elim (query (link.delivery 0) (λ d. some (list_packages lib.pg d)) db') [
        | none ↦ db_error db' (codes "list voucher packages failed")
        | some pkgs ↦ respond db' (ok (voucher_packages pkgs))
      ]

  -- One round of GenerateVouchers, whose statement is the given one.
  unfoldable pub make_voucher :
      VoucherPackage
      → GenerateVoucherRequest
      → ℤ
      → ℕ
      → Numbers
      → Database
      → Database × Option GeneratedVoucher
  make_voucher pkg req code_length index n db =
      let draw : Draw = record {
        code_numbers = n.code_numbers;
        password_numbers = n.password_numbers;
        new_id = n.new_id;
        hash = lib.hash;
        create_user = λ u. (perform link (suc index) (λ now. create_user lib.pg now u) db).1;
      } in
      let made = generate_one_voucher pkg req code_length index draw in
      elim (lib.hash (password_of req (code_of req code_length index draw) draw)) [
        | none ↦ (db, none)
        | some hash ↦ (
          (perform link (suc index)
              (λ now.
                create_user lib.pg now
                  (new_voucher pkg n.new_id (code_of req code_length index draw) hash))
              db).0,
          made,
        )
      ]

  -- The loop, which an error ends; the vouchers that were made before it stay.
  unfoldable pub make_vouchers :
      VoucherPackage
      → GenerateVoucherRequest
      → ℤ
      → (ℕ → Numbers)
      → ℕ
      → ℕ
      → Database
      → Database × Option (List GeneratedVoucher)
  unfolding make_voucher
  make_vouchers pkg req code_length numbers index zero db = (db, some [])
  make_vouchers pkg req code_length numbers index (suc n) db =
      let (db', made) = make_voucher pkg req code_length index (numbers index) db in
      let (db'', more) = make_vouchers pkg req code_length numbers (suc index) n db' in
      elim made [
        | none ↦ (db', none)
        | some v ↦ (db'', elim more [ none ↦ none | some vs ↦ some (v ∷ vs) ])
      ]

  unfoldable pub handle_generate_vouchers :
      (ℕ → Numbers) → Option GenerateVoucherRequest → Database → Handled
  unfolding make_vouchers
  handle_generate_vouchers numbers body db = bind db body (λ req.
      require db (lib.valid_uuid req.package_id) (codes "package_id is required") (
        let db' = link.before 0 db in
        elim (fetch link 0 (get_package lib.pg req.package_id) db) [
          | no_rows ↦ generate_failed db'
          | failed e ↦ generate_failed db'
          | row pkg ↦
              let code_length = if leb_ℤ req.code_length (pos 0) then pos 12 else req.code_length in
              let count = if leb_ℤ req.count (pos 0) then 1 else pos_part req.count in
              let (db'', made) =
                make_vouchers pkg (cut_generate req) code_length numbers 0 count db' in
              if pkg.enabled
              then elim made [
                | none ↦ generate_failed db''
                | some vs ↦ respond_refreshed db'' (created (vouchers vs))
              ]
              else generate_failed db'
        ]))

  -- What GetPackage gives for the package that the user names.
  abbrev pub package_of_user : RadiusUser → Database → Option VoucherPackage
  package_of_user user db =
      elim (fetch link 1 (get_package lib.pg (or_else user.voucher_package_id (codes ""))) db) [
        | no_rows ↦ none
        | failed e ↦ none
        | row pkg ↦ some pkg
      ]

  unfoldable pub handle_list_vouchers : Database → Handled
  handle_list_vouchers db =
      let db' = link.before 0 db in
      elim (query (link.delivery 0) (λ d. some (list_voucher_users lib.pg d)) db') [
        | none ↦ db_error db' (codes "list vouchers failed")
        | some users ↦ respond db' (ok (subscribers (map subscriber_from_user users)))
      ]

  -- Every error of the service is answered by 404.
  unfoldable pub handle_voucher_balance : Str → Database → Handled
  handle_voucher_balance code db =
      require db (non_empty code && leb (length code) max_username_len) (codes "invalid code") (
        let db' = link.before 0 db in
        elim (fetch link 0 (get_user_by_username lib.pg code) db) [
          | no_rows ↦ not_found db' (codes "voucher not found")
          | failed e ↦ not_found db' (codes "voucher not found")
          | row user ↦ elim (get_balance (some user) (package_of_user user db')) [
            | none ↦ not_found db' (codes "voucher not found")
            | some bal ↦
                respond
                  (if user.is_voucher && names_package user.voucher_package_id
                    then link.before 1 db'
                    else db')
                  (ok (balance bal))
          ]
        ])
