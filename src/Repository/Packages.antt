-- ===== src/Repository/Packages.antt =====
-- internal/radius/voucher_service.go: the statements on voucher_packages.
use radius_go.Base.{Bool, ◌&&◌, not, none, some, List, [], ◌∷◌, ◌++◌, if◌then◌else◌, ◌>>=◌}
use radius_go.Base.Int.{ℤ}
use radius_go.Base.Text.{Str, str_eq}
use radius_go.Domain.Voucher.{VoucherPackage}
use radius_go.PppoeProfiles.{Row, row, no_rows, failed}
use radius_go.Repository.{Postgres, Database, Statement, is_int4, is_int8}
use radius_go.Repository.Table.{first_where, update_where, delete_where, order_by, exists}

module _ (pg : Postgres) where
  unfoldable pub package_fits : VoucherPackage → Bool
  package_fits p =
      pg.holds_text p.name
      && pg.holds_text p.description
      && is_int4 p.speed_upload_kbps
      && is_int4 p.speed_download_kbps
      && is_int8 p.data_cap_bytes
      && pg.holds_text p.time_limit_type
      && is_int4 p.time_limit_seconds
      && is_int4 p.max_concurrent_users
      && pg.holds_text p.address_pool
      && pg.holds_text p.primary_dns
      && pg.holds_text p.secondary_dns

  unfoldable pub create_package : ℤ → VoucherPackage → Statement
  create_package now p db = do
    key ← pg.uuid p.id
    price ← pg.numeric p.price
    if package_fits p && not (exists (λ q. str_eq q.id key) db.packages)
        then some (record db {
          packages =
              db.packages
              ++ record p { id = key; price = price; created_at = now; updated_at = now } ∷ [];
        })
        else none

  unfoldable pub get_package : Str → Database → Row VoucherPackage
  get_package id db = elim (pg.uuid id) [
    | none ↦ failed []
    | some key ↦ elim (first_where (λ p. str_eq p.id key) db.packages) [
      | none ↦ no_rows
      | some p ↦ row p
    ]
  ]

  unfoldable pub update_package : ℤ → VoucherPackage → Statement
  update_package now p db = do
    key ← pg.uuid p.id
    price ← pg.numeric p.price
    if package_fits p
        then some (record db {
          packages =
              update_where (λ q. str_eq q.id key)
                (λ old. record p {
                  id = old.id;
                  price = price;
                  created_at = old.created_at;
                  updated_at = now;
                })
                db.packages;
        })
        else none

  unfoldable pub delete_package : Str → Statement
  delete_package id db = do
    key ← pg.uuid id
    some (record db { packages = delete_where (λ p. str_eq p.id key) db.packages })

  unfoldable pub list_packages : Database → List VoucherPackage
  list_packages db = order_by (λ a b. pg.collate a.name b.name) db.packages
