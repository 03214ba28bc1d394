-- ===== src/Repository/Nases.antt =====
-- internal/radius/repository.go: the statements on radius_nas.
use radius_go.Base.{Bool, ◌&&◌, not, none, some, List, [], ◌∷◌, ◌++◌, if◌then◌else◌, ◌>>=◌}
use radius_go.Base.Int.{ℤ}
use radius_go.Base.Text.{Str, str_eq}
use radius_go.Domain.User.{Nas}
use radius_go.PppoeProfiles.{Row, row, no_rows, failed}
use radius_go.Repository.{Postgres, Database, Statement}
use radius_go.Repository.Table.{first_where, update_where, delete_where, order_by, exists}

module _ (pg : Postgres) where
  unfoldable pub nas_fits : Nas → Bool
  nas_fits n =
      pg.holds_text n.name
      && pg.holds_text n.ip_address
      && pg.holds_text n.secret
      && pg.holds_text n.description

  unfoldable pub create_nas : ℤ → Nas → Statement
  create_nas now nas db = do
    key ← pg.uuid nas.id
    if nas_fits nas && not (exists (λ n. str_eq n.id key) db.nases)
        then some (record db {
          nases = db.nases ++ record nas { id = key; created_at = now; updated_at = now } ∷ [];
        })
        else none

  unfoldable pub get_nas_by_id : Str → Database → Row Nas
  get_nas_by_id id db = elim (pg.uuid id) [
    | none ↦ failed []
    | some key ↦ elim (first_where (λ n. str_eq n.id key) db.nases) [
      | none ↦ no_rows
      | some n ↦ row n
    ]
  ]

  unfoldable pub update_nas : ℤ → Nas → Statement
  update_nas now nas db = do
    key ← pg.uuid nas.id
    if nas_fits nas
        then some (record db {
          nases =
              update_where (λ n. str_eq n.id key)
                (λ old. record nas { id = old.id; created_at = old.created_at; updated_at = now })
                db.nases;
        })
        else none

  unfoldable pub delete_nas : Str → Statement
  delete_nas id db = do
    key ← pg.uuid id
    some (record db { nases = delete_where (λ n. str_eq n.id key) db.nases })

  unfoldable pub list_nas : Database → List Nas
  list_nas db = order_by (λ a b. pg.collate a.name b.name) db.nases
