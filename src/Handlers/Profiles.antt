-- ===== src/Handlers/Profiles.antt =====
-- internal/radius/pppoe_handlers.go, with the service of internal/radius/pppoe_profile_service.go
-- over the database.
use radius_go.Base.{Option, none, some}
use radius_go.Base.Text.{Str, codes}
use radius_go.Domain.Pppoe.{CreatePppoeProfileRequest, UpdatePppoeProfileRequest}
use radius_go.PppoeProfiles.{row, no_rows, failed, new_profile, updated_profile, cut_request}
use radius_go.Repository.{Database, query}
use radius_go.Repository.Profiles.{
  create_pppoe_profile, update_pppoe_profile, delete_pppoe_profile, get_pppoe_profile,
  list_pppoe_profiles,
}
use radius_go.Validate.{
  non_empty, limit_string, max_name_len, max_description_len, validate_pppoe_profile,
  validate_update_pppoe_profile,
}
use radius_go.Handlers.{
  Libraries, Link, Handled, pppoe_profile, pppoe_profiles, deleted, ok, created, respond, require,
  bind, perform, fetch, finish, not_found, db_error, bad_request,
}

-- `if err := validate…; err != nil { return s.fail(…, err.Error(), nil) }`
abbrev pub check : Database → Option Str → Handled → Handled
check db none rest = rest
check db (some message) rest = bad_request db message

abbrev pub cut_profile : CreatePppoeProfileRequest → CreatePppoeProfileRequest
cut_profile req = record req {
  name = limit_string req.name max_name_len;
  description = limit_string req.description max_description_len;
}

module _ (lib : Libraries) (link : Link) where
  unfoldable pub handle_list_pppoe_profiles : Database → Handled
  handle_list_pppoe_profiles db =
      let db' = link.before 0 db in
      elim (query (link.delivery 0) (λ d. some (list_pppoe_profiles lib.pg d)) db') [
        | none ↦ db_error db' (codes "list pppoe profiles failed")
        | some profiles ↦ respond db' (ok (pppoe_profiles profiles))
      ]

  unfoldable pub handle_create_pppoe_profile :
      Str → Option CreatePppoeProfileRequest → Database → Handled
  handle_create_pppoe_profile id body db = bind db body (λ req.
      require db (non_empty req.name) (codes "name is required") (
        check db (validate_pppoe_profile req) (
          let p = new_profile id (cut_profile req) in
          finish (perform link 0 (λ now. create_pppoe_profile lib.pg now p) db)
            (codes "create pppoe profile failed") (created (pppoe_profile p)))))

  -- The error of the query is wrapped, so that `errors.Is` finds `pgx.ErrNoRows` in it.
  unfoldable pub handle_get_pppoe_profile : Str → Database → Handled
  handle_get_pppoe_profile id db = require db (lib.valid_uuid id) (codes "invalid id") (
      let db' = link.before 0 db in
      elim (fetch link 0 (get_pppoe_profile lib.pg id) db) [
        | no_rows ↦ not_found db' (codes "pppoe profile not found")
        | failed e ↦ db_error db' (codes "get pppoe profile failed")
        | row p ↦ respond db' (ok (pppoe_profile p))
      ])

  unfoldable pub handle_update_pppoe_profile :
      Str → Option UpdatePppoeProfileRequest → Database → Handled
  handle_update_pppoe_profile id body db = require db (lib.valid_uuid id) (codes "invalid id") (
      bind db body (λ req. check db (validate_update_pppoe_profile (cut_request req)) (
        let db' = link.before 0 db in
        elim (fetch link 0 (get_pppoe_profile lib.pg id) db) [
          | no_rows ↦ not_found db' (codes "pppoe profile not found")
          | failed e ↦ db_error db' (codes "update pppoe profile failed")
          | row p ↦
              finish
                (perform link 1
                  (λ now. update_pppoe_profile lib.pg now (updated_profile (cut_request req) p))
                  db')
                (codes "update pppoe profile failed")
                (ok (pppoe_profile (updated_profile (cut_request req) p)))
        ])))

  unfoldable pub handle_delete_pppoe_profile : Str → Database → Handled
  handle_delete_pppoe_profile id db = require db (lib.valid_uuid id) (codes "invalid id") (
      finish (perform link 0 (λ now. delete_pppoe_profile lib.pg id) db)
        (codes "delete pppoe profile failed") (ok (deleted id)))
