-- ===== src/Handlers/Nases.antt =====
-- internal/radius/handlers.go: HandleCreateNAS, HandleUpdateNAS and HandleDeleteNAS.
use radius_go.Base.{true, ◌&&◌, ◌||◌, not, Option, if◌then◌else◌, or_else}
use radius_go.Base.Int.{pos}
use radius_go.Base.Text.{Str, codes, is_empty}
use radius_go.Domain.User.{Nas, CreateNasRequest, UpdateNasRequest}
use radius_go.PppoeProfiles.{row, no_rows, failed}
use radius_go.Repository.{Database}
use radius_go.Repository.Nases.{create_nas, get_nas_by_id, update_nas, delete_nas}
use radius_go.Validate.{
  valid_ip, non_empty, limit_string, max_name_len, max_secret_len, max_description_len,
}
use radius_go.Handlers.{
  Libraries, Link, Handled, nas, deleted, ok, created, require, bind, perform, fetch, finish,
  not_found,
}

abbrev pub new_nas : Str → CreateNasRequest → Nas
new_nas id req = record {
  id = id;
  name = limit_string req.name max_name_len;
  ip_address = req.ip_address;
  secret = limit_string req.secret max_secret_len;
  description = limit_string req.description max_description_len;
  enabled = true;
  created_at = pos 0;
  updated_at = pos 0;
}

-- A string that is not empty replaces the old one.
abbrev pub given_or : Str → Str → Str
given_or s old = if is_empty s then old else s

abbrev pub changed_nas : UpdateNasRequest → Nas → Nas
changed_nas req n = record n {
  name = given_or (limit_string req.name max_name_len) n.name;
  ip_address = given_or req.ip_address n.ip_address;
  secret = given_or (limit_string req.secret max_secret_len) n.secret;
  description = given_or (limit_string req.description max_description_len) n.description;
  enabled = or_else req.enabled n.enabled;
}

module _ (lib : Libraries) (link : Link) where
  unfoldable pub handle_create_nas : Str → Option CreateNasRequest → Database → Handled
  handle_create_nas id body db = bind db body (λ req.
      require db (non_empty req.name && not (is_empty req.ip_address) && not (is_empty req.secret))
        (codes "name, ip_address, and secret are required")
        (require db (valid_ip req.ip_address) (codes "invalid ip_address") (
          finish (perform link 0 (λ now. create_nas lib.pg now (new_nas id req)) db)
            (codes "create NAS failed") (created (nas (new_nas id req))))))

  unfoldable pub handle_update_nas : Str → Option UpdateNasRequest → Database → Handled
  handle_update_nas id body db = require db (lib.valid_uuid id) (codes "invalid id") (
      bind db body (λ req.
        require db (is_empty req.ip_address || valid_ip req.ip_address) (codes "invalid ip_address")
          (let db' = link.before 0 db in
            elim (fetch link 0 (get_nas_by_id lib.pg id) db) [
              | no_rows ↦ not_found db' (codes "NAS not found")
              | failed e ↦ not_found db' (codes "NAS not found")
              | row existing ↦
                  finish
                    (perform link 1 (λ now. update_nas lib.pg now (changed_nas req existing)) db')
                    (codes "update NAS failed") (ok (nas (changed_nas req existing)))
            ])))

  unfoldable pub handle_delete_nas : Str → Database → Handled
  handle_delete_nas id db = require db (lib.valid_uuid id) (codes "invalid id") (
      finish (perform link 0 (λ now. delete_nas lib.pg id) db) (codes "delete NAS failed")
        (ok (deleted id)))
