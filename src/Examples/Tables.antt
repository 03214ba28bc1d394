-- ===== src/Examples/Tables.antt =====
-- The theorems on the tables of the service, applied.
use radius_go.Base.{◌≡◌, refl, false, some, [], ◌∷◌}
use mathlib.Core.Option
use radius_go.Base.Int.{pos}
use radius_go.Base.Text.{codes, str_eq}
use radius_go.Base.Dict.{lookup, insert}
use radius_go.Domain.User.{RadiusUser, Nas}
use radius_go.Net.HostPort.{host_of}
use radius_go.Packet.Reference.{reference_laws}
use radius_go.Service.{Service}
use radius_go.Service.Refresh.{Queries, preserve, resolved, load_users, refresh_from_db, refresh}
use radius_go.Service.Outlast.{Outlasts, refresh-Outlasts, refreshes, refreshes_lock_out}
use radius_go.Service.Table.{radius_secret}
use radius_go.Service.Secret.{last_enabled, radius_secret-refresh}
use radius_go.Auth.Decision.{handle_auth}
use radius_go.Auth.Admission.{is_accept}
use radius_go.Examples.{env, alice, router, service, request_of, clock, alone}

-- The database holds one user, enabled, and one server.
abbrev database : Queries
database = record {
  list_users = some (alice ∷ []);
  list_nas = some (router ∷ []);
  list_profiles = some [];
  list_packages = some [];
}

-- In memory the user is locked, and used something.
abbrev locked_alice : RadiusUser
locked_alice = record alice { enabled = false; data_bytes_used = pos 5 }

abbrev locked_service : Service
locked_service = record service { subscribers = (codes "alice", locked_alice) ∷ [] }

locked_known : lookup alice.username locked_service.subscribers ≡ some locked_alice
unfolding lookup str_eq
locked_known = refl

refreshed_known :
    lookup alice.username (refresh database locked_service).subscribers ≡ some locked_alice
unfolding lookup insert str_eq refresh refresh_from_db load_users preserve resolved
refreshed_known = refl

refresh-Outlasts_example : Outlasts locked_alice locked_alice
refresh-Outlasts_example =
    refresh-Outlasts database locked_service alice.username locked_alice locked_alice locked_known
      refreshed_known

refreshes_lock_out_example :
    is_accept
      (handle_auth env alone clock (request_of alice) (refreshes (database ∷ []) locked_service))
    ≡ false
refreshes_lock_out_example =
    refreshes_lock_out env reference_laws alone clock (request_of alice) (database ∷ [])
      locked_service locked_alice locked_known refl ((locked_alice, refreshed_known), tt)

radius_secret-refresh_example :
    radius_secret (codes "10.0.0.1:1812") (refresh database service)
    ≡ Option.map
        (λ (n : Nas). n.secret)
        (last_enabled (host_of (codes "10.0.0.1:1812")) (router ∷ []))
radius_secret-refresh_example =
    radius_secret-refresh (alice ∷ []) (router ∷ []) [] [] service (codes "10.0.0.1:1812")
