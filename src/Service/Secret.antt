-- ===== src/Service/Secret.antt =====
-- Which secret RADIUSSecret gives after refreshFromDB.
use radius_go.Base.{
  ◌≡◌, refl, ◌∙◌, ◌&&◌, Option, none, some, List, [], ◌∷◌, if◌then◌else◌, first_of, arith,
}
use mathlib.Core.Option
use radius_go.Base.Text.{Str, str_eq}
use radius_go.Base.Dict.{Dict, lookup, insert, lookup-insert}
use radius_go.Domain.User.{RadiusUser, Nas}
use radius_go.Domain.Pppoe.{PppoeProfile}
use radius_go.Domain.Voucher.{VoucherPackage}
use radius_go.Net.HostPort.{host_of}
use radius_go.Service.{Service}
use radius_go.Service.Refresh.{load_nases, refresh_from_db, refresh}
use radius_go.Service.Table.{radius_secret}

-- The last enabled server of an address in the order of the query.
unfoldable pub last_enabled : Str → List Nas → Option Nas
last_enabled host [] = none
last_enabled host (n ∷ ns) =
    first_of (last_enabled host ns) (if n.enabled && str_eq n.ip_address host then some n else none)

load_nases-lookup :
    (host : Str) (ns : List Nas) (m : Dict Nas)
    → lookup host (load_nases ns m) ≡ first_of (last_enabled host ns) (lookup host m)
unfolding load_nases last_enabled
load_nases-lookup host [] m = refl
load_nases-lookup host (n ∷ ns) m = ground (
  arith,
  load_nases-lookup host ns m,
  load_nases-lookup host ns (insert n.ip_address n m),
  lookup-insert n.ip_address host n m,
)

-- After a refresh whose queries succeed, a request gets a secret exactly if the database lists an
-- enabled server under the host that it comes from, and then the secret of the last such one: a
-- server that was removed or disabled has none, whatever was in memory before.
pub radius_secret-refresh :
    (users : List RadiusUser) (nases : List Nas) (profiles : List PppoeProfile)
    (packages : List VoucherPackage) (s : Service) (remote_addr : Str)
    → radius_secret remote_addr (
        refresh
          (record {
            list_users = some users;
            list_nas = some nases;
            list_profiles = some profiles;
            list_packages = some packages;
          })
          s)
      ≡ Option.map (λ (n : Nas). n.secret) (last_enabled (host_of remote_addr) nases)
unfolding radius_secret refresh refresh_from_db lookup
radius_secret-refresh users nases profiles packages s remote_addr =
    let host = host_of remote_addr in
    let there : lookup host (load_nases nases []) ≡ last_enabled host nases =
      load_nases-lookup host nases [] ∙ ground arith in
    rw (there, radius_secret) refl
