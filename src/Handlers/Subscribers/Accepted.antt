-- ===== src/Handlers/Subscribers/Accepted.antt =====
-- From POST /api/v1/radius/subscribers to the first login: HandleCreateSubscriber, CreateUser,
-- refreshFromDB and handleAuth.
use radius_go.Base.{
  ◌≡◌, refl, sym, ◌∙◌, ap, subst, true, false, Option, none, some, List, [], ◌∷◌, ◌++◌, arith, All,
  Bool-cases, inl, inr,
}
use radius_go.Base.Int.{pos}
use radius_go.Base.Text.{Str, is_empty, str_eq, str_eq_iff, str_eq_refl}
use radius_go.Base.Dict.{Dict, lookup}
use radius_go.Domain.Pppoe.{PppoeProfile}
use radius_go.Domain.User.{RadiusUser, Nas, CreateUserRequest}
use radius_go.Domain.Voucher.{VoucherPackage}
use radius_go.Packet.{AttributeLaws}
use radius_go.Repository.{Database, exec}
use radius_go.Repository.Table.{first_where, exists}
use radius_go.Repository.Table.Distinct.{exists-append}
use radius_go.Repository.Table.Every.{All-append, All-order_by, exists-order_by}
use radius_go.Repository.Users.{create_user, inserted, list_users}
use radius_go.Service.{Service}
use radius_go.Service.Refresh.{
  Queries, preserve, refreshed, refresh_from_db, refresh, package_map, profile_map, resolved,
}
use radius_go.Auth.Reply.{Env}
use radius_go.Auth.Decision.{AuthRequest, AuthClock, Interleaving, password_matches, handle_auth}
use radius_go.Auth.Admission.{is_accept, encodes, handle_auth_accepts_iff}
use radius_go.System.Loaded.{load_users-finds}
use radius_go.Handlers.{Libraries, Link}
use radius_go.Handlers.Refused.{is_failure}
use radius_go.Handlers.Subscribers.{
  new_subscriber, store_subscriber, choose_profile, handle_create_subscriber,
}

module _ (lib : Libraries) (link : Link) (id key hash : Str) (req : CreateUserRequest)
    (db : Database) where
  -- The row of a subscriber who is created without a profile.
  abbrev pub created_row : RadiusUser
  created_row = inserted (link.now 1) (new_subscriber id hash none req) key none none

  store_subscriber-row :
      lib.pg.uuid id ≡ some key
      → lib.hash req.password ≡ some hash
      → is_failure (store_subscriber lib link id req none db).response ≡ false
      → ((store_subscriber lib link id req none db).database.users
          ≡ (link.before 1 db).users ++ created_row ∷ [])
        × (exists (λ u. str_eq u.username req.username) (link.before 1 db).users ≡ false)
  unfolding store_subscriber exec create_user
  store_subscriber-row k n h = ground (arith, k, n, h)

  -- A creation that succeeds adds the row under a name that was free.
  pub created_subscriber-row :
      lib.pg.uuid id ≡ some key
      → lib.hash req.password ≡ some hash
      → is_empty req.pppoe_profile_id ≡ true
      → is_failure (handle_create_subscriber lib link id (some req) db).response ≡ false
      → ((handle_create_subscriber lib link id (some req) db).database.users
          ≡ (link.before 1 db).users ++ created_row ∷ [])
        × (exists (λ u. str_eq u.username req.username) (link.before 1 db).users ≡ false)
  unfolding handle_create_subscriber choose_profile
  created_subscriber-row k n free h = ground (arith, k, n, free, h, store_subscriber-row k n)

-- The only row of its name is this one.
abbrev Sole : Str → RadiusUser → RadiusUser → Type 0
Sole name r u = str_eq u.username name ≡ true → u ≡ r

free-Sole :
    (name : Str) (r : RadiusUser) (users : List RadiusUser)
    → exists (λ u. str_eq u.username name) users ≡ false
    → All (Sole name r) users
unfolding first_where
free-Sole name r [] h = tt
free-Sole name r (u ∷ us) h = elim (Bool-cases (str_eq u.username name)) [
  | inl it ↦ absurd (ground (arith, it, h))
  | inr other ↦ ((λ it. absurd (cc (it, other))), free-Sole name r us (ground (arith, other, h)))
]

-- A row of a name that is not in memory, without a profile and a package, is loaded as it is.
refreshed-new :
    (before : Dict RadiusUser) (profiles : Dict PppoeProfile) (packages : Dict VoucherPackage)
    (r : RadiusUser)
    → r.pppoe_profile_id ≡ none
    → r.voucher_package_id ≡ none
    → lookup r.username before ≡ none
    → refreshed before profiles packages r ≡ r
unfolding preserve resolved
refreshed-new before profiles packages r np nv gone =
    let profile : resolved r.pppoe_profile_id profiles r.pppoe_profile ≡ r.pppoe_profile =
      rw (np) refl in
    let pkg : resolved r.voucher_package_id packages r.voucher_package ≡ r.voucher_package =
      rw (nv) refl in
    rw (gone) (
      ap
        (λ (a : Option PppoeProfile). record r {
          pppoe_profile = a;
          voucher_package = resolved r.voucher_package_id packages r.voucher_package;
        })
        profile
      ∙ ap (λ (b : Option VoucherPackage). record r { voucher_package = b }) pkg)

-- What the four queries of a refresh give, if each succeeds.
abbrev pub answers : List RadiusUser → List Nas → List PppoeProfile → List VoucherPackage → Queries
answers users nases profiles packages = record {
  list_users = some users;
  list_nas = some nases;
  list_profiles = some profiles;
  list_packages = some packages;
}

refresh-new :
    (users : List RadiusUser) (nases : List Nas) (profiles : List PppoeProfile)
    (packages : List VoucherPackage) (s : Service) (name : Str) (r : RadiusUser)
    → All (Sole name r) users
    → exists (λ u. str_eq u.username name) users ≡ true
    → r.pppoe_profile_id ≡ none
    → r.voucher_package_id ≡ none
    → lookup name s.subscribers ≡ none
    → lookup name (refresh (answers users nases profiles packages) s).subscribers ≡ some r
unfolding refresh refresh_from_db
refresh-new users nases profiles packages s name r rows there np nv gone =
    let before = s.subscribers in
    let ps = profile_map profiles [] in
    let ks = package_map packages [] in
    let (v, found, is) =
      load_users-finds before ps ks name (Sole name r) (λ v. v ≡ r) users []
        (λ u sole here.
          let same = sole here in
          let named : r.username ≡ name =
            subst (λ (w : RadiusUser). w.username ≡ name) same
              ((str_eq_iff u.username name).0 here) in
          ap (refreshed before ps ks) same
          ∙ refreshed-new before ps ks r np nv (ap (λ (n : Str). lookup n before) named ∙ gone))
        rows (inl there) in
    found ∙ ap some is

-- A subscriber who was created, without a profile and without a limit on sessions, logs in at the
-- first request with his password after a refresh: where the creation was answered by no error, his
-- name was not in memory, the refresh reads the database that the creation left, bcrypt accepts what
-- it hashed, password and hash are not empty, and the reply can be encoded.
pub created_subscriber_logs_in :
    (lib : Libraries) (link : Link) (id key hash : Str) (req : CreateUserRequest) (db : Database)
    (nases : List Nas) (profiles : List PppoeProfile) (packages : List VoucherPackage) (s : Service)
    (env : Env) (laws : AttributeLaws env.lib) (inter : Interleaving) (clock : AuthClock)
    (login : AuthRequest)
    → lib.pg.uuid id ≡ some key
    → lib.hash req.password ≡ some hash
    → is_empty req.pppoe_profile_id ≡ true
    → req.simultaneous_use ≡ pos 0
    → is_failure (handle_create_subscriber lib link id (some req) db).response ≡ false
    → lookup req.username s.subscribers ≡ none
    → login.username ≡ req.username
    → login.passwords ≡ some (req.password ∷ [])
    → password_matches env hash req.password ≡ true
    → encodes env laws inter clock login (created_row lib link id key hash req db) ≡ true
    → is_accept (
        handle_auth env inter clock login (
          refresh
            (answers
              (list_users lib.pg (handle_create_subscriber lib link id (some req) db).database)
              nases
              profiles
              packages)
            s))
      ≡ true
unfolding list_users
created_subscriber_logs_in lib link id key hash req db nases profiles packages s env laws inter
      clock login k n free many made gone name given fits fine =
    let name_of = req.username in
    let r = created_row lib link id key hash req db in
    let after = (handle_create_subscriber lib link id (some req) db).database in
    let (rows, unused) = created_subscriber-row lib link id key hash req db k n free made in
    let le = λ (a b : RadiusUser). lib.pg.collate a.username b.username in
    let old = (link.before 1 db).users in
    let sole : All (Sole name_of r) after.users = subst (All (Sole name_of r)) (sym rows) (
      All-append (Sole name_of r) old (r ∷ []) (free-Sole name_of r old unused)
        ((λ it. refl), tt)) in
    let there : exists (λ (u : RadiusUser). str_eq u.username name_of) after.users ≡ true =
      ap (exists (λ (u : RadiusUser). str_eq u.username name_of)) rows
      ∙ exists-append (λ u. str_eq u.username name_of) r old
      ∙ ground (arith, str_eq_refl name_of) in
    let known =
      refresh-new (list_users lib.pg after) nases profiles packages s name_of r
        (All-order_by (Sole name_of r) le after.users sole)
        (exists-order_by (λ u. str_eq u.username name_of) le after.users ∙ there) refl refl gone in
    let loaded = refresh (answers (list_users lib.pg after) nases profiles packages) s in
    (handle_auth_accepts_iff env laws inter clock login r req.password [] loaded given
        (ap (λ (m : Str). lookup m loaded.subscribers) name ∙ known)).1
      (record {
        enabled = refl;
        password_ok = fits;
        good = λ voucher. absurd (cc (voucher));
        room = λ limited. absurd (ground (arith, limited, many));
        encodable = fine;
      })
