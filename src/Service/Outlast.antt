-- ===== src/Service/Outlast.antt =====
-- What is in memory of a user and outlasts refreshFromDB.
use radius_go.Base.{
  ◌≡◌, ◌⊎◌, refl, sym, ◌∙◌, ap, subst, Bool, false, ◌&&◌, Option, none, some, List, [], ◌∷◌,
  if◌then◌else◌, first_of, arith, Bool-cases, inl, inr,
}
use radius_go.Base.Int.{ℤ, ◌≤ℤ◌}
use radius_go.Base.Text.{Str, str_eq, str_eq_iff}
use radius_go.Base.Dict.{Dict, lookup, insert, lookup-insert}
use radius_go.Domain.User.{RadiusUser, Nas}
use radius_go.Domain.Pppoe.{PppoeProfile}
use radius_go.Domain.Voucher.{VoucherPackage}
use radius_go.Packet.{AttributeLaws}
use radius_go.Service.{Service}
use radius_go.Service.Refresh.{
  Queries, larger, preserve, refreshed, load_users, refresh_from_db, refresh, package_map,
  profile_map,
}
use radius_go.Auth.Reply.{Env}
use radius_go.Auth.Decision.{AuthRequest, AuthClock, Interleaving, handle_auth}
use radius_go.Auth.Admission.{is_accept}
use radius_go.Auth.Vouchers.{disabled}
use radius_go.Auth.Lifetime.{disabled_is_rejected}

-- A later state of a user: usage does not go back, a lock stays, and so do the times that are set.
pub record Outlasts (old new : RadiusUser) : Type 0 where
  pub locked : (old.enabled && new.enabled) ≡ new.enabled
  pub bytes : old.data_bytes_used ≤ℤ new.data_bytes_used
  pub seconds : old.usage_seconds_used ≤ℤ new.usage_seconds_used
  pub login : first_of old.first_login_at new.first_login_at ≡ new.first_login_at
  pub expiry : first_of old.expires_at new.expires_at ≡ new.expires_at

larger-le : (a b : ℤ) → a ≤ℤ larger a b
larger-le a b = ground arith

preserve-Outlasts : (old u : RadiusUser) → Outlasts old (preserve (some old) u)
unfolding preserve
preserve-Outlasts old u = record {
  locked = ground arith;
  bytes = larger-le old.data_bytes_used u.data_bytes_used;
  seconds = larger-le old.usage_seconds_used u.usage_seconds_used;
  login = ground arith;
  expiry = ground arith;
}

module _ (before : Dict RadiusUser) (profiles : Dict PppoeProfile)
    (packages : Dict VoucherPackage) where
  refreshed-Outlasts :
      (old u : RadiusUser)
      → lookup u.username before ≡ some old
      → Outlasts old (refreshed before profiles packages u)
  refreshed-Outlasts old u e =
      let kept = preserve-Outlasts old u in
      rw (e) (record {
        locked = kept.locked;
        bytes = kept.bytes;
        seconds = kept.seconds;
        login = kept.login;
        expiry = kept.expiry;
      })

  load_users-Outlasts :
      (old : RadiusUser) (name : Str) (users : List RadiusUser) (m : Dict RadiusUser)
      → lookup name before ≡ some old
      → ((new : RadiusUser) → lookup name m ≡ some new → Outlasts old new)
      → (new : RadiusUser) → lookup name (load_users before profiles packages users m) ≡ some new
      → Outlasts old new
  unfolding load_users
  load_users-Outlasts old name [] m known given new e = given new e
  load_users-Outlasts old name (u ∷ us) m known given new e =
      load_users-Outlasts old name us (insert u.username (refreshed before profiles packages u) m)
        known
        (λ new' here.
          let at : (if str_eq u.username name
                then some (refreshed before profiles packages u)
                else lookup name m)
              ≡ some new' =
            sym (lookup-insert u.username name (refreshed before profiles packages u) m) ∙ here in
          elim (Bool-cases (str_eq u.username name)) [
            | inl same ↦
                let it : some (refreshed before profiles packages u) ≡ some new' = cc (
                  at,
                  ap
                      (λ (b : Bool).
                        if b then some (refreshed before profiles packages u) else lookup name m)
                      same,
                ) in
                let user : u.username ≡ name = (str_eq_iff u.username name).0 same in
                let same_user : refreshed before profiles packages u ≡ new' = cc (it) in
                subst (Outlasts old) same_user
                  (refreshed-Outlasts old u (ap (λ (n : Str). lookup n before) user ∙ known))
            | inr other ↦ given new' (
                cc (
                  at,
                  ap
                      (λ (b : Bool).
                        if b then some (refreshed before profiles packages u) else lookup name m)
                      other,
                ))
          ])
        new e

-- A refresh changes nothing or reads both tables again.
abbrev Reloaded : Queries → Service → Type 0
Reloaded db s =
    (refresh db s ≡ s)
    ⊎ ((users : List RadiusUser) × (profiles : List PppoeProfile) × (packages : List VoucherPackage)
        × ((refresh db s).subscribers
            ≡ load_users s.subscribers (profile_map profiles []) (package_map packages []) users
                []))

refresh_of :
    (a : Option (List RadiusUser)) (b : Option (List Nas)) (c : Option (List PppoeProfile))
    (d : Option (List VoucherPackage)) (s : Service)
    → Reloaded (record { list_users = a; list_nas = b; list_profiles = c; list_packages = d }) s
unfolding refresh refresh_from_db
refresh_of none b c d s = inl refl
refresh_of (some users) none c d s = inl refl
refresh_of (some users) (some nases) none d s = inl refl
refresh_of (some users) (some nases) (some profiles) none s = inl refl
refresh_of (some users) (some nases) (some profiles) (some packages) s =
    inr (users, profiles, packages, refl)

refresh-cases : (db : Queries) (s : Service) → Reloaded db s
refresh-cases db s = refresh_of db.list_users db.list_nas db.list_profiles db.list_packages s

same_user : (u : RadiusUser) → Outlasts u u
same_user u = record {
  locked = ground arith;
  bytes = omega arith;
  seconds = omega arith;
  login = ground arith;
  expiry = ground arith;
}

-- A refresh, whatever the database holds and whether or not a query fails, keeps what is in memory
-- of a user who is there before and after: a lock stays, the usage counters do not go back, and the
-- first login and the expiry that are set stay.
pub refresh-Outlasts :
    (db : Queries) (s : Service) (name : Str) (old new : RadiusUser)
    → lookup name s.subscribers ≡ some old
    → lookup name (refresh db s).subscribers ≡ some new
    → Outlasts old new
unfolding lookup
refresh-Outlasts db s name old new known e = elim (refresh-cases db s) [
  | inl same ↦
      let kept : lookup name s.subscribers ≡ some new =
        ap (λ (q : Service). lookup name q.subscribers) (sym same) ∙ e in
      let it : old ≡ new = cc (known, kept) in subst (Outlasts old) it (same_user old)
  | inr (users, profiles, packages, k) ↦
      load_users-Outlasts s.subscribers (profile_map profiles []) (package_map packages []) old name
        users [] known (λ new' none_yet. absurd (cc (none_yet))) new (ap (lookup name) (sym k) ∙ e)
]

-- Refreshes one after the other, each with what the database holds then.
abbrev pub refreshes : List Queries → Service → Service
refreshes [] s = s
refreshes (db ∷ dbs) s = refreshes dbs (refresh db s)

-- The database lists the user at every refresh.
abbrev pub Present : Str → List Queries → Service → Type 0
Present name [] s = Unit {0}
Present name (db ∷ dbs) s =
    ((u : RadiusUser) × (lookup name (refresh db s).subscribers ≡ some u))
    × Present name dbs (refresh db s)

refreshes-locked :
    (name : Str) (dbs : List Queries) (s : Service) (u : RadiusUser)
    → lookup name s.subscribers ≡ some u
    → u.enabled ≡ false
    → Present name dbs s
    → lookup name (refreshes dbs s).subscribers
      ≡ disabled (lookup name (refreshes dbs s).subscribers)
refreshes-locked name [] s u known off here = rw (known) (ap some (ground arith))
refreshes-locked name (db ∷ dbs) s u known off ((u', known'), here) =
    refreshes-locked name dbs (refresh db s) u' known'
      (ground (arith, (refresh-Outlasts db s name u u' known known').locked)) here

-- A user who was disabled in memory stays rejected after any number of refreshes that find him,
-- also where the database says that he is enabled: no refresh unlocks him.
pub refreshes_lock_out :
    (env : Env) (laws : AttributeLaws env.lib) (inter : Interleaving) (clock : AuthClock)
    (req : AuthRequest) (dbs : List Queries) (s : Service) (u : RadiusUser)
    → lookup req.username s.subscribers ≡ some u
    → u.enabled ≡ false
    → Present req.username dbs s
    → is_accept (handle_auth env inter clock req (refreshes dbs s)) ≡ false
refreshes_lock_out env laws inter clock req dbs s u known off here =
    disabled_is_rejected env laws inter clock req (refreshes dbs s) _
      (refreshes-locked req.username dbs s u known off here)
