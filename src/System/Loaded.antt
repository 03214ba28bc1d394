-- ===== src/System/Loaded.antt =====
-- A refresh from rows that were read at some time, as far as the usage of a voucher goes.
use radius_go.Base.{
  ℕ, ◌≤◌, ◌≡◌, ◌⊎◌, refl, sym, ◌∙◌, ap, subst, true, Option, none, some, List, [], ◌∷◌, arith, All,
  Bool-cases, inl, inr,
}
use radius_go.Base.Int.{pos}
use radius_go.Base.Text.{Str, str_eq, str_eq_iff}
use radius_go.Base.Dict.{Dict, lookup, insert, lookup-insert}
use radius_go.Domain.Pppoe.{PppoeProfile}
use radius_go.Domain.User.{RadiusUser, Nas}
use radius_go.Domain.Voucher.{VoucherPackage}
use radius_go.Repository.Table.{first_where, exists}
use radius_go.Service.{Service}
use radius_go.Service.Refresh.{
  Queries, preserve, refreshed, load_users, refresh_from_db, refresh, package_map, profile_map,
}
use radius_go.System.Rows.{Tracked}

-- The voucher in memory.
pub record InMemory (id : Str) (m : ℕ) (u : RadiusUser) : Type 0 where
  pub is_row : u.id ≡ id
  pub voucher : u.is_voucher ≡ true
  pub bytes : u.data_bytes_used ≡ pos m

abbrev pub Known : Str → Str → ℕ → Dict RadiusUser → Type 0
Known name id m subscribers =
    (u : RadiusUser) × (lookup name subscribers ≡ some u) × InMemory id m u

module _ (before : Dict RadiusUser) (profiles : Dict PppoeProfile) (packages : Dict VoucherPackage)
    (name id : Str) (k m : ℕ) (le : k ≤ m) (known : Known name id m before) where
  refreshed-InMemory :
      (u : RadiusUser)
      → Tracked name id k u
      → str_eq u.username name ≡ true
      → InMemory id m (refreshed before profiles packages u)
  unfolding preserve
  refreshed-InMemory u t here =
      let (user, found, mem) = known in
      let is : u.username ≡ name = (str_eq_iff u.username name).0 here in
      let row_is : str_eq u.id id ≡ true = sym t.same ∙ here in
      let found' : lookup u.username before ≡ some user =
        ap (λ (n : Str). lookup n before) is ∙ found in
      rw (found') (record {
        is_row = (str_eq_iff u.id id).0 row_is;
        voucher = ground (arith, t.voucher, row_is);
        bytes = ground (arith, mem.bytes, t.bytes row_is, le);
      })

-- A table that has a user of the name, and of that name only such as lead to the wanted state: the
-- user is there after the loop.
pub load_users-finds :
    (before : Dict RadiusUser) (profiles : Dict PppoeProfile) (packages : Dict VoucherPackage)
    (name : Str) (P G : RadiusUser → Type 0) (users : List RadiusUser) (loaded : Dict RadiusUser)
    → ((u : RadiusUser)
        → P u
        → str_eq u.username name ≡ true
        → G (refreshed before profiles packages u))
    → All P users
    → (exists (λ u. str_eq u.username name) users ≡ true)
      ⊎ ((v : RadiusUser) × (lookup name loaded ≡ some v) × G v)
    → (v : RadiusUser) × (lookup name (load_users before profiles packages users loaded) ≡ some v)
      × G v
unfolding load_users first_where
load_users-finds before profiles packages name P G [] loaded leads rows (inl there) =
    absurd (cc (there))
load_users-finds before profiles packages name P G [] loaded leads rows (inr h) = h
load_users-finds before profiles packages name P G (u ∷ us) loaded leads rows given =
    let new = refreshed before profiles packages u in
    let at = lookup-insert u.username name new loaded in
    load_users-finds before profiles packages name P G us (insert u.username new loaded) leads
      rows.1
      (elim (Bool-cases (str_eq u.username name)) [
        | inl here ↦ inr (new, at ∙ rw (here) refl, leads u rows.0 here)
        | inr other ↦ elim given [
          | inl there ↦ inl (ground (arith, there, other))
          | inr (v, found, good) ↦ inr (v, at ∙ rw (other) found, good)
        ]
      ])

-- The row of the voucher is the one of his name.
Tracked-there :
    (name id : Str) (k : ℕ) (users : List RadiusUser)
    → All (Tracked name id k) users
    → exists (λ u. str_eq u.username name) users ≡ exists (λ u. str_eq u.id id) users
unfolding first_where
Tracked-there name id k [] rows = refl
Tracked-there name id k (u ∷ us) rows =
    ground (arith, rows.0.same, Tracked-there name id k us rows.1)

refresh_loads_from :
    (users : List RadiusUser) (b : Option (List Nas)) (c : Option (List PppoeProfile))
    (d : Option (List VoucherPackage)) (s : Service)
    → let q : Queries = record {
      list_users = some users;
      list_nas = b;
      list_profiles = c;
      list_packages = d;
    } in
      (refresh q s ≡ s)
      ⊎ ((profiles : List PppoeProfile) × (packages : List VoucherPackage) × ((refresh q
              s).subscribers
            ≡ load_users s.subscribers
                (profile_map profiles [])
                (package_map packages [])
                users
                []))
unfolding refresh refresh_from_db
refresh_loads_from users none c d s = inl refl
refresh_loads_from users (some nases) none d s = inl refl
refresh_loads_from users (some nases) (some profiles) none s = inl refl
refresh_loads_from users (some nases) (some profiles) (some packages) s =
    inr (profiles, packages, refl)

-- A refresh from rows with the voucher's, under an older usage, leaves the usage in memory.
pub refresh-Known :
    (q : Queries) (users : List RadiusUser) (s : Service) (name id : Str) (k m : ℕ)
    → q.list_users ≡ some users
    → All (Tracked name id k) users
    → exists (λ u. str_eq u.id id) users ≡ true
    → k ≤ m
    → Known name id m s.subscribers
    → Known name id m (refresh q s).subscribers
refresh-Known q users s name id k m e rows there le known =
    let same : record q { list_users = some users } ≡ q =
      ap (λ (l : Option (List RadiusUser)). record q { list_users = l }) (sym e) in
    let as_read : Queries = record q { list_users = some users } in
    subst (λ (p : Queries). Known name id m (refresh p s).subscribers) same
      (elim (refresh_loads_from users q.list_nas q.list_profiles q.list_packages s) [
        | inl still ↦ subst (λ (p : Service). Known name id m p.subscribers) (sym still) known
        | inr (profiles, packages, loaded) ↦ subst (Known name id m) (sym loaded) (
            load_users-finds s.subscribers (profile_map profiles []) (package_map packages []) name
              (Tracked name id k) (InMemory id m) users []
              (refreshed-InMemory s.subscribers (profile_map profiles []) (package_map packages [])
                name id k m le known)
              rows (inl (Tracked-there name id k users rows ∙ there)))
      ])
