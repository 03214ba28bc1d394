-- ===== src/Repository/Consistent/Others.antt =====
-- The constraints under the statements on servers, sessions and packages, of
-- internal/radius/repository.go and internal/radius/voucher_service.go.
use radius_go.Base.{
  ◌≡◌, refl, subst, ◌&&◌, not, Option, some, List, [], ◌∷◌, ◌++◌, arith, Option-cases, inl, inr,
  if◌then◌else◌,
}
use radius_go.Base.Int.{ℤ}
use radius_go.Base.Text.{Str, str_eq}
use radius_go.Domain.Session.{RadiusSession, SessionState}
use radius_go.Domain.User.{Nas}
use radius_go.Domain.Voucher.{VoucherPackage}
use radius_go.Repository.{Postgres, Database}
use radius_go.Repository.Table.{update_where, delete_where, exists, IsDistinct}
use radius_go.Repository.Table.Distinct.{append-IsDistinct, delete-IsDistinct, update-IsDistinct}
use radius_go.Repository.Nases.{create_nas, update_nas, delete_nas, nas_fits}
use radius_go.Repository.Sessions.{
  upsert_session, update_session_status, session_row, session_fits, stored_time,
}
use radius_go.Repository.Packages.{create_package, update_package, delete_package, package_fits}
use radius_go.Repository.Consistent.{IsConsistent}
use radius_go.Repository.Consistent.Accounts.{if_some}

with_others :
    (db : Database) (nases : List Nas) (sessions : List RadiusSession)
    (packages : List VoucherPackage)
    → IsConsistent db
    → IsDistinct (λ n. n.id) nases
    → IsDistinct (λ s. s.id) sessions
    → IsDistinct (λ p. p.id) packages
    → IsConsistent (record db { nases = nases; sessions = sessions; packages = packages })
with_others db nases sessions packages c n s p = record {
  user_ids = c.user_ids;
  usernames = c.usernames;
  profile_ids = c.profile_ids;
  profile_names = c.profile_names;
  nas_ids = n;
  session_ids = s;
  package_ids = p;
  assigned = c.assigned;
}

module _ (pg : Postgres) (now : ℤ) (db db' : Database) (c : IsConsistent db) where
  pub create_nas-IsConsistent : (n : Nas) → create_nas pg now n db ≡ some db' → IsConsistent db'
  unfolding create_nas
  create_nas-IsConsistent n e = elim (Option-cases (pg.uuid n.id)) [
    | inl bad ↦ absurd (ground (arith, bad, e))
    | inr (key, k) ↦
        let new : Nas = record n { id = key; created_at = now; updated_at = now } in
        let (ok, same) =
          if_some (nas_fits pg n && not (exists (λ m. str_eq m.id key) db.nases))
            (record db { nases = db.nases ++ new ∷ [] }) db' (ground (arith, k, e)) in
        subst IsConsistent same (
          with_others db (db.nases ++ new ∷ []) db.sessions db.packages c
            (append-IsDistinct (λ m. m.id) new db.nases c.nas_ids (ground (arith, ok)))
            c.session_ids c.package_ids)
  ]

  pub update_nas-IsConsistent : (n : Nas) → update_nas pg now n db ≡ some db' → IsConsistent db'
  unfolding update_nas
  update_nas-IsConsistent n e = elim (Option-cases (pg.uuid n.id)) [
    | inl bad ↦ absurd (ground (arith, bad, e))
    | inr (key, k) ↦
        let set : Nas → Nas =
          λ old. record n { id = old.id; created_at = old.created_at; updated_at = now } in
        let (ok, same) =
          if_some (nas_fits pg n)
            (record db { nases = update_where (λ m. str_eq m.id key) set db.nases }) db'
            (ground (arith, k, e)) in
        subst IsConsistent same (
          with_others db (update_where (λ m. str_eq m.id key) set db.nases) db.sessions db.packages
            c
            (update-IsDistinct (λ m. m.id) (λ m. str_eq m.id key) set db.nases (λ m. refl)
              c.nas_ids)
            c.session_ids c.package_ids)
  ]

  pub delete_nas-IsConsistent : (id : Str) → delete_nas pg id db ≡ some db' → IsConsistent db'
  unfolding delete_nas
  delete_nas-IsConsistent id e = elim (Option-cases (pg.uuid id)) [
    | inl bad ↦ absurd (ground (arith, bad, e))
    | inr (key, k) ↦
        let same : record db { nases = delete_where (λ m. str_eq m.id key) db.nases } ≡ db' =
          ground (arith, k, e) in
        subst IsConsistent same (
          with_others db (delete_where (λ m. str_eq m.id key) db.nases) db.sessions db.packages c
            (delete-IsDistinct (λ m. m.id) (λ m. str_eq m.id key) db.nases c.nas_ids) c.session_ids
            c.package_ids)
  ]

  pub create_package-IsConsistent :
      (p : VoucherPackage) → create_package pg now p db ≡ some db' → IsConsistent db'
  unfolding create_package
  create_package-IsConsistent p e = elim (Option-cases (pg.uuid p.id)) [
    | inl bad ↦ absurd (ground (arith, bad, e))
    | inr (key, k) ↦ elim (Option-cases (pg.numeric p.price)) [
      | inl bad ↦ absurd (ground (arith, k, bad, e))
      | inr (price, kp) ↦
          let new : VoucherPackage = record p {
            id = key;
            price = price;
            created_at = now;
            updated_at = now;
          } in
          let (ok, same) =
            if_some (package_fits pg p && not (exists (λ q. str_eq q.id key) db.packages))
              (record db { packages = db.packages ++ new ∷ [] }) db' (ground (arith, k, kp, e)) in
          subst IsConsistent same (
            with_others db db.nases db.sessions (db.packages ++ new ∷ []) c c.nas_ids c.session_ids
              (append-IsDistinct (λ q. q.id) new db.packages c.package_ids (ground (arith, ok))))
    ]
  ]

  pub update_package-IsConsistent :
      (p : VoucherPackage) → update_package pg now p db ≡ some db' → IsConsistent db'
  unfolding update_package
  update_package-IsConsistent p e = elim (Option-cases (pg.uuid p.id)) [
    | inl bad ↦ absurd (ground (arith, bad, e))
    | inr (key, k) ↦ elim (Option-cases (pg.numeric p.price)) [
      | inl bad ↦ absurd (ground (arith, k, bad, e))
      | inr (price, kp) ↦
          let set : VoucherPackage → VoucherPackage = λ old. record p {
            id = old.id;
            price = price;
            created_at = old.created_at;
            updated_at = now;
          } in
          let (ok, same) =
            if_some (package_fits pg p)
              (record db { packages = update_where (λ q. str_eq q.id key) set db.packages }) db'
              (ground (arith, k, kp, e)) in
          subst IsConsistent same (
            with_others db db.nases db.sessions
              (update_where (λ q. str_eq q.id key) set db.packages) c c.nas_ids c.session_ids
              (update-IsDistinct (λ q. q.id) (λ q. str_eq q.id key) set db.packages (λ q. refl)
                c.package_ids))
    ]
  ]

  pub delete_package-IsConsistent :
      (id : Str) → delete_package pg id db ≡ some db' → IsConsistent db'
  unfolding delete_package
  delete_package-IsConsistent id e = elim (Option-cases (pg.uuid id)) [
    | inl bad ↦ absurd (ground (arith, bad, e))
    | inr (key, k) ↦
        let same : record db { packages = delete_where (λ p. str_eq p.id key) db.packages } ≡ db' =
          ground (arith, k, e) in
        subst IsConsistent same (
          with_others db db.nases db.sessions (delete_where (λ p. str_eq p.id key) db.packages) c
            c.nas_ids c.session_ids
            (delete-IsDistinct (λ p. p.id) (λ p. str_eq p.id key) db.packages c.package_ids))
  ]

  pub upsert_session-IsConsistent :
      (s : RadiusSession) → upsert_session pg now s db ≡ some db' → IsConsistent db'
  unfolding upsert_session
  upsert_session-IsConsistent s e = elim (Option-cases (pg.uuid s.id)) [
    | inl bad ↦ absurd (ground (arith, bad, e))
    | inr (key, k) ↦
        let new = session_row pg now s key now in
        let set : RadiusSession → RadiusSession =
          λ old. session_row pg now s old.id old.created_at in
        let rows =
          if exists (λ r. str_eq r.id key) db.sessions
          then update_where (λ r. str_eq r.id key) set db.sessions
          else db.sessions ++ new ∷ [] in
        let (ok, same) =
          if_some (session_fits pg s) (record db { sessions = rows }) db' (ground (arith, k, e)) in
        let kept =
          update-IsDistinct (λ r. r.id) (λ r. str_eq r.id key) set db.sessions (λ r. refl)
            c.session_ids in
        let grown = append-IsDistinct (λ r. r.id) new db.sessions c.session_ids in
        subst IsConsistent same (
          with_others db db.nases rows db.packages c c.nas_ids (ground (arith, kept, grown))
            c.package_ids)
  ]

  pub update_session_status-IsConsistent :
      (id : Str) (status : SessionState) (stop : Option ℤ)
      → update_session_status pg now id status stop db ≡ some db'
      → IsConsistent db'
  unfolding update_session_status
  update_session_status-IsConsistent id status stop e = elim (Option-cases (pg.uuid id)) [
    | inl bad ↦ absurd (ground (arith, bad, e))
    | inr (key, k) ↦
        let set : RadiusSession → RadiusSession = λ s. record s {
          session_status = status;
          stop_time = stored_time pg stop;
          updated_at = now;
        } in
        let (ok, same) =
          if_some (pg.holds_text status)
            (record db { sessions = update_where (λ s. str_eq s.id key) set db.sessions }) db'
            (ground (arith, k, e)) in
        subst IsConsistent same (
          with_others db db.nases (update_where (λ s. str_eq s.id key) set db.sessions) db.packages
            c c.nas_ids
            (update-IsDistinct (λ s. s.id) (λ s. str_eq s.id key) set db.sessions (λ s. refl)
              c.session_ids)
            c.package_ids)
  ]
