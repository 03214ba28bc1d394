-- ===== src/System/Foreign/Statements.antt =====
-- Every statement and every goroutine that leaves the usage of a voucher's row alone.
use radius_go.Base.{
  ℕ, ◌≡◌, refl, sym, ◌∙◌, subst, true, false, some, arith, Bool-cases, Option-cases, inl, inr,
}
use radius_go.Base.Int.{ℤ}
use radius_go.Base.Text.{Str, str_eq, str_eq_iff}
use radius_go.Domain.User.{RadiusUser}
use radius_go.Repository.{Postgres, Database}
use radius_go.Repository.Table.{update_where, delete_where}
use radius_go.Repository.Table.Distinct.{exists-update_same}
use radius_go.Repository.Users.{
  delete_user, set_user, first_login, record_first_login, add_usage_delta, disable_user, used,
}
use radius_go.Repository.Profiles.{delete_pppoe_profile, unassigned}
use radius_go.Repository.Consistent.{
  Command, statement, insert_user, change_user, drop_user, lock_user, log_in, add_usage,
  insert_profile, change_profile, drop_profile, insert_nas, change_nas, drop_nas, put_session,
  set_status, insert_package, change_package, drop_package,
}
use radius_go.Service.{Task}
use radius_go.System.{names_row, is_foreign, adds_to, run_task}
use radius_go.Repository.Table.Every.{All-delete, All-update}
use radius_go.System.Rows.{
  Tracked, create_nas-users, update_nas-users, delete_nas-users, upsert_session-users,
  update_session_status-users, create_package-users, update_package-users, delete_package-users,
  create_pppoe_profile-users, update_pppoe_profile-users,
}
use radius_go.System.Foreign.{
  HasRow, update-HasRow, exists_after_delete, create_user-HasRow, update_user-HasRow,
}

module _ (pg : Postgres) (now : ℤ) (name id : Str) (d : ℕ) (db db' : Database)
    (h : HasRow name id d db.users) where
  set_user-HasRow :
      (j : Str) (f : RadiusUser → RadiusUser)
      → ((u : RadiusUser) → (f u).id ≡ u.id)
      → ((u : RadiusUser) → (f u).username ≡ u.username)
      → ((u : RadiusUser) → (f u).is_voucher ≡ u.is_voucher)
      → ((u : RadiusUser) → (f u).data_bytes_used ≡ u.data_bytes_used)
      → set_user pg j f db ≡ some db'
      → HasRow name id d db'.users
  set_user-HasRow j f ids names vouchers bytes e = elim (Option-cases (pg.uuid j)) [
    | inl n ↦ absurd (ground (arith, n, e))
    | inr (key, k) ↦
        let same : record db { users = update_where (λ u. str_eq u.id key) f db.users } ≡ db' =
          ground (arith, k, e) in
        subst (λ (q : Database). HasRow name id d q.users) same
          (update-HasRow name id d (λ u. str_eq u.id key) f db.users ids names vouchers bytes h)
  ]

  delete_user-HasRow :
      (j : Str)
      → names_row pg id j ≡ false
      → delete_user pg j db ≡ some db'
      → HasRow name id d db'.users
  unfolding delete_user
  delete_user-HasRow j foreign e = elim (Option-cases (pg.uuid j)) [
    | inl n ↦ absurd (ground (arith, n, e))
    | inr (key, k) ↦
        let same : record db { users = delete_where (λ u. str_eq u.id key) db.users } ≡ db' =
          ground (arith, k, e) in
        subst (λ (q : Database). HasRow name id d q.users) same
          (record {
            rows = All-delete (Tracked name id d) (λ u. str_eq u.id key) db.users h.rows;
            there = exists_after_delete id key db.users (ground (arith, k, foreign)) h.there;
          })
  ]

  delete_pppoe_profile-HasRow :
      (j : Str) → delete_pppoe_profile pg j db ≡ some db' → HasRow name id d db'.users
  unfolding delete_pppoe_profile
  delete_pppoe_profile-HasRow j e = elim (Option-cases (pg.uuid j)) [
    | inl n ↦ absurd (ground (arith, n, e))
    | inr (key, k) ↦
        let users : update_where (λ u. true) (unassigned key) db.users ≡ db'.users =
          ground (arith, k, e) in
        subst (HasRow name id d) users (
          update-HasRow name id d (λ u. true) (unassigned key) db.users (λ u. ground arith)
            (λ u. ground arith) (λ u. ground arith) (λ u. ground arith) h)
  ]

  -- A growth of another row.
  add_usage_delta-foreign :
      (j : Str) (secs octets : ℤ)
      → names_row pg id j ≡ false
      → add_usage_delta pg now j secs octets db ≡ some db'
      → HasRow name id d db'.users
  unfolding add_usage_delta
  add_usage_delta-foreign j secs octets foreign e = elim (Option-cases (pg.uuid j)) [
    | inl n ↦ absurd (ground (arith, n, e))
    | inr (key, k) ↦
        let users : update_where (λ u. str_eq u.id key) (used now secs octets) db.users
            ≡ db'.users =
          ground (arith, k, e) in
        let other : str_eq key id ≡ false = ground (arith, k, foreign) in
        subst (HasRow name id d) users (record {
          rows =
              All-update (Tracked name id d) (Tracked name id d) (λ u. str_eq u.id key)
                (used now secs octets) db.users
                (λ u t. elim (Bool-cases (str_eq u.id key)) [
                  | inr away ↦ rw (away) t
                  | inl at ↦
                      let is : u.id ≡ key = (str_eq_iff u.id key).0 at in
                      rw (at) (record {
                        same = t.same;
                        voucher = t.voucher;
                        bytes = λ here. absurd (ground (arith, here, is, other));
                      })
                ])
                h.rows;
          there =
              exists-update_same (λ u. str_eq u.id id) (λ u. str_eq u.id key) (used now secs octets)
                db.users (λ u. refl)
              ∙ h.there;
        })
  ]

  same_users : db'.users ≡ db.users → HasRow name id d db'.users
  same_users e = subst (HasRow name id d) (sym e) h

  pub statement-HasRow :
      (c : Command)
      → is_foreign pg id c ≡ true
      → statement pg now c db ≡ some db'
      → HasRow name id d db'.users
  unfolding statement disable_user record_first_login
  statement-HasRow (insert_user u) f e = create_user-HasRow pg now name id d db db' h u e
  statement-HasRow (change_user u) f e =
      update_user-HasRow pg now name id d db db' h u (ground (arith, f)) e
  statement-HasRow (drop_user j) f e = delete_user-HasRow j (ground (arith, f)) e
  statement-HasRow (lock_user j) f e =
      set_user-HasRow j (λ u. record u { enabled = false; updated_at = now }) (λ u. refl)
        (λ u. refl) (λ u. refl) (λ u. refl) e
  statement-HasRow (log_in j t n) f e =
      set_user-HasRow j (first_login now t n) (λ u. ground arith) (λ u. ground arith)
        (λ u. ground arith) (λ u. ground arith) e
  statement-HasRow (add_usage j secs octets) f e =
      add_usage_delta-foreign j secs octets (ground (arith, f)) e
  statement-HasRow (insert_profile p) f e =
      same_users (create_pppoe_profile-users pg now db db' p e)
  statement-HasRow (change_profile p) f e =
      same_users (update_pppoe_profile-users pg now db db' p e)
  statement-HasRow (drop_profile j) f e = delete_pppoe_profile-HasRow j e
  statement-HasRow (insert_nas n) f e = same_users (create_nas-users pg now db db' n e)
  statement-HasRow (change_nas n) f e = same_users (update_nas-users pg now db db' n e)
  statement-HasRow (drop_nas j) f e = same_users (delete_nas-users pg now db db' j e)
  statement-HasRow (put_session s) f e = same_users (upsert_session-users pg now db db' s e)
  statement-HasRow (set_status j status stop) f e =
      same_users (update_session_status-users pg now db db' j status stop e)
  statement-HasRow (insert_package p) f e = same_users (create_package-users pg now db db' p e)
  statement-HasRow (change_package p) f e = same_users (update_package-users pg now db db' p e)
  statement-HasRow (drop_package j) f e = same_users (delete_package-users pg now db db' j e)

  -- A goroutine that adds nothing to the row.
  pub run_task-foreign :
      (t : Task)
      → adds_to pg id t ≡ false
      → run_task pg now t db ≡ some db'
      → HasRow name id d db'.users
  unfolding run_task disable_user record_first_login
  run_task-foreign (Task.record_first_login j t n) f e =
      set_user-HasRow j (first_login now t n) (λ u. ground arith) (λ u. ground arith)
        (λ u. ground arith) (λ u. ground arith) e
  run_task-foreign (Task.disable_user j) f e =
      set_user-HasRow j (λ u. record u { enabled = false; updated_at = now }) (λ u. refl)
        (λ u. refl) (λ u. refl) (λ u. refl) e
  run_task-foreign (Task.upsert_session s) f e = same_users (upsert_session-users pg now db db' s e)
  run_task-foreign (Task.add_usage_delta j secs octets) f e =
      add_usage_delta-foreign j secs octets f e
  run_task-foreign (Task.disconnect_and_disable username j) f e =
      set_user-HasRow j (λ u. record u { enabled = false; updated_at = now }) (λ u. refl)
        (λ u. refl) (λ u. refl) (λ u. refl) e
