-- ===== src/System/Growth.antt =====
-- The octets of a voucher on their way from memory to the database.
use radius_go.Base.{
  ℕ, ◌+◌, ◌-◌, ◌^◌, ◌≤◌, ◌<◌, ◌≡◌, ◌≢◌, refl, sym, ◌∙◌, subst, Bool, true, false, leb, none, some,
  List, [], ◌∷◌, ◌++◌, arith, All, Bool-cases, Option-cases, inl, inr,
}
use radius_go.Base.Int.{ℤ, pos, pos_part, ◌+ℤ◌}
use radius_go.Base.Text.{Str, str_eq, str_eq_iff}
use radius_go.Base.Dict.{Dict, lookup, insert, lookup-insert}
use radius_go.Domain.User.{RadiusUser}
use radius_go.Accounting.{
  AcctRequest, AcctClock, delta, delta_sec, delta_oct, updated_session, charged, find_session,
  charge, apply_acct_update,
}
use radius_go.Accounting.Totals.{delta_grown, delta_restarted}
use radius_go.Auth.Decision.{disable_in_memory, store_first_login, stored_login}
use radius_go.Repository.{Postgres, Database}
use radius_go.Repository.Table.{update_where}
use radius_go.Repository.Table.Distinct.{exists-update_same}
use radius_go.Repository.Users.{add_usage_delta, used}
use radius_go.Service.{Service, Task}
use radius_go.System.{growth, adds_to, owed, run_task}
use radius_go.Repository.Table.Every.{All-update}
use radius_go.System.Rows.{Tracked}
use radius_go.System.Foreign.{HasRow}
use radius_go.System.Loaded.{InMemory, Known}

-- The growth of a counter is a part of what the request reports.
pub delta-pos :
    (n b : ℕ) → n < 2 ^ 63 → b < 2 ^ 63 → (d : ℕ) × (delta (pos n) (pos b) ≡ pos d) × (d ≤ n)
delta-pos n b h k = elim (Bool-cases (leb b n)) [
  | inl le ↦ (n - b, delta_grown n b (ground arith) h, omega arith)
  | inr gt ↦ (n, delta_restarted n b (ground arith) k, omega arith)
]

module _ (pg : Postgres) (id : Str) where
  pub owed-remove :
      (before : List Task) (t : Task) (after : List Task)
      → owed pg id (before ++ t ∷ after) ≡ pos_part (growth pg id t) + owed pg id (before ++ after)
  owed-remove [] t after = refl
  owed-remove (b ∷ before) t after = omega (arith, owed-remove before t after)

  pub owed-append : (ts us : List Task) → owed pg id (ts ++ us) ≡ owed pg id ts + owed pg id us
  owed-append [] us = omega arith
  owed-append (t ∷ ts) us = omega (arith, owed-append ts us)

  pub owed-none : (ts : List Task) → All (λ t. growth pg id t ≡ pos 0) ts → owed pg id ts ≡ 0
  owed-none [] h = refl
  owed-none (t ∷ ts) h = ground (arith, h.0, owed-none ts h.1)

  pub growth-none : (t : Task) → adds_to pg id t ≡ false → growth pg id t ≡ pos 0
  growth-none (Task.record_first_login j a n) h = refl
  growth-none (Task.disable_user j) h = refl
  growth-none (Task.upsert_session s) h = refl
  growth-none (Task.add_usage_delta j secs octets) h = rw (h) refl
  growth-none (Task.disconnect_and_disable a j) h = refl

-- The goroutine that adds to the row.
pub run_task-growth :
    (pg : Postgres) (now : ℤ) (name id : Str) (d : ℕ) (db db' : Database) (t : Task)
    → HasRow name id d db.users
    → growth pg id t ≡ pos (pos_part (growth pg id t))
    → adds_to pg id t ≡ true
    → run_task pg now t db ≡ some db'
    → HasRow name id (d + pos_part (growth pg id t)) db'.users
unfolding run_task add_usage_delta ◌+ℤ◌
run_task-growth pg now name id d db db' (Task.add_usage_delta j secs octets) h signed adds e =
    elim (Option-cases (pg.uuid j)) [
      | inl n ↦ absurd (ground (arith, n, e))
      | inr (key, k) ↦
          let users : update_where (λ u. str_eq u.id key) (used now secs octets) db.users
              ≡ db'.users =
            ground (arith, k, e) in
          let is : key ≡ id = (str_eq_iff key id).0 (ground (arith, k, adds)) in
          let grows : growth pg id (Task.add_usage_delta j secs octets) ≡ octets = rw (adds) refl in
          let n = pos_part octets in
          let octets_pos : octets ≡ pos n = ground (arith, grows, signed) in
          subst (λ (i : ℤ). HasRow name id (d + pos_part i) db'.users) (sym grows)
            (subst (HasRow name id (d + n)) users (record {
              rows =
                  All-update (Tracked name id d) (Tracked name id (d + n)) (λ u. str_eq u.id key)
                    (used now secs octets) db.users
                    (λ u t. elim (Bool-cases (str_eq u.id key)) [
                      | inr away ↦ rw (away) (record {
                        same = t.same;
                        voucher = t.voucher;
                        bytes = λ here. absurd (ground (arith, here, is, away));
                      })
                      | inl at ↦ rw (at) (record {
                        same = t.same;
                        voucher = t.voucher;
                        bytes = λ here. ground (arith, t.bytes here, octets_pos);
                      })
                    ])
                    h.rows;
              there =
                  exists-update_same (λ u. str_eq u.id id) (λ u. str_eq u.id key)
                    (used now secs octets) db.users (λ u. refl)
                  ∙ h.there;
            }))
    ]
run_task-growth pg now name id d db db' (Task.record_first_login j a n) h signed adds e =
    absurd (cc (adds))
run_task-growth pg now name id d db db' (Task.disable_user j) h signed adds e = absurd (cc (adds))
run_task-growth pg now name id d db db' (Task.upsert_session s) h signed adds e = absurd (cc (adds))
run_task-growth pg now name id d db db' (Task.disconnect_and_disable a j) h signed adds e =
    absurd (cc (adds))

-- A change of some user in memory that keeps the voucher's usage.
insert-Known :
    (name id : Str) (m : ℕ) (username : Str) (f : RadiusUser → RadiusUser)
    (subscribers : Dict RadiusUser) (stored : RadiusUser)
    → ((u : RadiusUser) → InMemory id m u → InMemory id m (f u))
    → lookup username subscribers ≡ some stored
    → Known name id m subscribers
    → Known name id m (insert username (f stored) subscribers)
insert-Known name id m username f subscribers stored keep there (u, found, mem) =
    let at = lookup-insert username name (f stored) subscribers in
    elim (Bool-cases (str_eq username name)) [
      | inr other ↦ (u, at ∙ rw (other) found, mem)
      | inl it ↦
          let is : username ≡ name = (str_eq_iff username name).0 it in
          let same : stored ≡ u = cc (there, found, is) in
          (f stored, at ∙ rw (it) refl, keep stored (subst (InMemory id m) (sym same) mem))
    ]

pub disable_in_memory-Known :
    (name id : Str) (m : ℕ) (username : Str) (s : Service)
    → Known name id m s.subscribers
    → Known name id m (disable_in_memory username s).subscribers
unfolding disable_in_memory
disable_in_memory-Known name id m username s known =
    elim (Option-cases (lookup username s.subscribers)) [
      | inl gone ↦ rw (gone, disable_in_memory) known
      | inr (stored, there) ↦
          rw (there, disable_in_memory)
            (insert-Known name id m username (λ u. record u { enabled = false }) s.subscribers
              stored
              (λ u mem. record { is_row = mem.is_row; voucher = mem.voucher; bytes = mem.bytes })
              there known)
    ]

pub store_first_login-Known :
    (name id : Str) (m : ℕ) (username : Str) (user : RadiusUser) (now : ℤ) (s : Service)
    → Known name id m s.subscribers
    → Known name id m (store_first_login username user now s).subscribers
unfolding store_first_login
store_first_login-Known name id m username user now s known =
    elim (Option-cases (lookup username s.subscribers)) [
      | inl gone ↦ rw (gone, store_first_login) known
      | inr (stored, there) ↦
          rw (there, store_first_login)
            (insert-Known name id m username (stored_login user now) s.subscribers stored
              (λ u mem. record {
                is_row = ground (arith, mem.is_row);
                voucher = ground (arith, mem.voucher);
                bytes = ground (arith, mem.bytes);
              })
              there known)
    ]

charge-other :
    (username name : Str) (secs octets : ℤ) (s : Service)
    → str_eq username name ≡ false
    → lookup name (charge username secs octets s).0.subscribers ≡ lookup name s.subscribers
unfolding charge
charge-other username name secs octets s other =
    elim (Option-cases (lookup username s.subscribers)) [
      | inl gone ↦ rw (gone, charge) refl
      | inr (u, found) ↦
          let at = lookup-insert username name (charged secs octets u) s.subscribers in
          ground (arith, found, at, other)
    ]

-- Accounting of another user.
pub apply_acct_update-other :
    (r : AcctRequest) (clock : AcctClock) (stop : Bool) (s : Service) (name : Str)
    → r.username ≢ name
    → lookup name (apply_acct_update r clock stop s).0.subscribers ≡ lookup name s.subscribers
unfolding apply_acct_update
apply_acct_update-other r clock stop s name other =
    elim (Option-cases (find_session r.username r.session_id s.sessions)) [
      | inl gone ↦ rw (gone, apply_acct_update) refl
      | inr ((key, sess), found) ↦
          rw (found, apply_acct_update)
            (charge-other r.username name (delta_sec r sess) (delta_oct r sess)
              (record s { sessions = insert key (updated_session r clock stop sess) s.sessions })
              (ground (arith, str_eq_iff r.username name, other)))
    ]

-- A request about no session that is known.
pub apply_acct_update-none :
    (r : AcctRequest) (clock : AcctClock) (stop : Bool) (s : Service)
    → find_session r.username r.session_id s.sessions ≡ none
    → apply_acct_update r clock stop s ≡ (s, false, [])
unfolding apply_acct_update
apply_acct_update-none r clock stop s gone = rw (gone, apply_acct_update) refl
