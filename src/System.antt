-- ===== src/System.antt =====
-- The server and its database together: the service in memory, the tables, the goroutines that
-- handlers of internal/radius started and that have not run, and the reads of refreshFromDB that
-- have not been stored. The steps keep one voucher in view, by its name and its row's identifier.
pub mod Rows
pub mod Foreign
pub mod Loaded
pub mod Growth
pub mod Conserved
pub mod Usage
use radius_go.Base.{
  ℕ, zero, suc, ◌+◌, ◌^◌, ◌<◌, ◌≡◌, ◌≢◌, Bool, true, false, not, Option, none, some, List, [], ◌∷◌,
  ◌++◌, if◌then◌else◌, All,
}
use radius_go.Base.Int.{ℤ, pos, pos_part, add64}
use radius_go.Base.Text.{Str, str_eq}
use radius_go.Base.Dict.{lookup}
use radius_go.Domain.User.{RadiusUser}
use radius_go.Domain.Session.{RadiusSession}
use radius_go.Service.{
  Service, Task, record_first_login, disable_user, upsert_session, add_usage_delta,
  disconnect_and_disable,
}
use radius_go.Service.Refresh.{Queries, refresh}
use radius_go.Accounting.{AcctRequest, AcctClock, apply_acct_update, find_session}
use radius_go.Accounting.Metering.{reported}
use radius_go.Auth.Decision.{disable_in_memory, store_first_login}
use radius_go.Repository.{Postgres, Database, Statement}
use radius_go.Repository.Users
use radius_go.Repository.Users.{list_users}
use radius_go.Repository.Sessions
use radius_go.Repository.Consistent.{
  Command, statement, insert_user, change_user, drop_user, add_usage,
}

pub record System : Type 0 where
  pub service : Service
  pub database : Database
  pub pending : List Task
  pub snapshots : List Queries

-- What a goroutine does to the database. The last one disconnects the user first.
unfoldable pub run_task : Postgres → ℤ → Task → Statement
unfolding Users.record_first_login Users.disable_user Users.add_usage_delta Sessions.upsert_session
run_task pg now (record_first_login id t n) = Users.record_first_login pg now id t n
run_task pg now (disable_user id) = Users.disable_user pg now id
run_task pg now (upsert_session sess) = Sessions.upsert_session pg now sess
run_task pg now (add_usage_delta id secs octets) = Users.add_usage_delta pg now id secs octets
run_task pg now (disconnect_and_disable username id) = Users.disable_user pg now id

module _ (pg : Postgres) (id : Str) where
  -- The server reads an identifier as that of the row.
  abbrev pub names_row : Str → Bool
  names_row j = elim (pg.uuid j) [ none ↦ false | some key ↦ str_eq key id ]

  -- The octets that a goroutine adds to the row.
  abbrev pub growth : Task → ℤ
  growth (record_first_login j t n) = pos 0
  growth (disable_user j) = pos 0
  growth (upsert_session sess) = pos 0
  growth (add_usage_delta j secs octets) = if names_row j then octets else pos 0
  growth (disconnect_and_disable username j) = pos 0

  -- A goroutine that adds usage to the row.
  abbrev pub adds_to : Task → Bool
  adds_to (add_usage_delta j secs octets) = names_row j
  adds_to _ = false

  -- The octets that wait to be added to the row.
  abbrev pub owed : List Task → ℕ
  owed [] = 0
  owed (t ∷ ts) = pos_part (growth t) + owed ts

  -- A statement of a handler that leaves the usage of the row alone: every one but the change and
  -- the deletion of that user, and the goroutines' own.
  abbrev pub is_foreign : Command → Bool
  is_foreign (change_user u) = not (names_row u.id)
  is_foreign (drop_user j) = not (names_row j)
  is_foreign (add_usage j secs octets) = not (names_row j)
  is_foreign _ = true

  -- What a step needs of an accounting request of the voucher: the totals and the usage fit an
  -- int64.
  pub record Fits (r : AcctRequest) (s : Service) (u : RadiusUser) : Type 0 where
    pub session_id : Str
    pub sess : RadiusSession
    pub before : ℕ
    pub total : ℕ
    pub running : find_session r.username r.session_id s.sessions ≡ some (session_id, sess)
    pub known : lookup r.username s.subscribers ≡ some u
    pub at_total : add64 sess.input_octets sess.output_octets ≡ pos before
    pub in_total : reported r ≡ pos total
    pub in_usage : pos_part u.data_bytes_used + total < 2 ^ 63

-- One step, and the octets of the row that it loses: those of a goroutine whose statement fails.
pub data Step (pg : Postgres) (name id : Str) (s : System) : ℕ → System → Type 0 where
  account :
      (r : AcctRequest) (clock : AcctClock) (stop : Bool) (u : RadiusUser)
      → r.username ≡ name
      → Fits pg id r s.service u
      → Step pg name id s 0 (record s {
        service = (apply_acct_update r clock stop s.service).0;
        pending = s.pending ++ (apply_acct_update r clock stop s.service).2;
      })
  account_none :
      (r : AcctRequest) (clock : AcctClock) (stop : Bool)
      → find_session r.username r.session_id s.service.sessions ≡ none
      → Step pg name id s 0 (record s {
        service = (apply_acct_update r clock stop s.service).0;
        pending = s.pending ++ (apply_acct_update r clock stop s.service).2;
      })
  account_other :
      (r : AcctRequest) (clock : AcctClock) (stop : Bool)
      → r.username ≢ name
      → All (λ t. growth pg id t ≡ pos 0) (apply_acct_update r clock stop s.service).2
      → Step pg name id s 0 (record s {
        service = (apply_acct_update r clock stop s.service).0;
        pending = s.pending ++ (apply_acct_update r clock stop s.service).2;
      })
  log_in :
      (username : Str) (user : RadiusUser) (now : ℤ)
      → Step pg name id s 0 (record s { service = store_first_login username user now s.service })
  lock :
      (username : Str)
      → Step pg name id s 0 (record s { service = disable_in_memory username s.service })
  others :
      (q : Service)
      → q.subscribers ≡ s.service.subscribers
      → Step pg name id s 0 (record s { service = q })
  start :
      (ts : List Task)
      → All (λ t. growth pg id t ≡ pos 0) ts
      → Step pg name id s 0 (record s { pending = s.pending ++ ts })
  read :
      (q : Queries)
      → q.list_users ≡ some (list_users pg s.database)
      → Step pg name id s 0 (record s { snapshots = q ∷ s.snapshots })
  store :
      (older newer : List Queries) (q : Queries)
      → s.snapshots ≡ newer ++ q ∷ older
      → Step pg name id s 0 (record s { service = refresh q s.service; snapshots = newer ++ older })
  run :
      (before after : List Task) (t : Task) (now : ℤ) (db : Database)
      → s.pending ≡ before ++ t ∷ after
      → run_task pg now t s.database ≡ some db
      → Step pg name id s 0 (record s { database = db; pending = before ++ after })
  fail :
      (before after : List Task) (t : Task)
      → s.pending ≡ before ++ t ∷ after
      → Step pg name id s (pos_part (growth pg id t)) (record s { pending = before ++ after })
  execute :
      (c : Command) (now : ℤ) (db : Database)
      → is_foreign pg id c ≡ true
      → statement pg now c s.database ≡ some db
      → Step pg name id s 0 (record s { database = db })

-- Steps one after the other, and what they lose together.
pub data Reach (pg : Postgres) (name id : Str) (s : System) : ℕ → System → Type 0 where
  here : Reach pg name id s 0 s
  next :
      {lost more : ℕ} {t u : System}
      → Reach pg name id s lost t
      → Step pg name id t more u
      → Reach pg name id s (lost + more) u
