-- ===== src/System/Conserved.antt =====
-- The usage of a voucher in memory, in the database and on the way between them.
pub mod Steps
use radius_go.Base.{
  ℕ, ◌+◌, ◌^◌, ◌≤◌, ◌<◌, ◌≡◌, ◌≢◌, refl, sym, ◌∙◌, ap, subst, Bool, true, false, ◌&&◌, not, Option,
  none, some, List, [], ◌∷◌, ◌++◌, if◌then◌else◌, arith, All, Bool-cases, Option-cases, inl, inr,
}
use radius_go.Base.Int.{ℤ, pos, pos_part, ltb_ℤ, add64}
use radius_go.Base.Text.{Str, is_empty, str_eq, str_eq_iff, str_eq_refl}
use radius_go.Base.Dict.{Dict, lookup, insert, lookup-insert_self}
use radius_go.Domain.User.{RadiusUser}
use radius_go.Accounting.{
  AcctRequest, AcctClock, delta, delta_sec, delta_oct, charged, updated_session, find_session,
  apply_acct_update,
}
use radius_go.Accounting.Metering.{reported}
use radius_go.Accounting.Totals.{add64_pos}
use radius_go.Accounting.Usage.{apply_acct_update-voucher, usage_tasks}
use radius_go.Repository.{Postgres, Database}
use radius_go.Repository.Table.{exists}
use radius_go.Repository.Users.{list_users}
use radius_go.Service.{Service, Task}
use radius_go.Service.Refresh.{Queries, refresh}
use radius_go.System.{
  System, Step, Reach, Fits, names_row, growth, adds_to, owed, run_task, account, account_none,
  account_other, log_in, lock, others, start, read, store, run, fail, execute, here, next,
}
use radius_go.Repository.Table.Every.{All-append, All-remove, All-order_by, exists-order_by}
use radius_go.System.Rows.{Tracked}
use radius_go.System.Foreign.{HasRow}
use radius_go.System.Foreign.Statements.{statement-HasRow, run_task-foreign}
use radius_go.System.Loaded.{InMemory, Known, refresh-Known}
use radius_go.System.Growth.{
  delta-pos, owed-remove, owed-append, owed-none, growth-none, run_task-growth,
  disable_in_memory-Known, store_first_login-Known, apply_acct_update-other,
}

-- A read of the users with the voucher's row, from a time when he had used no more.
pub record IsRead (name id : Str) (m : ℕ) (q : Queries) : Type 0 where
  pub users : List RadiusUser
  pub then_used : ℕ
  pub listed : q.list_users ≡ some users
  pub rows : All (Tracked name id then_used) users
  pub there : exists (λ u. str_eq u.id id) users ≡ true
  pub older : then_used ≤ m

abbrev pub Signed : Postgres → Str → Task → Type 0
Signed pg id t = growth pg id t ≡ pos (pos_part (growth pg id t))

-- The octets in memory are those in the database, those on the way, and those that were lost.
pub record Conserved (pg : Postgres) (name id : Str) (lost : ℕ) (s : System) : Type 0 where
  pub in_memory : ℕ
  pub in_database : ℕ
  pub known : Known name id in_memory s.service.subscribers
  pub row : HasRow name id in_database s.database.users
  pub signed : All (Signed pg id) s.pending
  pub balance : in_database + owed pg id s.pending + lost ≡ in_memory
  pub reads : All (IsRead name id in_memory) s.snapshots

pub IsRead-older :
    (name id : Str) (m n : ℕ) (qs : List Queries)
    → m ≤ n
    → All (IsRead name id m) qs
    → All (IsRead name id n) qs
IsRead-older name id m n [] le h = tt
IsRead-older name id m n (q ∷ qs) le h = (
  record {
    users = h.0.users;
    then_used = h.0.then_used;
    listed = h.0.listed;
    rows = h.0.rows;
    there = h.0.there;
    older = omega (arith, h.0.older);
  },
  IsRead-older name id m n qs le h.1,
)

module _ (pg : Postgres) (name id : Str) (canonical : pg.uuid id ≡ some id)
    (given : is_empty id ≡ false) (lost : ℕ) (s : System) (c : Conserved pg name id lost s) where
  -- Only the service changed, and not the usage of the voucher.
  pub service-Conserved :
      (q : Service)
      → Known name id c.in_memory q.subscribers
      → Conserved pg name id lost (record s { service = q })
  service-Conserved q k = record {
    in_memory = c.in_memory;
    in_database = c.in_database;
    known = k;
    row = c.row;
    signed = c.signed;
    balance = c.balance;
    reads = c.reads;
  }

  -- Goroutines that add nothing to the row.
  foreign-Signed : (ts : List Task) → All (λ t. growth pg id t ≡ pos 0) ts → All (Signed pg id) ts
  foreign-Signed [] h = tt
  foreign-Signed (t ∷ ts) h = (ground (arith, h.0), foreign-Signed ts h.1)

  pub start-Conserved :
      (q : Service) (ts : List Task)
      → Known name id c.in_memory q.subscribers
      → All (λ t. growth pg id t ≡ pos 0) ts
      → Conserved pg name id lost (record s { service = q; pending = s.pending ++ ts })
  start-Conserved q ts k foreign = record {
    in_memory = c.in_memory;
    in_database = c.in_database;
    known = k;
    row = c.row;
    signed = All-append (Signed pg id) s.pending ts c.signed (foreign-Signed ts foreign);
    balance = omega (arith, owed-append pg id s.pending ts, owed-none pg id ts foreign, c.balance);
    reads = c.reads;
  }

  pub statement-Conserved :
      (db : Database)
      → HasRow name id c.in_database db.users
      → Conserved pg name id lost (record s { database = db })
  statement-Conserved db h = record {
    in_memory = c.in_memory;
    in_database = c.in_database;
    known = c.known;
    row = h;
    signed = c.signed;
    balance = c.balance;
    reads = c.reads;
  }

  pub read-Conserved :
      (q : Queries)
      → q.list_users ≡ some (list_users pg s.database)
      → Conserved pg name id lost (record s { snapshots = q ∷ s.snapshots })
  unfolding list_users
  read-Conserved q e =
      let le = λ (a b : RadiusUser). pg.collate a.username b.username in
      record {
        in_memory = c.in_memory;
        in_database = c.in_database;
        known = c.known;
        row = c.row;
        signed = c.signed;
        balance = c.balance;
        reads = (
          record {
            users = list_users pg s.database;
            then_used = c.in_database;
            listed = e;
            rows = All-order_by (Tracked name id c.in_database) le s.database.users c.row.rows;
            there = exists-order_by (λ u. str_eq u.id id) le s.database.users ∙ c.row.there;
            older = omega (arith, c.balance);
          },
          c.reads,
        );
      }

  pub store-Conserved :
      (older newer : List Queries) (q : Queries)
      → s.snapshots ≡ newer ++ q ∷ older
      → Conserved pg name id lost
          (record s { service = refresh q s.service; snapshots = newer ++ older })
  store-Conserved older newer q e =
      let (r, rest) =
        All-remove (IsRead name id c.in_memory) newer q older
          (subst (All (IsRead name id c.in_memory)) e c.reads) in
      record {
        in_memory = c.in_memory;
        in_database = c.in_database;
        known =
            refresh-Known q r.users s.service name id r.then_used c.in_memory r.listed r.rows
              r.there r.older c.known;
        row = c.row;
        signed = c.signed;
        balance = c.balance;
        reads = rest;
      }

  -- A goroutine ran or failed: what it adds is in the database or lost.
  gone-Conserved :
      (before after : List Task) (t : Task) (db : Database) (d more : ℕ)
      → s.pending ≡ before ++ t ∷ after
      → HasRow name id (c.in_database + d) db.users
      → d + more ≡ pos_part (growth pg id t)
      → Conserved pg name id (lost + more) (record s { database = db; pending = before ++ after })
  gone-Conserved before after t db d more e h sum =
      let (one, rest) =
        All-remove (Signed pg id) before t after (subst (All (Signed pg id)) e c.signed) in
      record {
        in_memory = c.in_memory;
        in_database = c.in_database + d;
        known = c.known;
        row = h;
        signed = rest;
        balance =
            omega (arith, c.balance, ap (owed pg id) e, owed-remove pg id before t after, sum);
        reads = c.reads;
      }

  pub run-Conserved :
      (before after : List Task) (t : Task) (now : ℤ) (db : Database)
      → s.pending ≡ before ++ t ∷ after
      → run_task pg now t s.database ≡ some db
      → Conserved pg name id (lost + 0) (record s { database = db; pending = before ++ after })
  run-Conserved before after t now db e ran =
      let (one, rest) =
        All-remove (Signed pg id) before t after (subst (All (Signed pg id)) e c.signed) in
      let n = pos_part (growth pg id t) in
      gone-Conserved before after t db n 0 e
        (elim (Bool-cases (adds_to pg id t)) [
          | inl adds ↦
              run_task-growth pg now name id c.in_database s.database db t c.row one adds ran
          | inr idle ↦
              let none_added : c.in_database ≡ c.in_database + n =
                ground (arith, growth-none pg id t idle) in
              subst (λ (d : ℕ). HasRow name id d db.users) none_added
                (run_task-foreign pg now name id c.in_database s.database db c.row t idle ran)
        ])
        (omega arith)

  pub fail-Conserved :
      (before after : List Task) (t : Task)
      → s.pending ≡ before ++ t ∷ after
      → Conserved pg name id
          (lost + pos_part (growth pg id t))
          (record s { pending = before ++ after })
  fail-Conserved before after t e =
      let same : c.in_database ≡ c.in_database + 0 = omega arith in
      gone-Conserved before after t s.database 0 (pos_part (growth pg id t)) e
        (subst (λ (d : ℕ). HasRow name id d s.database.users) same c.row) (omega arith)
